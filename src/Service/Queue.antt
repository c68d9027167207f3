-- ===== src/Service/Queue.antt =====
-- Runs of pushes and pops of the queue of `FileIoManager` of file_manager.cpp.
use windows_kernel_events_tr.Prelude.{ℕ, ◌≡◌, sym, ap, ◌∙◌, List, [], ◌∷◌, ◌++◌}
use mathlib.Core.List.{append-nil}
use windows_kernel_events_tr.Memory.{append_assoc3}
use windows_kernel_events_tr.Service.Files.{
  FileIoInfo, rename_event, write_event, push_rename, push_write, pop_file_io_event,
}

-- What the service does with the queue.
pub data Operation : Type 0 where
  rename : (file_path_new : List ℕ) (pid start_time_ms : ℕ) (file_path_old : List ℕ) → Operation
  write : (file_path : List ℕ) (pid start_time_ms io_size : ℕ) → Operation
  pop : Operation

-- The events that the operations push, in order.
abbrev pub pushed : List Operation → List FileIoInfo
pushed [] = []
pushed (Operation.rename new pid time old ∷ ops) = rename_event new pid time old ∷ pushed ops
pushed (Operation.write path pid time size ∷ ops) = write_event path pid time size ∷ pushed ops
pushed (Operation.pop ∷ ops) = pushed ops

-- A run: the events that the pops of a queue that is not empty return, and the queue in the end.
unfoldable pub run : List Operation → List FileIoInfo → List FileIoInfo × List FileIoInfo
run [] queue = ([], queue)
run (Operation.rename new pid time old ∷ ops) queue = run ops (push_rename new pid time old queue)
run (Operation.write path pid time size ∷ ops) queue = run ops (push_write path pid time size queue)
run (Operation.pop ∷ ops) [] = run ops (pop_file_io_event []).1
run (Operation.pop ∷ ops) (first ∷ queue) =
    let after = pop_file_io_event (first ∷ queue) in
    let (popped, last) = run ops after.1 in (after.0 ∷ popped, last)

-- In every run of pushes and pops, the events popped from a queue that is not empty, followed by
-- those left in it, are those that were in it at the start followed by those pushed, in order: none
-- is lost, doubled or overtaken.
pub run-fifo :
    (ops : List Operation) (queue : List FileIoInfo)
    → (run ops queue).0 ++ (run ops queue).1 ≡ queue ++ pushed ops
unfolding run push_rename push_write pop_file_io_event
run-fifo [] queue = sym (append-nil queue)
run-fifo (Operation.rename new pid time old ∷ ops) queue =
    run-fifo ops (push_rename new pid time old queue)
    ∙ append_assoc3 queue (rename_event new pid time old ∷ []) (pushed ops)
run-fifo (Operation.write path pid time size ∷ ops) queue =
    run-fifo ops (push_write path pid time size queue)
    ∙ append_assoc3 queue (write_event path pid time size ∷ []) (pushed ops)
run-fifo (Operation.pop ∷ ops) [] = run-fifo ops []
run-fifo (Operation.pop ∷ ops) (first ∷ queue) = ap (λ l. first ∷ l) (run-fifo ops queue)
