-- ===== src/Etw/Members.antt =====
-- EtwService/include/etw/event: the classes of events, whose constructors look for the places of the fields
-- once (`is_positioned`) and then copy the fields out of each event's data. A copy of more than eight
-- bytes, or from outside the data, is a fault, `none`; a text is the offset of its first character.
use windows_kernel_events_tr.Prelude.{
  ℕ, Bool, true, false, ◌&&◌, ◌||◌, Option, none, some, ◌>>=◌, if◌then◌else◌, ◌==◌, ltb, leb, List,
  [], ◌∷◌, map, take, zero, suc,
}
use windows_kernel_events_tr.Etw.Names.{Name}
use windows_kernel_events_tr.Etw.Layout.{WmiEventClass, get_property_info, from_offset, read_number}

-- How a class finds its text: not at all, once and only if it is after all fields, once as the last of
-- its fields, or anew for each event.
pub data Texts : Type 0 where
  no_text : Texts
  text_after : Name → Texts
  text_last : Texts
  texts_each : List Name → Texts

-- The fields whose sizes are tested, how many of them are copied, and the text.
pub record Member : Type 0 where
  pub located : List Name
  pub copied : ℕ
  pub texts : Texts

-- The offsets that a class keeps, with the sizes.
pub record Offsets : Type 0 where
  pub is_positioned : Bool
  pub fields : List (ℕ × ℕ)
  pub text : ℕ

abbrev pub no_offsets : Offsets
no_offsets = record { is_positioned = false; fields = []; text = 0 }

-- The members of an event: 0 where nothing was copied.
pub record Fields : Type 0 where
  pub values : List ℕ
  pub texts : List ℕ

unfoldable pub locate_all : WmiEventClass → List Name → List ℕ → Option (List (ℕ × ℕ))
locate_all w [] bytes = some []
locate_all w (n ∷ ns) bytes = do
  p ← get_property_info w n bytes
  ps ← locate_all w ns bytes
  some (p ∷ ps)

unfoldable pub has_unknown : List (ℕ × ℕ) → Bool
has_unknown [] = false
has_unknown ((offset, size) ∷ ps) = (size == 0) || has_unknown ps

unfoldable pub all_before : ℕ → List (ℕ × ℕ) → Bool
all_before text [] = true
all_before text ((offset, size) ∷ ps) = ltb offset text && all_before text ps

unfoldable pub last_offset : List (ℕ × ℕ) → ℕ
last_offset [] = 0
last_offset ((offset, size) ∷ []) = offset
last_offset (p ∷ q ∷ ps) = last_offset (q ∷ ps)

-- `memcpy(&field, p_data + offs, size)`
unfoldable pub copy_field : List ℕ → ℕ × ℕ → Option ℕ
copy_field bytes (offset, size) =
    if leb size 8 then (from_offset offset bytes >>= λ bs. read_number size bs) else none

unfoldable pub copy_fields : List ℕ → List (ℕ × ℕ) → Option (List ℕ)
copy_fields bytes [] = some []
copy_fields bytes (p ∷ ps) = do v ← copy_field bytes p; vs ← copy_fields bytes ps; some (v ∷ vs)

unfoldable pub all_zero : ℕ → List ℕ
all_zero zero = []
all_zero (suc n) = 0 ∷ all_zero n

-- The offset of the text, where it is looked for with the fields.
unfoldable pub locate_text : WmiEventClass → Texts → List (ℕ × ℕ) → List ℕ → Option ℕ
locate_text w no_text ps bytes = some 0
locate_text w (text_after n) ps bytes = get_property_info w n bytes >>= λ p. some p.0
locate_text w text_last ps bytes = some (last_offset ps)
locate_text w (texts_each ns) ps bytes = some 0

unfoldable pub is_placed : Texts → ℕ → List (ℕ × ℕ) → Bool
is_placed no_text text ps = true
is_placed (text_after n) text ps = all_before text ps
is_placed text_last text ps = true
is_placed (texts_each ns) text ps = true

unfoldable pub text_offsets : WmiEventClass → Texts → Offsets → List ℕ → Option (List ℕ)
text_offsets w no_text o bytes = some []
text_offsets w (text_after n) o bytes = some (o.text ∷ [])
text_offsets w text_last o bytes = some (o.text ∷ [])
text_offsets w (texts_each ns) o bytes = locate_all w ns bytes >>= λ ps. some (map (λ p. p.0) ps)

-- The statements after the places are known.
unfoldable pub copy_out : WmiEventClass → Member → Offsets → List ℕ → Option (Offsets × Fields)
copy_out w m o bytes = do
  vs ← copy_fields bytes (take m.copied o.fields)
  ts ← text_offsets w m.texts o bytes
  some (o, record { values = vs; texts = ts })

-- A constructor: with a field of size 0 it returns before anything is copied.
unfoldable pub read_member : WmiEventClass → Member → Offsets → List ℕ → Option (Offsets × Fields)
read_member w m o bytes = if o.is_positioned then copy_out w m o bytes else (do
  ps ← locate_all w m.located bytes
  t ← locate_text w m.texts ps bytes
  if has_unknown ps
      then some (
        record { is_positioned = false; fields = ps; text = t },
        record { values = all_zero m.copied; texts = [] },
      )
      else copy_out w m (record { is_positioned = is_placed m.texts t ps; fields = ps; text = t })
          bytes)

-- FileIoCreateEventMember
unfoldable pub file_io_create : Member
file_io_create = record {
  located =
      "IrpPtr" ∷ "TTID" ∷ "FileObject" ∷ "CreateOptions" ∷ "FileAttributes" ∷ "ShareAccess" ∷ [];
  copied = 6;
  texts = text_after "OpenPath";
}

-- FileIoDirEnumEventMember: three of its seven fields are copied.
unfoldable pub file_io_dir_enum : Member
file_io_dir_enum = record {
  located =
      "IrpPtr" ∷ "TTID" ∷ "FileObject" ∷ "FileKey" ∷ "Length" ∷ "InfoClass" ∷ "FileIndex" ∷ [];
  copied = 3;
  texts = text_after "FileName";
}

-- FileIoInfoEventMember
unfoldable pub file_io_info : Member
file_io_info = record {
  located = "IrpPtr" ∷ "TTID" ∷ "FileObject" ∷ "FileKey" ∷ "ExtraInfo" ∷ "InfoClass" ∷ [];
  copied = 6;
  texts = no_text;
}

-- FileIoNameEventMember
unfoldable pub file_io_name : Member
file_io_name = record { located = "FileObject" ∷ []; copied = 1; texts = text_after "FileName" }

-- FileIoOpEndEventMember
unfoldable pub file_io_op_end : Member
file_io_op_end = record {
  located = "IrpPtr" ∷ "ExtraInfo" ∷ "NtStatus" ∷ [];
  copied = 3;
  texts = no_text;
}

-- FileIoReadWriteEventMember
unfoldable pub file_io_read_write : Member
file_io_read_write = record {
  located = "Offset" ∷ "IrpPtr" ∷ "TTID" ∷ "FileObject" ∷ "FileKey" ∷ "IoSize" ∷ "IoFlags" ∷ [];
  copied = 7;
  texts = no_text;
}

-- FileIoSimpleOpEventMember
unfoldable pub file_io_simple_op : Member
file_io_simple_op = record {
  located = "IrpPtr" ∷ "TTID" ∷ "FileObject" ∷ "FileKey" ∷ [];
  copied = 4;
  texts = no_text;
}

-- ProcessTypeGroup1EventMember
unfoldable pub process_type_group1 : Member
process_type_group1 = record {
  located =
      "UniqueProcessKey" ∷ "ProcessId" ∷ "ParentId" ∷ "SessionId" ∷ "ExitStatus"
      ∷ "DirectoryTableBase" ∷ [];
  copied = 6;
  texts = texts_each ("ImageFileName" ∷ "CommandLine" ∷ []);
}

-- ThreadTypeGroup1EventMember
unfoldable pub thread_type_group1 : Member
thread_type_group1 = record {
  located =
      "ProcessId" ∷ "TThreadId" ∷ "StackBase" ∷ "StackLimit" ∷ "UserStackBase" ∷ "UserStackLimit"
      ∷ "Affinity" ∷ "Win32StartAddr" ∷ "TebBase" ∷ "SubProcessTag" ∷ "BasePriority"
      ∷ "PagePriority" ∷ "IoPriority" ∷ "ThreadFlags" ∷ [];
  copied = 14;
  texts = no_text;
}

-- RegistryTypeGroup1EventMember: the name of the key is the last field, and is not copied.
unfoldable pub registry_type_group1 : Member
registry_type_group1 = record {
  located = "Initial Time" ∷ "Status" ∷ "Index" ∷ "KeyHandle" ∷ "KeyName" ∷ [];
  copied = 4;
  texts = text_last;
}

-- DiskIoEventTypeGroup1Member
unfoldable pub disk_io_type_group1 : Member
disk_io_type_group1 = record {
  located =
      "DiskNumber" ∷ "IrpFlags" ∷ "TransferSize" ∷ "Reserved" ∷ "ByteOffset" ∷ "FileObject" ∷ "Irp"
      ∷ "HighResResponseTime" ∷ "IssuingThreadId" ∷ [];
  copied = 9;
  texts = no_text;
}

-- PageFaultVirtualAllocEventMember
unfoldable pub page_fault_virtual_alloc : Member
page_fault_virtual_alloc = record {
  located = "BaseAddress" ∷ "RegionSize" ∷ "ProcessId" ∷ "Flags" ∷ [];
  copied = 4;
  texts = no_text;
}

-- SysCallEnterEventMember
unfoldable pub sys_call_enter : Member
sys_call_enter = record { located = "SysCallAddress" ∷ []; copied = 1; texts = no_text }
