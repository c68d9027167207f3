-- ===== src/Lib.antt =====
-- Windows-Kernel-Events-Trace: a driver that protects a directory and the processes that run from
-- it, and a service that reads kernel events and judges processes by what they do to files.
--
-- Parts, and the files that model them:
-- Prelude: numbers, Boolean tests, lists, options for faults, the bits of a 32-bit word.
-- Memory: the blocks of `new T[n]` and the loops that copy and fill them. The allocator is an
--   argument (`Element`): a block has the size asked for, what it holds is not fixed.
-- Vector (driver/std/vector/vector.h): the growing array. Sizes are those of 64 bits and wrap;
--   a store or a read outside the block is a fault, `none`. Vector/Growth, Joining and Removal
--   are about the methods that add and remove elements, Vector/Erasure about Erase, and
--   Vector/Defects about operator= and Clear.
-- Strings (driver/std/string/string.h): the same for strings, whose block may be null.
-- Map (driver/std/map/map.h): the red-black tree, for keys that are handles, on a store of nodes by
--   address; an access where no node stands is a fault. Nodes has the nodes and the accesses, Search,
--   Rotation, Insertion and Removal the methods. Shape has the trees that a store stands for, with
--   a subtree in focus and the path above it; Frames and Relinking are about stores through pointers,
--   Rotations, Fixups, Rounds and Settling about the rebalancing, Colours and Heights about the red-black
--   conditions, Contents has the lists of bindings. Deficits, Finishing, FinishingRight, Sinking,
--   SinkingRight, Endings and Sunk are about the rebalancing after a removal, Unlinking, Spines,
--   Preparing, Replacing and Unlinked about the unlinking of a node; the other files are about whole
--   methods, and Values and Runs about the tree behind the callbacks' interface.
-- SelfDefense (driver/function/self_defense.cpp, driver/template/flt-ex.cpp): the callbacks.
--   Model has the state (kProcessMap, kProtectedDirList, kEnableProtectFile), IsInProtectedDirectory,
--   GetProcessImageName, IsProtectedProcess and ProcessNotifyCallback; Handles has PreObCallback;
--   Files has PreCreateFile, PreSetInformationFile and GetFileFullPathName. The other files
--   of the folder are about these: Protection and Images of the decision on a path,
--   Readiness, Processes and Lifetime of the cache, Access of handles, Guard, Refusals and Denials of
--   files.
--   The map from ids to processes is an interface (Table) with the laws of Find, Insert and Erase;
--   association lists meet it. The kernel's answers are arguments (Kernel, FileName, Destination).
-- MiniFilter (driver/template/MiniFs.cpp): MiniFsPreOperation and MiniFsPostOperation, over
--   the list of the registered callbacks, with the vector of statuses that AllocCompletionContext
--   (driver/template/register.cpp) makes; MiniFilter/Dispatch is about this context between them.
-- Printable (EtwService/include/ulti/support.cpp): whether a buffer is text, CheckPrintableUTF8,
--   CheckPrintableANSI and CheckPrintableUTF16; the C library's tests of characters are arguments.
-- Service (EtwService/include/manager): Files has FileNameObjMap and FileIoManager of
--   file_manager.cpp, Processes has ProcessManager of process_manager.cpp and the paths it asks
--   for, Evaluation has EvaluateProcess and Filters the event filters of manager.cpp; Names,
--   Queue, Family, Selections, Verdicts and Rounds are about them. What the system answers is an argument.
--   Service/Consumer has ProcessEvent and the handlers it calls, of EtwService/include/etw/consumer.cpp,
--   which hand the events to these managers; Service/Watching is about them. An event comes with its
--   fields read.
-- Etw (EtwService/include/etw/wmieventclass.cpp and EtwService/include/etw/event): how fields are read from
--   an event. Layout has WmiEventClass, Members the constructors of the event classes, which differ
--   in the names they ask for only; Places, Fields, Reading, WideTexts and TextPlaces are about them. What
--   WMI says of a class is an argument, and so is the C library's comparison without regard to case.
-- Tests: concrete blocks, strings, states and requests.
--
-- The loops are recursions on a list or on the number of rounds, which is known at their start. The
-- loop of CheckPrintableUTF8 takes fuel: the length of the buffer, since each round moves on by a
-- byte at least. The loops of Map take rounds as well: as many as the tree is high and one more, for
-- which 130 are enough below 2^64 nodes. The interface Table that the callbacks use has
-- its laws for every key and without a limit on the entries; Map/Runs is about where the tree keeps
-- to them: for keys of 64 bits, and below 2^64 operations.
--
-- Not modelled: locks (each callback is one step), debug messages, the registration of the
-- callbacks, the normalization of the default directory's path, the trees of set.h, the
-- Knuth-Morris-Pratt search, the registration of the filter, the port and the device control, and of
-- the service the connection to WMI, the output of TrID and the control handler.
pub mod Prelude
pub mod Memory
pub mod Vector
pub mod Strings
pub mod SelfDefense
pub mod MiniFilter
pub mod Printable
pub mod Service
pub mod Map
pub mod Etw
pub mod Tests
