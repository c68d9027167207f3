-- ===== src/Service.antt =====
-- EtwService/include/manager and etw/consumer.cpp: what the service keeps of the kernel's events, and
-- how they reach it. Strings are lists of characters here.
pub mod Files
pub mod Queue
pub mod Names
pub mod Processes
pub mod Family
pub mod Evaluation
pub mod Filters
pub mod Consumer
pub mod Watching
pub mod Selections
pub mod Verdicts
pub mod Rounds
