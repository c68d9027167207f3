-- ===== src/SelfDefense.antt =====
-- driver/function/self_defense.cpp: the callbacks by which the driver protects its directories and
-- the processes that run from them.
pub mod Table
pub mod Model
pub mod Protection
pub mod Images
pub mod Readiness
pub mod Processes
pub mod Lifetime
pub mod Handles
pub mod Access
pub mod Files
pub mod Guard
pub mod Refusals
pub mod Denials
