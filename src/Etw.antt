-- ===== src/Etw.antt =====
-- EtwService/include/etw: how the service reads the fields of an event. Layout finds a field's place by the
-- description of its class, Members has the event classes, which keep the places they have found, and
-- the other children are about them.
pub mod Names
pub mod Layout
pub mod Members
pub mod Places
pub mod Fields
pub mod Reading
pub mod WideTexts
pub mod TextPlaces
