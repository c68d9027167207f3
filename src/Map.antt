-- ===== src/Map.antt =====
-- driver/std/map/map.h: the class Map, a red-black tree of nodes with parent pointers. Nodes has the
-- store of nodes and the accesses through pointers, Search, Rotation, Insertion and Removal the
-- methods, and the other children the shapes that a store stands for.
pub mod Nodes
pub mod Search
pub mod Rotation
pub mod Insertion
pub mod Removal
pub mod Shape
pub mod Frames
pub mod Relinking
pub mod Rotations
pub mod Colours
pub mod Fixups
pub mod Rounds
pub mod Settling
pub mod Deficits
pub mod Finishing
pub mod FinishingRight
pub mod Sinking
pub mod SinkingRight
pub mod Endings
pub mod Sunk
pub mod Unlinking
pub mod Spines
pub mod Replacing
pub mod Preparing
pub mod Unlinked
pub mod Erasing
pub mod Erased
pub mod Values
pub mod Runs
pub mod Insertions
pub mod Contents
pub mod Searches
pub mod Bounds
pub mod Steps
pub mod Placing
pub mod Inserting
pub mod Heights
pub mod Lookups
pub mod Accessing
pub mod Iteration
pub mod Copies
pub mod Clearing
