-- ===== src/Tests.antt =====
-- Witnesses at concrete messages for the theorems about src/Payload.cpp, src/Field.cpp and
-- src/Iterator.cpp.
pub mod Model
pub mod Fields
pub mod Bridge
pub mod Typed
pub mod Reach
pub mod Numbers
pub mod Objects
pub mod Merge
pub mod Entries
pub mod Print
pub mod Ownership
pub mod Safety
