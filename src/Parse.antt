-- ===== src/Parse.antt =====
-- parse.c: the context, `imbue_parser` and `parse`.
pub mod Cursor
pub mod Context
pub mod Imbue
pub mod Record
pub mod Format
pub mod Count
pub mod Steps
pub mod Fields
pub mod Sets
pub mod Keys
pub mod Pointers
pub mod Reading
pub mod Whole
pub mod Correct
pub mod Taken
pub mod Imbued
pub mod Reject
pub mod Refusing
pub mod Refused
