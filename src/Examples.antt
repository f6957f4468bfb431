-- ===== src/Examples.antt =====
-- Runs at concrete inputs.
mod Sets
mod Tables
mod Lines
mod Arrays
mod Digests
mod Columns
mod Packages
mod Hashes
mod Wrapped
mod Imbuing
mod Logs
mod Rules
