-- ===== src/Tests.antt =====
-- The theorems at concrete data.
mod Maps
mod Texts
mod Words
mod Code
mod Tacs
mod Symbols
mod Folding
mod Chunks
mod Commits
mod Parsing
mod Heaps
mod Fields
