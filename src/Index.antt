-- ===== src/Index.antt =====
-- Package index: the trigram index, how it is written, read, merged and queried.
pub mod Varint
pub mod Search
pub mod Posting
pub mod Read
pub mod StringSet
pub mod Query
pub mod Answer
pub mod Add
pub mod Sort
pub mod Heap
pub mod Merge
pub mod Analyze
pub mod Renumber
mod Sample
mod Runs
