-- ===== src/Ds.antt =====
-- src/ds/: the containers of the cache.
pub mod List
pub mod HashMap
pub mod Trie
pub mod TextMap
