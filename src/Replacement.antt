-- ===== src/Replacement.antt =====
-- infra/replacement: the replacement policies of a cache set, a module for each class.
pub mod Lru
pub mod PseudoLru
