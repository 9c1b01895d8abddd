-- ===== src/Memory.antt =====
-- memory: the memories of the guest, plain and hierarchied.
pub mod Access
pub mod Plain
pub mod Hierarchied
