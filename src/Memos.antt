-- ===== src/Memos.antt =====
-- memos-2/memos-2.c: the printing of numbers and of the memory map.
pub mod Number
pub mod Map
pub mod Examples
