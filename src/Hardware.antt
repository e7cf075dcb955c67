-- ===== src/Hardware.antt =====
-- What the code runs on: byte-addressed memory, and the address translation of the processor
-- (a specification from the processor's manual, not code of the repository).
pub mod Ram
pub mod Mmu
pub mod Bus
