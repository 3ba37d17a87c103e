-- ===== src/Crypt/Des.antt =====
-- DES as lua-crypt.c has it: the key schedule, the block cipher and its texts with padding.
pub mod Tables
pub mod Schedule
pub mod Block
pub mod Inverse
pub mod Rounds
pub mod Text
pub mod Undo
pub mod Roundtrip
