-- ===== src/Header.antt =====
-- The header that every register block starts with: drivers/cisco/hdr.h and hdr.c.
pub mod Scratch
pub mod Commands
pub mod Laws
