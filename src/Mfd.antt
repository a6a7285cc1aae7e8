-- ===== src/Mfd.antt =====
-- The parent of the register blocks of an FPGA: drivers/cisco/mfd.c, mfd.h and fpga.h.
pub mod Blocks
pub mod Cells
pub mod Scan
pub mod DuplicateLaws
pub mod CellLaws
pub mod ScanLaws
pub mod ResultLaws
