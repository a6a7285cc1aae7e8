-- ===== src/Xil.antt =====
-- The XIL block: drivers/cisco/xil.h, cisco-fpga-xil.c, msd_xil_regmap.c and
-- msd_xil_sysfs.c.
pub mod Regs
pub mod Boards
pub mod Config
pub mod Scratch
pub mod Cards
pub mod Tables
pub mod CardLaws
pub mod TableLaws
pub mod Npus
pub mod BoardLaws
pub mod NpuLaws
pub mod ScratchLaws
pub mod TextLaws
