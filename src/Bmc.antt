-- ===== src/Bmc.antt =====
-- The FPGA behind an I2C client: drivers/cisco/cisco-fpga-bmc.c.
pub mod Bus
pub mod Laws
