-- ===== src/I2cSmb.antt =====
-- The SMBus controller: drivers/cisco/cisco-fpga-i2c.c.
pub mod Wait
pub mod Xfer
pub mod WaitLaws
pub mod XferLaws
pub mod ByteLaws
