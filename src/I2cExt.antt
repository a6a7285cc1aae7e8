-- ===== src/I2cExt.antt =====
-- The I2C-EXT controller: drivers/cisco/i2c-ext.h and cisco-fpga-i2c-ext.c.
pub mod Regs
pub mod Access
pub mod Xfer
pub mod CopyLaws
pub mod WaitLaws
pub mod XferLaws
