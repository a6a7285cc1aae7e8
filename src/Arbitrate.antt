-- ===== src/Arbitrate.antt =====
-- Arbitration between the masters of an I2C bus: drivers/cisco/i2c-arbitrate.h and i2c-arbitrate.c.
pub mod State
pub mod Bus
pub mod Grant
pub mod Laws
pub mod WaitLaws
pub mod GrantLaws
pub mod Config
pub mod ConfigLaws
pub mod DecideLaws
pub mod Register
pub mod RegisterLaws
