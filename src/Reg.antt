-- ===== src/Reg.antt =====
-- Bit fields of 32-bit registers: drivers/cisco/reg_access.h.
mod Fields
mod Laws
unfoldable pub use Fields.*
pub use Laws.*
