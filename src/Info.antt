-- ===== src/Info.antt =====
-- The information block: drivers/cisco/cisco-fpga-info.c and info.h.
pub mod Shows
pub mod Laws
