-- ===== src/Pseq.antt =====
-- The power sequencer: drivers/cisco/pseq.h and cisco-fpga-pseq.c.
pub mod Attrs
pub mod Rails
pub mod RailLaws
pub mod ConfigLaws
