-- ===== src/Msd.antt =====
-- The MSD block: drivers/cisco/cisco-fpga-msd.c and msd.h.
pub mod Ready
pub mod Probe
pub mod ReadyLaws
pub mod NotifyLaws
pub mod ProbeLaws
