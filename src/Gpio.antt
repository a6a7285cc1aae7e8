-- ===== src/Gpio.antt =====
-- The GPIO controller: drivers/cisco/gpio.h, cisco-fpga-gpio-main.c,
-- cisco-fpga-gpio-init.c and cisco-fpga-gpio-sysfs.c.
pub mod Regs
pub mod Pins
pub mod Irq
pub mod Scan
pub mod Descriptor
pub mod Probe
pub mod Tokens
pub mod Config
pub mod Debug
pub mod ConfigLaws
pub mod IdentityLaws
pub mod Changes
pub mod ConfigRuns
pub mod ParseLaws
pub mod DebugLaws
pub mod DescriptorLaws
pub mod InitLaws
pub mod ProbeLaws
pub mod PinLaws
pub mod IrqLaws
