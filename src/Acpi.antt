-- ===== src/Acpi.antt =====
-- The lookup of an FPGA's ACPI companion: drivers/cisco/cisco-acpi.c, in a build with CONFIG_ACPI.
pub mod Companion
pub mod CompanionLaws
