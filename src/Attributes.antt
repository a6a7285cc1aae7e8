-- ===== src/Attributes.antt =====
-- Attributes over one or two registers: drivers/cisco/sysfs.h and cisco-sysfs.c.
pub mod Attr
pub mod Parse
pub mod Words
pub mod ParseLaws
pub mod StoreLaws
