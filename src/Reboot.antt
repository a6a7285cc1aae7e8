-- ===== src/Reboot.antt =====
-- The reboot notifier: drivers/cisco/cisco-reboot-notifier.c.
pub mod Notify
pub mod Laws
pub mod UpdateLaws
