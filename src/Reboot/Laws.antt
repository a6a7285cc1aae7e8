-- ===== src/Reboot/Laws.antt =====
-- When a notification makes an update.
use cisco_8000_kernel_module.Common.{if◌then◌else◌, ℕ, bit_or, Bool}
use cisco_8000_kernel_module.Env.{Env}
use cisco_8000_kernel_module.Reg.{bit}
use cisco_8000_kernel_module.Reboot.Notify.{sys_restart, sys_halt, sys_power_off}

-- The modes of three actions, of which some have no register.
abbrev modes : Bool → Bool → Bool → ℕ
modes r h p =
    let m1 : ℕ = if r then 0 else bit_or 0 (bit sys_restart) in
    let m2 : ℕ = if h then m1 else bit_or m1 (bit sys_halt) in
    if p then m2 else bit_or m2 (bit sys_power_off)
