-- ===== src/Reboot/Notify.antt =====
-- Register updates that a reboot, a halt or a power-off triggers. Messages, the sysfs group and the
-- show handler, which only prints, are left out.
use cisco_8000_kernel_module.Common.{
  ◌==◌, if◌then◌else◌, ℕ, ◌%◌, ◌^◌, bit_and, bit_or, Bool, Option, none, some, map,
}
use cisco_8000_kernel_module.Env.{
  Result, Done, M, pure, fail, lift, ◌>>=◌, ◌>>◌, attempt, regmap_read, regmap_write,
  regmap_update_bits, enxio, enomem, einval, ok, err,
}
use cisco_8000_kernel_module.Reg.{bit}

abbrev pub reg_not_present : ℕ
reg_not_present = 0xffffffff

-- The register, mask and value of `struct notifier_sysfs_attr`, and of a property of three words.
pub record Action : Type 0 where
  pub reg : ℕ
  pub mask : ℕ
  pub value : ℕ

-- `struct cisco_reboot_notifier`.
pub record Notifier : Type 0 where
  pub notifier_mode : ℕ
  pub priority : ℕ
  pub restart : Action
  pub halt : Action
  pub power_off : Action

-- `struct reboot_info`, and `def_reboot_info`.
pub record Defaults : Type 0 where
  pub enable : ℕ
  pub priority : ℕ
  pub restart : Action
  pub halt : Action
  pub poweroff : Action

abbrev pub no_action : Action
no_action = record { reg = reg_not_present; mask = 0xffffffff; value = 0 }

abbrev pub def_reboot_info : Defaults
def_reboot_info = record {
  enable = 0;
  priority = 0;
  restart = no_action;
  halt = no_action;
  poweroff = no_action;
}

-- SYS_RESTART, SYS_HALT and SYS_POWER_OFF of linux/reboot.h.
abbrev pub sys_restart : ℕ
sys_restart = 1

abbrev pub sys_halt : ℕ
sys_halt = 2

abbrev pub sys_power_off : ℕ
sys_power_off = 3

-- `_regmap_update`, on the device's regmap if it has one.
unfoldable pub regmap_update : Option ℕ → Action → M (Unit {0})
regmap_update none a = fail enxio
regmap_update (some map) a =
    if a.reg == reg_not_present
    then fail einval
    else (regmap_read map a.reg >>= λ before.
        if a.mask == 0
        then regmap_write map a.reg a.value
        else (regmap_update_bits map a.reg a.mask 0 >> regmap_update_bits map a.reg a.mask a.value))

-- The `switch` of `_reboot_notifier`.
unfoldable pub action_of : Notifier → ℕ → Option Action
action_of n mode =
    if mode == sys_restart
    then some n.restart
    else (if mode == sys_halt
        then some n.halt
        else (if mode == sys_power_off then some n.power_off else none))

-- `_reboot_notifier`, which returns NOTIFY_DONE.
unfoldable pub reboot_notifier : Option ℕ → Notifier → ℕ → M ℕ
reboot_notifier r n mode = elim (action_of n mode) [
  | none ↦ pure 0
  | some a ↦
      if bit_and n.notifier_mode (bit mode) == 0
      then pure 0
      else (attempt (regmap_update r a) >>= λ _. pure 0)
]

-- `_sysfs_store`, with the numbers that `sscanf` read when it used up the buffer: the status and the
-- action after it.
unfoldable pub sysfs_store : Option ℕ → Option Action → ℕ → Action → Result ℕ × Action
sysfs_store none parsed buflen a = (err enxio, a)
sysfs_store (some _) none buflen a = (err einval, a)
sysfs_store (some _) (some p) buflen a =
    (ok buflen, record { reg = p.reg % 2 ^ 32; mask = p.mask % 2 ^ 32; value = p.value % 2 ^ 32 })

-- `_init_action`: the notifier's modes and the action of this mode.
unfoldable pub init_action : ℕ → Result Action → Action → ℕ → ℕ × Action
init_action mode property fallback modes =
    let chosen : Action = elim property [ ok p ↦ p | err _ ↦ fallback ] in
    (if chosen.reg == reg_not_present then modes else bit_or modes (bit mode), chosen)

-- The properties "reboot-notifier-..." of the device.
pub record Properties : Type 0 where
  pub probe : Result Action
  pub enable : Result ℕ
  pub restart : Result Action
  pub halt : Result Action
  pub power_off : Result Action
  pub priority : Result ℕ

abbrev pub or_else : Result ℕ → ℕ → ℕ
or_else (ok v) d = v
or_else (err _) d = d

-- The part of `cisco_register_reboot_notifier` that fills in the notifier.
unfoldable pub init_notifier : Properties → Defaults → Notifier
init_notifier p info =
    let (m1, restart) = init_action sys_restart p.restart info.restart 0 in
    let (m2, halt) = init_action sys_halt p.halt info.halt m1 in
    let (m3, power_off) = init_action sys_power_off p.power_off info.poweroff m2 in
    record {
      notifier_mode = m3;
      priority = or_else p.priority info.priority;
      restart = restart;
      halt = halt;
      power_off = power_off;
    }

-- `cisco_register_reboot_notifier`: the notifier that it registers, if any; `allocated` is the outcome
-- of the allocation and `registered` the status of the registration.
unfoldable pub register_reboot_notifier :
    Option ℕ → Option Defaults → Properties → Bool → Done → M (Option Notifier)
register_reboot_notifier none r_info p allocated registered = fail einval
register_reboot_notifier (some map) r_info p allocated registered = do
  let info : Defaults = elim r_info [ none ↦ def_reboot_info | some i ↦ i ]
  _ ← attempt (elim p.probe [ ok a ↦ regmap_update (some map) a | err _ ↦ pure tt ])
  if or_else p.enable info.enable == 0
      then pure none
      else (if allocated
          then (let n : Notifier = init_notifier p info in
              if n.notifier_mode == 0 then pure none else (lift registered >> pure (some n)))
          else fail enomem)
