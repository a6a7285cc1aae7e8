-- ===== src/Msd/Probe.antt =====
-- The probe of drivers/cisco/cisco-fpga-msd.c, after `cisco_fpga_msd_xil_mfd_init` has made its regmap.
use cisco_8000_kernel_module.Common.{
  leb, ◌==◌, if◌then◌else◌, ℕ, ◌%◌, ◌^◌, Bool, not, ◌&&◌, Option, none, some, map,
}
use cisco_8000_kernel_module.Env.{
  Result, Done, M, pure, lift, ◌>>=◌, ◌>>◌, attempt, regmap_read, regmap_write, regmap_update_bits,
  ok, err,
}
use cisco_8000_kernel_module.Reg.{Field, field, reg_mask_lo, get, put}
use cisco_8000_kernel_module.Header.Scratch.{info0_reg, info0_major_ver}
use cisco_8000_kernel_module.Reboot.Notify.{
  Action, Notifier, Defaults, Properties, register_reboot_notifier,
}
use cisco_8000_kernel_module.Msd.Ready.{msd_cfg5}

-- The offsets of `cfg7` and `scratchram` in `struct msd_regs_v5_t`.
abbrev pub msd_cfg7 : ℕ
msd_cfg7 = 0x3c

abbrev pub msd_scratchram : ℕ
msd_scratchram = 0x100

abbrev pub msd_master_select : Field
msd_master_select = field 10 10

-- `msd_cfg5_master_select__X86`.
abbrev pub master_x86 : ℕ
master_x86 = 0

abbrev pub msd_action : ℕ → Action
msd_action value = record { reg = 0x3c; mask = 0xfffff7ff; value = value }

-- `r_info`.
abbrev pub msd_reboot_info : Defaults
msd_reboot_info = record {
  enable = 1;
  priority = 32;
  restart = msd_action 0x400;
  halt = msd_action 0x8;
  poweroff = msd_action 0x8;
}

-- `priv->active`: `cell` is the platform data of one byte, `id_entry` the driver data of the entry that
-- the device has matched, and `standby` the device's property.
unfoldable pub msd_active : Option ℕ → Option ℕ → Result ℕ → ℕ
msd_active cell id_entry standby =
    let active : ℕ = elim cell [
      | some b ↦ b
      | none ↦ elim id_entry [ some d ↦ d % 2 ^ 8 | none ↦ 1 ]
    ] in
    elim standby [ err _ ↦ active | ok v ↦ if v == 0 then active else 0 ]

-- What the probe gets from the kernel: whether it is active, the status of adding the groups for
-- version 5 or version 4, the device's properties about reboots, and the outcome of the allocation and
-- the registration of the notifier.
pub record Platform : Type 0 where
  pub cell : Option ℕ
  pub id_entry : Option ℕ
  pub standby : Result ℕ
  pub added : Bool → Done
  pub properties : Properties
  pub allocated : Bool
  pub registered : Done

-- The part of the probe for an active block: no status but that of the messages depends on its
-- requests. It gives the notifier that is registered.
unfoldable pub init_active : ℕ → Platform → M (Option Notifier)
init_active map p = do
  e ← attempt (regmap_write map msd_scratchram 0)
  _ ← (elim e [ err _ ↦ pure (ok 0) | ok _ ↦ attempt (regmap_read map msd_scratchram) ])
  _ ← attempt (
      regmap_update_bits map msd_cfg5 (reg_mask_lo msd_master_select.hi msd_master_select.lo)
        (put msd_master_select master_x86))
  _ ← attempt (regmap_read map msd_scratchram)
  n ← attempt (
      register_reboot_notifier (some map) (some msd_reboot_info) p.properties p.allocated
        p.registered)
  pure (elim n [ ok o ↦ o | err _ ↦ none ])

-- `cisco_fpga_msd_probe`.
unfoldable pub msd_probe : ℕ → Platform → M (Option Notifier)
msd_probe map p = do
  v ← regmap_read map info0_reg
  let major : ℕ = get info0_major_ver v
  lift (p.added (leb 5 major))
  (if not (msd_active p.cell p.id_entry p.standby == 0) && leb 5 major
      then init_active map p
      else pure none)
