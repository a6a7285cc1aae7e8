-- ===== src/Gpio/Probe.antt =====
-- The probe of drivers/cisco/cisco-fpga-gpio-main.c up to the registration with the kernel: the reboot
-- type and the table of lines.
use cisco_8000_kernel_module.Common.{
  ltb, leb, ◌==◌, if◌then◌else◌, ℕ, zero, suc, bit_and, Bool, Option, none, some, List, [], ◌∷◌,
  map,
}
use cisco_8000_kernel_module.Env.{
  Result, M, pure, fail, ◌>>=◌, ◌>>◌, attempt, regmap_read, regmap_write, regmap_update_bits,
  bug_on, enodev, ok, err,
}
use cisco_8000_kernel_module.Gpio.Regs.{sw1, cfg0, max_gpios, Adapter}
use cisco_8000_kernel_module.Gpio.Scan.{PinSearch}
use cisco_8000_kernel_module.Gpio.Descriptor.{
  Scanner, unset_reboot, cold_reboot, max_reboot_type, gpio_init,
}

-- `REBOOT_TYPE_MASK`, GENMASK(1, 0).
abbrev pub reboot_type_mask : ℕ
reboot_type_mask = 3

-- `get_reboot_type`.
unfoldable pub get_reboot_type : ℕ → M ℕ
get_reboot_type map = do v ← regmap_read map sw1; pure (bit_and v reboot_type_mask)

-- The steps of `_gpio_probe` that settle `m_reboot_type`, from its value as a module parameter.
unfoldable pub settle_reboot : ℕ → ℕ → M ℕ
settle_reboot map given = do
  let t : ℕ = if leb max_reboot_type given then unset_reboot else given
  r ← (if t == unset_reboot then attempt (get_reboot_type map) else pure (ok t))
  let t1 : ℕ = elim r [ ok v ↦ v | err _ ↦ t ]
  pure (if t1 == unset_reboot then cold_reboot else t1)

unfoldable pub get_reboot_type_str : ℕ → M (Unit {0})
get_reboot_type_str t = if leb max_reboot_type t then fail bug_on else pure tt

unfoldable pub clear_reboot_type : ℕ → M (Unit {0})
clear_reboot_type map = regmap_update_bits map sw1 reboot_type_mask 0

-- `off[e] = e`.
abbrev pub identity_from : ℕ → ℕ → List ℕ
identity_from zero e = []
identity_from (suc left) e = e ∷ identity_from left (suc e)

-- The number of lines: the length of "gpio-descriptors", which none gives as a negative status.
unfoldable pub line_count : Result ℕ → ℕ
line_count (err _) = max_gpios
line_count (ok n) = if ltb max_gpios n then max_gpios else n

-- The table `off`, from the descriptors if the device has them.
unfoldable pub fill_off :
    Scanner → PinSearch → ℕ → ℕ → Result ℕ → Bool → (ℕ → Result (List (List ℕ))) → Bool → M (List ℕ)
fill_off k s map reboot (ok n) desc read_descriptors k_table =
    gpio_init k s map reboot desc (read_descriptors (line_count (ok n))) k_table
fill_off k s map reboot (err e) desc read_descriptors k_table =
    pure (identity_from (line_count (err e)) 0)

-- What the probe leaves: the adapter, and the global `m_reboot_type`.
pub record Probed : Type 0 where
  pub adapter : Adapter
  pub reboot_type : ℕ

-- `_gpio_probe` once `cisco_fpga_mfd_init` has succeeded, up to the write that disables the remapping;
-- `map` is NULL or the device's regmap. `read_descriptors` reads as many strings as it is asked for.
unfoldable pub gpio_probe :
    Scanner
    → PinSearch
    → Option ℕ
    → ℕ
    → ℕ
    → Result ℕ
    → Bool
    → (ℕ → Result (List (List ℕ)))
    → Bool
    → M Probed
gpio_probe k s none irq given count desc read_descriptors k_table = fail enodev
gpio_probe k s (some map) irq given count desc read_descriptors k_table = do
  let ngpio : ℕ = line_count count
  reboot ← settle_reboot map given
  get_reboot_type_str reboot
  _ ← attempt (clear_reboot_type map)
  off ← fill_off k s map reboot count desc read_descriptors k_table
  regmap_write map cfg0 0
  pure (record {
    adapter = record { map = map; irq = irq; ngpio = ngpio; off = off };
    reboot_type = reboot;
  })
