-- ===== src/Gpio/Pins.antt =====
-- The `gpio_chip` callbacks of drivers/cisco/cisco-fpga-gpio-main.c: value, direction, drive mode.
use cisco_8000_kernel_module.Common.{ℕ, ◌==◌, if◌then◌else◌}
use cisco_8000_kernel_module.Env.{
  M, ok, err, pure, fail, lift, ◌>>=◌, ◌>>◌, attempt, regmap_read, regmap_write, einval, enotsupp,
}
use cisco_8000_kernel_module.Reg.{get, put, replace}
use cisco_8000_kernel_module.Gpio.Regs.{
  Adapter, gpio_io, cfg_stat, set_reg, clr_reg, dir, dis_output, out_state, in_state, set_out_state,
  clr_out_state, dir_input, dir_output, output_enable, output_tristate, state_low,
}

-- `_gpio_get`.
unfoldable pub gpio_get : Adapter → ℕ → M ℕ
gpio_get p offset = do
  pin ← lift (gpio_io p offset)
  v ← regmap_read p.map (cfg_stat pin)
  pure (
      if get dir v == dir_input
      then if get in_state v == state_low then 0 else 1
      else if get out_state v == state_low
      then 0
      else 1)

-- `_gpio_set`, whose write's status is not used.
unfoldable pub gpio_set : Adapter → ℕ → ℕ → M (Unit {0})
gpio_set p offset value = elim (gpio_io p offset) [
  | ok pin ↦ do
    _ ← attempt (
        if value == 0
        then regmap_write p.map (clr_reg pin) (put clr_out_state 1)
        else regmap_write p.map (set_reg pin) (put set_out_state 1))
    pure tt
  | err e ↦ pure tt
]

-- GPIOF_DIR_OUT and GPIOF_DIR_IN.
abbrev pub gpiof_dir_out : ℕ
gpiof_dir_out = 0

abbrev pub gpiof_dir_in : ℕ
gpiof_dir_in = 1

-- `_gpio_get_direction`.
unfoldable pub get_direction : Adapter → ℕ → M ℕ
get_direction p offset = do
  pin ← lift (gpio_io p offset)
  v ← regmap_read p.map (cfg_stat pin)
  pure (if get dir v == dir_input then gpiof_dir_in else gpiof_dir_out)

-- `_gpio_direction_input`: the register is read back, and both outcomes return 0.
unfoldable pub direction_input : Adapter → ℕ → M ℕ
direction_input p offset = do
  pin ← lift (gpio_io p offset)
  v ← regmap_read p.map (cfg_stat pin)
  regmap_write p.map (cfg_stat pin) (replace dir v dir_input)
  v' ← regmap_read p.map (cfg_stat pin)
  pure (if get dir v' == dir_input then 0 else 0)

-- The word that `_gpio_direction_output` writes over `v`.
unfoldable pub output_word : ℕ → ℕ → ℕ
output_word v value =
    let v1 = replace dir v dir_output in
    let v2 = replace out_state v1 (if value == 0 then 0 else 1) in
    let v3 = replace dis_output v2 output_enable in replace in_state v3 state_low

-- `_gpio_direction_output`.
unfoldable pub direction_output : Adapter → ℕ → ℕ → M ℕ
direction_output p offset value = do
  pin ← lift (gpio_io p offset)
  v ← regmap_read p.map (cfg_stat pin)
  regmap_write p.map (cfg_stat pin) (output_word v value)
  v' ← regmap_read p.map (cfg_stat pin)
  if get dir v' == dir_output then pure 0 else fail einval

-- The `enum pin_config_param` values that the driver tells apart.
pub data PinConfig : Type 0 where
  drive_push_pull drive_open_drain other_config : PinConfig

-- `_gpio_set_config`.
unfoldable pub set_config : Adapter → ℕ → PinConfig → M (Unit {0})
set_config p offset config = do
  pin ← lift (gpio_io p offset)
  v ← regmap_read p.map (cfg_stat pin)
  elim config [
    | PinConfig.drive_push_pull ↦
        regmap_write p.map (cfg_stat pin) (replace dis_output v output_enable)
    | PinConfig.drive_open_drain ↦
        regmap_write p.map (cfg_stat pin) (replace dis_output v output_tristate)
    | PinConfig.other_config ↦ fail enotsupp
  ]
