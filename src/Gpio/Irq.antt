-- ===== src/Gpio/Irq.antt =====
-- The interrupt callbacks of drivers/cisco/cisco-fpga-gpio-main.c and the chained handler.
use cisco_8000_kernel_module.Common.{ℕ, zero, suc, ◌+◌, bit_and, ◌==◌, if◌then◌else◌}
use cisco_8000_kernel_module.Env.{
  M, ok, err, pure, lift, ◌>>=◌, ◌>>◌, attempt, regmap_read, regmap_write, emit, handle_irq,
}
use cisco_8000_kernel_module.Reg.{get, put, replace}
use cisco_8000_kernel_module.Gpio.Regs.{
  Adapter, gpio_io, cfg_stat, clr_reg, int_type, int_msi, int_enb, int_state, clr_int_state,
  int_disable, int_enable, type_disabled, level_active_high, level_active_low, positive_edge,
  negative_edge, any_edge,
}

-- The IRQ_TYPE_… bits of the Linux headers.
abbrev pub irq_edge_rising : ℕ
irq_edge_rising = 1

abbrev pub irq_edge_falling : ℕ
irq_edge_falling = 2

abbrev pub irq_edge_both : ℕ
irq_edge_both = 3

abbrev pub irq_level_high : ℕ
irq_level_high = 4

abbrev pub irq_level_low : ℕ
irq_level_low = 8

-- The ladder of `_gpio_irq_set_type`: the INTTYPE value for a trigger type.
unfoldable pub trigger_type : ℕ → ℕ
trigger_type type =
    if bit_and type irq_level_high == 0
    then if bit_and type irq_level_low == 0
      then if bit_and type irq_edge_both == 0
        then if bit_and type irq_edge_rising == 0
          then if bit_and type irq_edge_falling == 0 then type_disabled else negative_edge
          else positive_edge
        else any_edge
      else level_active_low
    else level_active_high

-- `_gpio_irq_set_type`.
unfoldable pub irq_set_type : Adapter → ℕ → ℕ → M (Unit {0})
irq_set_type p hwirq type = do
  pin ← lift (gpio_io p hwirq)
  v ← regmap_read p.map (cfg_stat pin)
  let v1 = replace int_msi v p.irq
  regmap_write p.map (cfg_stat pin) (replace int_type v1 (trigger_type type))

-- `_gpio_irq_mask` and `_gpio_irq_unmask`: failures are dropped.
unfoldable pub irq_enable : ℕ → Adapter → ℕ → M (Unit {0})
irq_enable enable p hwirq = elim (gpio_io p hwirq) [
  | ok pin ↦ do
    _ ← attempt (do
      v ← regmap_read p.map (cfg_stat pin)
      regmap_write p.map (cfg_stat pin) (replace int_enb v enable))
    pure tt
  | err e ↦ pure tt
]

unfoldable pub irq_mask : Adapter → ℕ → M (Unit {0})
irq_mask = irq_enable int_disable

unfoldable pub irq_unmask : Adapter → ℕ → M (Unit {0})
irq_unmask = irq_enable int_enable

-- One round of `_gpio_irq_handler`: a pending pin is acknowledged, and dispatched if that succeeds.
unfoldable pub acknowledge : Adapter → ℕ → ℕ → M (Unit {0})
acknowledge p hwirq pin = do
  regmap_write p.map (clr_reg pin) (put clr_int_state 1)
  emit (handle_irq hwirq)

unfoldable pub handle_pin : Adapter → ℕ → M (Unit {0})
unfolding acknowledge
handle_pin p hwirq = elim (gpio_io p hwirq) [
  | ok pin ↦ do
    _ ← attempt (do
      v ← regmap_read p.map (cfg_stat pin)
      if get int_state v == 0 then pure tt else acknowledge p hwirq pin)
    pure tt
  | err e ↦ pure tt
]

-- The loop of `_gpio_irq_handler`, with `n` lines left from `hwirq` on.
unfoldable pub handle_from : Adapter → ℕ → ℕ → M (Unit {0})
handle_from p zero hwirq = pure tt
handle_from p (suc n) hwirq = do handle_pin p hwirq; handle_from p n (hwirq + 1)

unfoldable pub irq_handler : Adapter → M (Unit {0})
unfolding handle_from handle_pin
irq_handler p = handle_from p p.ngpio 0
