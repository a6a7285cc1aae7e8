-- ===== src/Tests/Lines.antt =====
-- The GPIO driver on a controller with three lines.
use cisco_8000_kernel_module.Common.{◌==◌, if◌then◌else◌, ℕ, ◌≡◌, refl, ◌⊎◌, [], ◌∷◌, ◌++◌}
use cisco_8000_kernel_module.Env.{einval, read, write, ok, err}
use cisco_8000_kernel_module.Reg.{get}
use cisco_8000_kernel_module.Gpio.Regs.{cfg_stat, dir, dir_output, any_edge, Adapter, gpio_io}
use cisco_8000_kernel_module.Gpio.Pins.{direction_output}
use cisco_8000_kernel_module.Gpio.Irq.{irq_edge_rising, trigger_type, irq_handler}
use cisco_8000_kernel_module.Gpio.PinLaws.{IsDriven, direction_output_lem}
use cisco_8000_kernel_module.Gpio.IrqLaws.{dispatched, due_from, dispatched-irq_handler}
use cisco_8000_kernel_module.Tests.Machines.{steady}

-- The third line has no pin.
abbrev board : Adapter
board = record { map = 0; irq = 3; ngpio = 3; off = 7 ∷ 4 ∷ 1022 ∷ [] }

pin_of_first : gpio_io board 0 ≡ ok 7
unfolding gpio_io
pin_of_first = refl

direction_output_example :
    (w : ℕ) × IsDriven 0x21 1 w
    × let c = cfg_stat 7 in
      let h1 = read 0 c ∷ [] in
      let h2 = write 0 c w ∷ h1 in
      let h3 = read 0 c ∷ h2 in
      ((e : ℕ) × ((steady 0x21).write_answer h1 0 c w ≡ err e)
        × (direction_output board 0 1 (steady 0x21) [] ≡ (err e, h2)))
      ⊎ ((e : ℕ) × ((steady 0x21).read_answer h2 0 c ≡ err e)
          × (direction_output board 0 1 (steady 0x21) [] ≡ (err e, h3)))
      ⊎ ((v' : ℕ) × ((steady 0x21).read_answer h2 0 c ≡ ok v')
          × (direction_output board 0 1 (steady 0x21) []
              ≡ (if get dir v' == dir_output then ok 0 else err einval, h3)))
direction_output_example = direction_output_lem board 0 1 7 0x21 (steady 0x21) [] pin_of_first refl

rising_is_any_edge : trigger_type irq_edge_rising ≡ any_edge
unfolding trigger_type
rising_is_any_edge = refl

irq_handler_example :
    dispatched (irq_handler board (steady 2) []).1
    ≡ due_from board (λ _. ok 2) (λ _. ok tt) 3 0 ++ []
irq_handler_example =
    dispatched-irq_handler board (λ _. ok 2) (λ _. ok tt) (steady 2) []
      (record { reads = λ h map reg. refl; writes = λ h map reg v. refl })

irq_handler_runs : dispatched (irq_handler board (steady 2) []).1 ≡ 1 ∷ 0 ∷ []
unfolding irq_handler gpio_io get
irq_handler_runs = refl
