-- ===== src/Gpio/IrqLaws.antt =====
-- The trigger types that the GPIO driver programs, and which lines its handler dispatches.
use cisco_8000_kernel_module.Common.{
  ℕ, zero, suc, ◌+◌, ◌%◌, bit_and, ◌≡◌, ◌≢◌, refl, Bool, true, false, ◌==◌, List, [], ◌∷◌, ◌++◌,
  arith, if◌then◌else◌, inl, inr,
}
use native.Mathlib.Decide.{ℕ_discrete}
use mathlib.Core.List.{append_assoc}
use cisco_8000_kernel_module.Bits.{
  testbit, testbit-bit_and, testbit-zero, eq_of_testbit, bit_and_mask,
}
use cisco_8000_kernel_module.Env.{
  Env, History, read, handle_irq, Result, ok, err, Done, Result-cases,
}
use cisco_8000_kernel_module.Reg.{get, put}
use cisco_8000_kernel_module.Gpio.Regs.{
  Adapter, gpio_io, cfg_stat, clr_reg, int_state, clr_int_state, positive_edge, negative_edge,
}
use cisco_8000_kernel_module.Gpio.Irq.{
  trigger_type, handle_pin, acknowledge, handle_from, irq_handler,
}

bit_and_one : (t : ℕ) → bit_and t 1 ≡ t % 2
bit_and_one t = bit_and_mask t 1

bit_and_three : (t : ℕ) → bit_and t 3 ≡ t % 4
bit_and_three t = bit_and_mask t 2

bit_and_two_zero : (t : ℕ) → t % 4 ≡ 0 → bit_and t 2 ≡ 0
unfolding testbit
bit_and_two_zero t h = eq_of_testbit _ _ same
  where
    same : (i : ℕ) → testbit (bit_and t 2) i ≡ testbit 0 i
    same zero = ground (arith, testbit-bit_and t 2 0)
    same (suc zero) = ground (arith, testbit-bit_and t 2 1)
    same (suc (suc i)) = ground (arith, testbit-bit_and t 2 (suc (suc i)), testbit-zero i)

-- No trigger type makes `_gpio_irq_set_type` program the positive or the negative edge: the test for
-- both edges stands first and passes for either one.
pub trigger_type-ne_single_edge :
    (t : ℕ) → (trigger_type t ≢ positive_edge) × (trigger_type t ≢ negative_edge)
unfolding trigger_type
trigger_type-ne_single_edge t = elim (ℕ_discrete (t % 4) 0) [
  | yes e ↦ ground (arith, bit_and_one t, bit_and_two_zero t e)
  | no ne ↦ ground (arith, bit_and_three t)
]

-- The lines that a handler has dispatched, the latest first.
abbrev pub dispatched : History → List ℕ
dispatched [] = []
dispatched (handle_irq n ∷ h) = n ∷ dispatched h
dispatched (_ ∷ h) = dispatched h

-- Registers and acknowledgements that answer alike throughout one run of the handler.
pub record Snapshot (env : Env) (regs : ℕ → Result ℕ) (acks : ℕ → Done) : Type 0 where
  pub reads : (h : History) (map reg : ℕ) → env.read_answer h map reg ≡ regs reg
  pub writes : (h : History) (map reg v : ℕ) → env.write_answer h map reg v ≡ acks reg

module _ (p : Adapter) (regs : ℕ → Result ℕ) (acks : ℕ → Done) where
  -- A line is due if it has a pin, its register can be read and shows a pending interrupt, and the
  -- pin's acknowledgement is accepted.
  abbrev pub is_due : ℕ → Bool
  is_due hwirq = elim (gpio_io p hwirq) [
    | ok pin ↦ elim (regs (cfg_stat pin)) [
      | ok v ↦
          if get int_state v == 0
          then false
          else elim (acks (clr_reg pin)) [ ok _ ↦ true | err _ ↦ false ]
      | err _ ↦ false
    ]
    | err _ ↦ false
  ]

  abbrev pub due_from : ℕ → ℕ → List ℕ
  due_from zero hwirq = []
  due_from (suc n) hwirq =
      let rest = due_from n (hwirq + 1) in if is_due hwirq then rest ++ hwirq ∷ [] else rest

  dispatched-handle_pin :
      (env : Env) (h : History) (hwirq : ℕ)
      → Snapshot env regs acks
      → (dispatched (handle_pin p hwirq env h).1
          ≡ (if is_due hwirq then hwirq ∷ dispatched h else dispatched h))
        × ((handle_pin p hwirq env h).0 ≡ ok tt)
  unfolding handle_pin acknowledge
  dispatched-handle_pin env h hwirq s = elim (Result-cases (gpio_io p hwirq)) [
    | inl (pin, e) ↦ ground (
      arith,
      s.reads h p.map (cfg_stat pin),
      s.writes (read p.map (cfg_stat pin) ∷ h) p.map (clr_reg pin) (put clr_int_state 1),
    )
    | inr (x, e) ↦ ground arith
  ]

  dispatched-handle_from :
      (env : Env) (h : History) (n hwirq : ℕ)
      → Snapshot env regs acks
      → dispatched (handle_from p n hwirq env h).1 ≡ due_from n hwirq ++ dispatched h
  unfolding handle_from
  dispatched-handle_from env h zero hwirq s = refl
  dispatched-handle_from env h (suc n) hwirq s = ground (
    arith,
    dispatched-handle_pin env h hwirq s,
    dispatched-handle_from env (handle_pin p hwirq env h).1 n (hwirq + 1) s,
    append_assoc (due_from n (hwirq + 1)) (hwirq ∷ []) (dispatched h),
  )

  -- While registers and acknowledgements answer alike, one run of `_gpio_irq_handler` dispatches
  -- each due line once, in ascending order, and no other line. A line whose register cannot be
  -- read or whose acknowledgement fails is passed over, and the lines after it are still served.
  pub dispatched-irq_handler :
      (env : Env) (h : History)
      → Snapshot env regs acks
      → dispatched (irq_handler p env h).1 ≡ due_from p.ngpio 0 ++ dispatched h
  unfolding irq_handler
  dispatched-irq_handler env h s = dispatched-handle_from env h p.ngpio 0 s
