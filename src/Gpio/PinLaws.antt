-- ===== src/Gpio/PinLaws.antt =====
-- What the value and direction callbacks of the GPIO driver do to a pin's register.
use cisco_8000_kernel_module.Common.{ℕ, ◌≡◌, ◌∙◌, ◌==◌, ◌∷◌, arith, if◌then◌else◌, inl, inr, ◌⊎◌}
use cisco_8000_kernel_module.Env.{Env, History, read, write, ok, err, einval, Result-cases}
use cisco_8000_kernel_module.Reg.{
  Field, IsField, Disjoint, fit, get, replace, get-replace, get-replace_ne,
}
use cisco_8000_kernel_module.Gpio.Regs.{
  Adapter, gpio_io, cfg_stat, dir, dis_output, out_state, in_state, dir_output, output_enable,
  state_low,
}
use cisco_8000_kernel_module.Gpio.Pins.{direction_output, output_word}

-- The fields that `_gpio_direction_output` sets, and that every other field is as it was read.
pub record IsDriven (v value w : ℕ) : Type 0 where
  pub is_output : get dir w ≡ dir_output
  pub drives : get out_state w ≡ (if value == 0 then 0 else 1)
  pub enabled : get dis_output w ≡ output_enable
  pub cleared : get in_state w ≡ state_low
  pub frame :
      (f : Field)
      → IsField f
      → Disjoint dir f
      → Disjoint out_state f
      → Disjoint dis_output f
      → Disjoint in_state f
      → get f w ≡ get f v

module _ (v value : ℕ) where
  abbrev v1 : ℕ
  v1 = replace dir v dir_output

  abbrev drive : ℕ
  drive = if value == 0 then 0 else 1

  abbrev v2 : ℕ
  v2 = replace out_state v1 drive

  abbrev v3 : ℕ
  v3 = replace dis_output v2 output_enable

  fit-drive : fit out_state drive ≡ drive
  fit-drive = ground arith

  output_word-IsDriven : IsDriven v value (output_word v value)
  unfolding output_word
  output_word-IsDriven = record {
    is_output =
        get-replace_ne in_state dir v3 state_low (omega arith) (omega arith) (inl (omega arith))
        ∙ get-replace_ne dis_output dir v2 output_enable (omega arith) (omega arith)
            (inl (omega arith))
        ∙ get-replace_ne out_state dir v1 drive (omega arith) (omega arith) (inl (omega arith))
        ∙ get-replace dir v dir_output (omega arith);
    drives =
        get-replace_ne in_state out_state v3 state_low (omega arith) (omega arith)
          (inl (omega arith))
        ∙ get-replace_ne dis_output out_state v2 output_enable (omega arith) (omega arith)
            (inr (omega arith))
        ∙ get-replace out_state v1 drive (omega arith)
        ∙ fit-drive;
    enabled =
        get-replace_ne in_state dis_output v3 state_low (omega arith) (omega arith)
          (inl (omega arith))
        ∙ get-replace dis_output v2 output_enable (omega arith);
    cleared = get-replace in_state v3 state_low (omega arith);
    frame = λ f hf d1 d2 d3 d4.
        get-replace_ne in_state f v3 state_low (omega arith) hf d4
        ∙ get-replace_ne dis_output f v2 output_enable (omega arith) hf d3
        ∙ get-replace_ne out_state f v1 drive (omega arith) hf d2
        ∙ get-replace_ne dir f v dir_output (omega arith) hf d1;
  }

-- `_gpio_direction_output` on a line with a pin, once the register has been read as `v`: it writes
-- one word, which is driven. If the write fails the status is returned and nothing more is done.
-- Otherwise the register is read back, and 0 is returned exactly if that read succeeds and shows
-- an output; a pin that stays an input gives -EINVAL.
pub direction_output_lem :
    (p : Adapter) (offset value pin v : ℕ) (env : Env) (h : History)
    → gpio_io p offset ≡ ok pin
    → env.read_answer h p.map (cfg_stat pin) ≡ ok v
    → (w : ℕ) × IsDriven v value w
      × let c = cfg_stat pin in
        let h1 = read p.map c ∷ h in
        let h2 = write p.map c w ∷ h1 in
        let h3 = read p.map c ∷ h2 in
        ((e : ℕ) × (env.write_answer h1 p.map c w ≡ err e)
          × (direction_output p offset value env h ≡ (err e, h2)))
        ⊎ ((e : ℕ) × (env.read_answer h2 p.map c ≡ err e)
            × (direction_output p offset value env h ≡ (err e, h3)))
        ⊎ ((v' : ℕ) × (env.read_answer h2 p.map c ≡ ok v')
            × (direction_output p offset value env h
                ≡ (if get dir v' == dir_output then ok 0 else err einval, h3)))
unfolding direction_output
direction_output_lem p offset value pin v env h e r =
    let c : ℕ = cfg_stat pin in
    let w : ℕ = output_word v value in
    let h1 : History = read p.map c ∷ h in
    let h2 : History = write p.map c w ∷ h1 in
    (
      w,
      output_word-IsDriven v value,
      elim (Result-cases (env.write_answer h1 p.map c w)) [
        | inr (x, bad) ↦ inl (x, bad, ground arith)
        | inl (u, good) ↦ inr (elim (Result-cases (env.read_answer h2 p.map c)) [
          | inr (x, bad) ↦ inl (x, bad, ground arith)
          | inl (v', back) ↦ inr (v', back, ground arith)
        ])
      ],
    )
