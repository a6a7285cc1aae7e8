-- ===== src/Reboot/UpdateLaws.antt =====
-- What an update leaves in the registers.
use mathlib.Core.Path.{subst⁻¹}
use cisco_8000_kernel_module.Common.{
  ◌==◌, if◌then◌else◌, Bool-cases, ℕ, ◌^◌, ◌<◌, bit_and, bit_or, ◌≡◌, ◌≢◌, inl, inr, ◌||◌, some,
  ◌∷◌, map, arith,
}
use cisco_8000_kernel_module.Env.Contents.{contents}
use cisco_8000_kernel_module.Env.{
  History, Done, Env, einval, Result-cases, read, write, update_bits, ok, err,
}
use cisco_8000_kernel_module.Bits.{
  testbit, testbit-bit_and, testbit-bit_or, testbit-zero, testbit-complement,
}
use cisco_8000_kernel_module.Reg.{not32}
use cisco_8000_kernel_module.Reboot.Notify.{reg_not_present, Action, regmap_update}

-- What a run of an update that ended with success has left in the registers.
abbrev pub Updates : (ℕ → ℕ) → ℕ → Action → History → Done × History → Type 0
Updates held map a h (err e, h') = Unit {0}
Updates held map a h (ok _, h') =
    ((reg : ℕ) → reg ≢ a.reg → contents held map h' reg ≡ contents held map h reg)
    × ((i : ℕ)
        → i < 32
        → testbit (contents held map h' a.reg) i ≡ (
            if a.mask == 0 || testbit a.mask i
            then testbit a.value i
            else testbit (contents held map h a.reg) i))

twice :
    (old mask value i : ℕ)
    → mask < 2 ^ 32
    → i < 32
    → (let cleared = bit_or (bit_and old (not32 mask)) (bit_and 0 mask) in
        testbit (bit_or (bit_and cleared (not32 mask)) (bit_and value mask)) i)
      ≡ (if testbit mask i then testbit value i else testbit old i)
twice old mask value i m p =
    let cleared : ℕ = bit_or (bit_and old (not32 mask)) (bit_and 0 mask) in
    ground (
      arith,
      testbit-bit_or (bit_and cleared (not32 mask)) (bit_and value mask) i,
      testbit-bit_and cleared (not32 mask) i,
      testbit-bit_and value mask i,
      testbit-bit_or (bit_and old (not32 mask)) (bit_and 0 mask) i,
      testbit-bit_and old (not32 mask) i,
      testbit-bit_and 0 mask i,
      testbit-zero i,
      testbit-complement mask 32 i m,
    )

-- If `_regmap_update` returns 0, it has stored the action's value under its mask, or the whole value if
-- the mask is 0, and has left every other register and every other bit alone.
pub regmap_update-Updates :
    (held : ℕ → ℕ) (map : ℕ) (a : Action) (env : Env) (h : History)
    → a.mask < 2 ^ 32
    → Updates held map a h (regmap_update (some map) a env h)
unfolding regmap_update
regmap_update-Updates held map a env h m = elim (Bool-cases (a.reg == reg_not_present)) [
  | inl absent ↦ let step : run ≡ (err einval, h) = ground arith in subst⁻¹ updates step tt
  | inr present ↦ elim (Result-cases (env.read_answer h map a.reg)) [
    | inr (x, e) ↦ let step : run ≡ (err x, h1) = ground arith in subst⁻¹ updates step tt
    | inl (v, e) ↦ elim (Bool-cases (a.mask == 0)) [
      | inl whole ↦ elim (Result-cases (env.write_answer h1 map a.reg a.value)) [
        | inr (x, e1) ↦
            let step : run ≡ (err x, write map a.reg a.value ∷ h1) = ground arith in
            subst⁻¹ updates step tt
        | inl (_, e1) ↦
            let step : run ≡ (ok tt, write map a.reg a.value ∷ h1) = ground arith in
            subst⁻¹ updates step ((λ reg ne. ground arith), λ i p. ground arith)
      ]
      | inr part ↦ elim (Result-cases (env.update_answer h1 map a.reg a.mask 0)) [
        | inr (x, e1) ↦ let step : run ≡ (err x, h2) = ground arith in subst⁻¹ updates step tt
        | inl (_, e1) ↦ elim (Result-cases (env.update_answer h2 map a.reg a.mask a.value)) [
          | inr (x, e2) ↦ let step : run ≡ (err x, h3) = ground arith in subst⁻¹ updates step tt
          | inl (_, e2) ↦
              let step : run ≡ (ok tt, h3) = ground arith in
              subst⁻¹ updates step (
                (λ reg ne. ground arith),
                λ i p. ground (arith, twice (contents held map h a.reg) a.mask a.value i m p),
              )
        ]
      ]
    ]
  ]
]
  where
    run : Done × History
    run = regmap_update (some map) a env h

    updates : Done × History → Type 0
    updates = Updates held map a h

    h1 : History
    h1 = read map a.reg ∷ h

    h2 : History
    h2 = update_bits map a.reg a.mask 0 ∷ h1

    h3 : History
    h3 = update_bits map a.reg a.mask a.value ∷ h2
