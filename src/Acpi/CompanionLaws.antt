-- ===== src/Acpi/CompanionLaws.antt =====
-- Which child becomes the companion.
use mathlib.Core.Path.{subst⁻¹}
use cisco_8000_kernel_module.Common.{
  Bool-cases, get_elem?, ℕ, zero, suc, ◌+◌, ◌<◌, ◌≡◌, refl, ap, ◌≢◌, ◌⊎◌, inl, inr, true, false,
  Option, none, some, List, [], ◌∷◌, map, arith,
}
use cisco_8000_kernel_module.Env.{History, Result, Env, enodev, read, ok, err}
use cisco_8000_kernel_module.Reg.{get}
use cisco_8000_kernel_module.Xil.Regs.{status0, fpga_id}
use cisco_8000_kernel_module.Acpi.Companion.{
  lc_xil, set_companion, for_each_child, select_companion,
}

-- The child with the number `n` is the first one at this address, or none is at it.
abbrev pub IsFirst : ℕ → List (Option ℕ) → Option ℕ → Type 0
IsFirst id children none = (j : ℕ) → get_elem? children j ≢ some (some id)
IsFirst id children (some n) =
    (get_elem? children n ≡ some (some id))
    × ((j : ℕ) → j < n → get_elem? children j ≢ some (some id))

abbrev shifted : ℕ → Option ℕ → Option ℕ
shifted i none = none
shifted i (some n) = some (i + n)

abbrev pushed : Option ℕ → Option ℕ
pushed none = none
pushed (some n) = some (suc n)

shifted-pushed : (i : ℕ) (o : Option ℕ) → shifted (suc i) o ≡ shifted i (pushed o)
shifted-pushed i none = refl
shifted-pushed i (some n) = ap some (omega arith)

set_companion-at : (id : ℕ) (child : Option ℕ) → set_companion id child ≡ true → child ≡ some id
unfolding set_companion
set_companion-at id none e = ground arith
set_companion-at id (some adr) e = ground arith

set_companion-ne : (id : ℕ) (child : Option ℕ) → set_companion id child ≡ false → child ≢ some id
unfolding set_companion
set_companion-ne id child e at = ground arith

found_at :
    (id : ℕ) (child : Option ℕ) (children : List (Option ℕ)) (j : ℕ)
    → get_elem? (child ∷ children) j ≡ some (some id)
    → (child ≡ some id) ⊎ ((k : ℕ) × (j ≡ suc k) × (get_elem? children k ≡ some (some id)))
found_at id child children zero e = inl (ground arith)
found_at id child children (suc k) e = inr (k, refl, e)

after_other :
    (id : ℕ) (child : Option ℕ) (children : List (Option ℕ)) (o : Option ℕ)
    → child ≢ some id
    → IsFirst id children o
    → IsFirst id (child ∷ children) (pushed o)
after_other id child children none ne first =
    λ j e. elim (found_at id child children j e) [ inl at ↦ ne at | inr (k, s, f) ↦ first k f ]
after_other id child children (some n) ne (at, first) = (
  at,
  λ j p e. elim (found_at id child children j e) [
    | inl at ↦ ne at
    | inr (k, s, f) ↦ first k (omega arith) f
  ],
)

for_each_child-IsFirst :
    (id i : ℕ) (children : List (Option ℕ))
    → (o : Option ℕ) × (for_each_child id i children ≡ shifted i o) × IsFirst id children o
unfolding for_each_child
for_each_child-IsFirst id i [] = (none, refl, λ j e. ground arith)
for_each_child-IsFirst id i (child ∷ children) = elim (Bool-cases (set_companion id child)) [
  | inl at ↦ (some 0, ground arith, (ap some (set_companion-at id child at), λ j p. ground arith))
  | inr other ↦
      let (o, e, first) = for_each_child-IsFirst id (suc i) children in
      (
        pushed o,
        ground (arith, e, shifted-pushed i o),
        after_other id child children o (set_companion-ne id child other) first,
      )
]

-- What the selection comes to: the first child at the address `id` is chosen, or there is none and the
-- status is -ENODEV.
abbrev pub Selects : ℕ → List (Option ℕ) → Result ℕ → Type 0
Selects id children (ok n) = IsFirst id children (some n)
Selects id children (err e) = (e ≡ enodev) × IsFirst id children none

-- `cisco_fpga_select_new_acpi_companion`, where the status register can be read: it chooses the first
-- child whose address is the FPGA's id, and returns -ENODEV exactly if no child has that address; it
-- makes no request but the read. A child whose address cannot be evaluated is passed over.
pub select_companion-Selects :
    (map word : ℕ) (children : List (Option ℕ)) (env : Env) (h : History)
    → env.read_answer h map (lc_xil status0) ≡ ok word
    → (let run = select_companion true (some map) (some children) env h in
        Selects (get fpga_id word) children run.0 × (run.1 ≡ read map (lc_xil status0) ∷ h))
unfolding select_companion
select_companion-Selects map word children env h e =
    chosen (for_each_child-IsFirst (get fpga_id word) 0 children)
  where
    id : ℕ
    id = get fpga_id word

    run : Result ℕ × History
    run = select_companion true (some map) (some children) env h

    chosen :
        ((o : Option ℕ) × (for_each_child id 0 children ≡ shifted 0 o) × IsFirst id children o)
        → Selects id children run.0 × (run.1 ≡ read map (lc_xil status0) ∷ h)
    chosen (none, f, first) =
        let step : run ≡ (err enodev, read map (lc_xil status0) ∷ h) = ground arith in
        subst⁻¹ (λ r. Selects id children r.0 × (r.1 ≡ read map (lc_xil status0) ∷ h)) step
          ((refl, first), refl)
    chosen (some n, f, first) =
        let step : run ≡ (ok n, read map (lc_xil status0) ∷ h) = ground arith in
        subst⁻¹ (λ r. Selects id children r.0 × (r.1 ≡ read map (lc_xil status0) ∷ h)) step
          (first, refl)
