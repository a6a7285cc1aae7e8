-- ===== src/Mfd/CellLaws.antt =====
-- The driver that is found for a block, and the state of a scan that succeeds.
use mathlib.Core.Path.{subst, subst⁻¹}
use cisco_8000_kernel_module.Common.{
  leb, ◌==◌, ==_iff, Bool-cases, Option-cases, length, set, ℕ, zero, suc, ◌-◌, ◌^◌, ◌≤◌, ◌<◌, ◌≡◌,
  refl, ◌⊎◌, inl, inr, Bool, true, false, ◌&&◌, ◌||◌, Option, none, some, List, [], ◌∷◌, arith,
}
use cisco_8000_kernel_module.Env.{History, Result, Env, ok, err}
use cisco_8000_kernel_module.Mfd.Blocks.{
  Blk, cisco_fpga_blks, passes, Search, find_id, find_filter, blk_match, found, ended,
}
use cisco_8000_kernel_module.Mfd.Cells.{
  Cell, Meta, lowest, add_irqs, configure, last_of, cell_of, append, bug, fwnode_config,
}

-- What the first loop gives: an entry of this id that passes the filter.
abbrev pub IsFor : ℕ → ℕ → Search → Type 0
IsFor id filter (found b) = (b.id ≡ id) × (passes b filter ≡ true)
IsFor id filter (ended bs) = Unit {0}

find_id-IsFor : (id filter : ℕ) (bs : List Blk) → IsFor id filter (find_id id filter bs)
unfolding find_id
find_id-IsFor id filter [] = tt
find_id-IsFor id filter (b ∷ bs) = elim (Bool-cases (b.id == 0)) [
  | inl e ↦
      let step : find_id id filter (b ∷ bs) ≡ ended (b ∷ bs) = ground arith in
      subst⁻¹ (IsFor id filter) step tt
  | inr e ↦ elim (Bool-cases (b.id == id && passes b filter)) [
    | inl e' ↦
        let step : find_id id filter (b ∷ bs) ≡ found b = ground arith in
        subst⁻¹ (IsFor id filter) step (ground (arith, ==_iff b.id id), ground arith)
    | inr e' ↦
        let step : find_id id filter (b ∷ bs) ≡ find_id id filter bs = ground arith in
        subst⁻¹ (IsFor id filter) step (find_id-IsFor id filter bs)
  ]
]

find_filter_lem :
    (filter : ℕ) (bs : List Blk)
    → (passes (find_filter filter bs) filter ≡ true) ⊎ ((find_filter filter bs).filter ≡ 0)
unfolding find_filter
find_filter_lem filter [] = inr refl
find_filter_lem filter (b ∷ bs) = elim (Bool-cases (b.filter == 0 || passes b filter)) [
  | inr e ↦
      let step : find_filter filter (b ∷ bs) ≡ find_filter filter bs = ground arith in
      subst⁻¹ (λ t. (passes t filter ≡ true) ⊎ (t.filter ≡ 0)) step (find_filter_lem filter bs)
  | inl e ↦
      let step : find_filter filter (b ∷ bs) ≡ b = ground arith in
      subst⁻¹ (λ t. (passes t filter ≡ true) ⊎ (t.filter ≡ 0)) step
        (elim (Bool-cases (passes b filter)) [
          | inl y ↦ inl y
          | inr n ↦ inr (ground (arith, ==_iff b.filter 0))
        ])
]

-- The entry that `cisco_fpga_blk_match` returns has the id asked for, and passes the filter or is the
-- table's last entry, which has no filter.
pub blk_match_lem :
    (id filter : ℕ)
    → ((blk_match id filter).id ≡ id)
      × ((passes (blk_match id filter) filter ≡ true) ⊎ ((blk_match id filter).filter ≡ 0))
unfolding blk_match
blk_match_lem id filter =
    from (find_id id filter cisco_fpga_blks) (find_id-IsFor id filter cisco_fpga_blks)
  where
    result : Search → Blk
    result s = elim s [ found b ↦ b | ended bs ↦ record (find_filter filter bs) { id = id } ]

    from :
        (s : Search)
        → IsFor id filter s
        → ((result s).id ≡ id) × ((passes (result s) filter ≡ true) ⊎ ((result s).filter ≡ 0))
    from (found b) e = (e.0, inl e.1)
    from (ended bs) e = (refl, find_filter_lem filter bs)

-- Interrupts below the number that the FPGA has.
abbrev pub AllBelow : ℕ → List ℕ → Type 0
AllBelow n [] = Unit {0}
AllBelow n (i ∷ is) = (i < n) × AllBelow n is

abbrev pub IrqsBelow : ℕ → List Cell → Type 0
IrqsBelow n [] = Unit {0}
IrqsBelow n (c ∷ cs) = AllBelow n c.irqs × IrqsBelow n cs

add_irqs-AllBelow : (n max_irqs set : ℕ) → AllBelow max_irqs (add_irqs n max_irqs set)
unfolding add_irqs
add_irqs-AllBelow zero max_irqs set = tt
add_irqs-AllBelow (suc n) max_irqs set = elim (Option-cases (lowest 8 set)) [
  | inl e ↦
      let step : add_irqs (suc n) max_irqs set ≡ [] = ground arith in
      subst⁻¹ (AllBelow max_irqs) step tt
  | inr (i, e) ↦ elim (Bool-cases (leb max_irqs i)) [
    | inl high ↦
        let step : add_irqs (suc n) max_irqs set ≡ [] = ground arith in
        subst⁻¹ (AllBelow max_irqs) step tt
    | inr low ↦
        let step : add_irqs (suc n) max_irqs set ≡ i ∷ add_irqs n max_irqs (set - 2 ^ i) =
          ground arith in
        subst⁻¹ (AllBelow max_irqs) step (ground arith, add_irqs-AllBelow n max_irqs (set - 2 ^ i))
  ]
]

-- The invariant of the scan: no more cells than there is room for, and the interrupts of each are in
-- range.
pub record IsSound (meta : Meta) : Type 0 where
  pub room : length meta.cells ≤ meta.max_cells
  pub irqs : IrqsBelow meta.max_irqs meta.cells
  pub limit : meta.max_cells < 256

-- A run that gives states of the invariant.
abbrev pub Sound : Result Meta × History → Type 0
Sound (ok m, h) = IsSound m
Sound (err e, h) = Unit {0}

abbrev pub SoundPair : Result (Bool × Meta) × History → Type 0
SoundPair (ok (ignored, m), h) = IsSound m
SoundPair (err e, h) = Unit {0}

abbrev pub SoundOption : Result (Option Meta) × History → Type 0
SoundOption (ok (some m), h) = IsSound m
SoundOption (ok none, h) = Unit {0}
SoundOption (err e, h) = Unit {0}

append-length : (cs : List Cell) (c : Cell) → length (append cs c) ≡ suc (length cs)
append-length [] c = refl
append-length (d ∷ ds) c = omega (arith, append-length ds c)

append-IrqsBelow :
    (n : ℕ) (cs : List Cell) (c : Cell)
    → IrqsBelow n cs
    → AllBelow n c.irqs
    → IrqsBelow n (append cs c)
append-IrqsBelow n [] c s a = (a, tt)
append-IrqsBelow n (d ∷ ds) c s a = (s.0, append-IrqsBelow n ds c s.1 a)

cell_of-AllBelow :
    (meta : Meta) (b : Blk) (absoff nxtoff blk_id : ℕ) (c : Cell)
    → cell_of meta b absoff nxtoff blk_id ≡ some c
    → AllBelow meta.max_irqs c.irqs
unfolding cell_of
cell_of-AllBelow meta b absoff nxtoff blk_id c e =
    elim (Option-cases (configure b absoff blk_id meta.children)) [
      | inl n ↦ ground arith
      | inr (p, s) ↦
          let same : add_irqs b.num_irqs meta.max_irqs b.irq_set ≡ c.irqs = ground arith in
          subst (AllBelow meta.max_irqs) same (add_irqs-AllBelow b.num_irqs meta.max_irqs b.irq_set)
    ]

pub fwnode_config-SoundPair :
    (meta : Meta) (b : Blk) (absoff nxtoff blk_id : ℕ) (env : Env) (h : History)
    → IsSound meta
    → SoundPair (fwnode_config meta b absoff nxtoff blk_id env h)
unfolding fwnode_config
fwnode_config-SoundPair meta b absoff nxtoff blk_id env h s =
    elim (Bool-cases (leb meta.max_cells (length meta.cells))) [
      | inl full ↦ let step : run ≡ (ok (true, meta), h) = ground arith in subst⁻¹ SoundPair step s
      | inr room ↦ elim (Bool-cases (b.id == 38)) [
        | inl irq ↦ elim (Option-cases meta.intr) [
          | inr (i, e) ↦ let step : run ≡ (err bug, h) = ground arith in subst⁻¹ SoundPair step tt
          | inl e ↦
              let step : run
                  ≡ (ok (false, record meta { intr = some (absoff, last_of nxtoff) }), h) =
                ground arith in
              subst⁻¹ SoundPair step (record { room = s.room; irqs = s.irqs; limit = s.limit })
        ]
        | inr other ↦ elim (Option-cases (cell_of meta b absoff nxtoff blk_id)) [
          | inl e ↦ let step : run ≡ (ok (true, meta), h) = ground arith in subst⁻¹ SoundPair step s
          | inr (c, e) ↦
              let step : run ≡ (ok (false, record meta { cells = append meta.cells c }), h) =
                ground arith in
              subst⁻¹ SoundPair step (record {
                room = ground (arith, append-length meta.cells c, s.room);
                irqs =
                    append-IrqsBelow meta.max_irqs meta.cells c s.irqs
                      (cell_of-AllBelow meta b absoff nxtoff blk_id c e);
                limit = s.limit;
              })
        ]
      ]
    ]
  where
    run : Result (Bool × Meta) × History
    run = fwnode_config meta b absoff nxtoff blk_id env h
