-- ===== src/Mfd/DuplicateLaws.antt =====
-- The cells' ids after the search for duplicates, and the driver that is found for a block.
use mathlib.Core.Path.{subst⁻¹}
use cisco_8000_kernel_module.Common.{
  ◌==◌, if◌then◌else◌, ==_iff, Bool-cases, length, ℕ, zero, suc, ◌≤◌, ◌≡◌, refl, sym, ap, ◌∙◌, ◌⊎◌,
  inl, inr, true, false, List, [], ◌∷◌, arith,
}
use cisco_8000_kernel_module.Mfd.Cells.{platform_devid_auto, Cell}
use cisco_8000_kernel_module.Mfd.Scan.{
  same_name, duplicates, automatic, mark, any_duplicate, settled, behind, separate,
}

-- Cells that the platform bus can tell apart: an id that two cells of one name share is the automatic
-- one.
abbrev pub Apart : Cell → Cell → Type 0
Apart c d = same_name c d ≡ true → c.id ≡ d.id → c.id ≡ platform_devid_auto

abbrev pub AllApart : Cell → List Cell → Type 0
AllApart c [] = Unit {0}
AllApart c (d ∷ ds) = Apart c d × AllApart c ds

abbrev pub AreApart : List Cell → Type 0
AreApart [] = Unit {0}
AreApart (c ∷ cs) = AllApart c cs × AreApart cs

-- The same cells, of which some have got the automatic id.
abbrev pub Relaxed : Cell → Cell → Type 0
Relaxed c d =
    (d.name ≡ c.name)
    × (d.start ≡ c.start)
    × (d.end ≡ c.end)
    × (d.irqs ≡ c.irqs)
    × ((d.id ≡ c.id) ⊎ (d.id ≡ platform_devid_auto))

abbrev pub AreRelaxed : List Cell → List Cell → Type 0
AreRelaxed [] [] = Unit {0}
AreRelaxed (c ∷ cs) (d ∷ ds) = Relaxed c d × AreRelaxed cs ds
AreRelaxed _ _ = ⊥

Relaxed-trans : (a b c : Cell) → Relaxed a b → Relaxed b c → Relaxed a c
Relaxed-trans a b c r s = ground arith

AreRelaxed-refl : (cs : List Cell) → AreRelaxed cs cs
AreRelaxed-refl [] = tt
AreRelaxed-refl (c ∷ cs) = ((refl, refl, refl, refl, inl refl), AreRelaxed-refl cs)

AreRelaxed-trans : (cs ds es : List Cell) → AreRelaxed cs ds → AreRelaxed ds es → AreRelaxed cs es
AreRelaxed-trans [] [] es r s = s
AreRelaxed-trans (c ∷ cs) (d ∷ ds) (e ∷ es) r s =
    (Relaxed-trans c d e r.0 s.0, AreRelaxed-trans cs ds es r.1 s.1)
AreRelaxed-trans (c ∷ cs) (d ∷ ds) [] r s = s
AreRelaxed-trans [] (d ∷ ds) es r s = elim r [ ]
AreRelaxed-trans (c ∷ cs) [] es r s = elim r [ ]

same_name-Relaxed : (c d e : Cell) → Relaxed d e → same_name c e ≡ same_name c d
same_name-Relaxed c d e r = ap (λ n. same_name c (record c { name = n })) r.0

Apart-Relaxed : (c d e : Cell) → Relaxed d e → Apart c d → Apart c e
Apart-Relaxed c d e r a n i = elim r.4 [
  | inl same ↦ a (sym (same_name-Relaxed c d e r) ∙ n) (i ∙ same)
  | inr auto ↦ i ∙ auto
]

AllApart-AreRelaxed :
    (c : Cell) (cs ds : List Cell) → AreRelaxed cs ds → AllApart c cs → AllApart c ds
AllApart-AreRelaxed c [] [] r a = tt
AllApart-AreRelaxed c (d ∷ ds) (e ∷ es) r a =
    (Apart-Relaxed c d e r.0 a.0, AllApart-AreRelaxed c ds es r.1 a.1)
AllApart-AreRelaxed c [] (e ∷ es) r a = elim r [ ]
AllApart-AreRelaxed c (d ∷ ds) [] r a = elim r [ ]

mark_one-Relaxed : (c d : Cell) → Relaxed d (if duplicates c d then automatic d else d)
mark_one-Relaxed c d = elim (Bool-cases (duplicates c d)) [
  | inl e ↦ subst⁻¹ (Relaxed d) (set_auto e) (refl, refl, refl, refl, inr refl)
  | inr e ↦ subst⁻¹ (Relaxed d) (left e) (refl, refl, refl, refl, inl refl)
]
  where
    set_auto : duplicates c d ≡ true → (if duplicates c d then automatic d else d) ≡ automatic d
    set_auto e = ground arith

    left : duplicates c d ≡ false → (if duplicates c d then automatic d else d) ≡ d
    left e = ground arith

mark-AreRelaxed : (c : Cell) (cs : List Cell) → AreRelaxed cs (mark c cs)
unfolding mark
mark-AreRelaxed c [] = tt
mark-AreRelaxed c (d ∷ ds) = (mark_one-Relaxed c d, mark-AreRelaxed c ds)

automatic-AllApart : (c : Cell) (cs : List Cell) → c.id ≡ platform_devid_auto → AllApart c cs
automatic-AllApart c [] e = tt
automatic-AllApart c (d ∷ ds) e = ((λ n i. e), automatic-AllApart c ds e)

-- Without a duplicate, the cell keeps its id.
mark-AllApart : (c : Cell) (cs : List Cell) → any_duplicate c cs ≡ false → AllApart c (mark c cs)
unfolding any_duplicate mark
mark-AllApart c [] e = tt
mark-AllApart c (d ∷ ds) e = (
  Apart-Relaxed c d (if duplicates c d then automatic d else d) (mark_one-Relaxed c d)
      (λ n i. ground (arith, ==_iff c.id d.id)),
  mark-AllApart c ds (ground arith),
)

settled_cases :
    (c : Cell) (cs : List Cell)
    → ((settled c cs ≡ automatic c) ⊎ ((settled c cs ≡ c) × (c.id ≡ platform_devid_auto)))
      ⊎ ((settled c cs ≡ c) × (behind c cs ≡ mark c cs) × (any_duplicate c cs ≡ false))
settled_cases c cs = elim (Bool-cases (c.id == platform_devid_auto)) [
  | inl e ↦ inl (inr (ground arith, (==_iff c.id platform_devid_auto).0 e))
  | inr e ↦ elim (Bool-cases (any_duplicate c cs)) [
    | inl d ↦ inl (inl (ground arith))
    | inr d ↦ inr (ground arith, ground arith, d)
  ]
]

-- Whatever id the cell gets, it is apart from those behind it.
settled-AllApart : (c : Cell) (cs : List Cell) → AllApart (settled c cs) (behind c cs)
settled-AllApart c cs = elim (settled_cases c cs) [
  | inl (inl e) ↦ automatic-AllApart (settled c cs) (behind c cs) (ap (λ t. t.id) e)
  | inl (inr (e, auto)) ↦ automatic-AllApart (settled c cs) (behind c cs) (ap (λ t. t.id) e ∙ auto)
  | inr (e, marked, unique) ↦
      subst⁻¹ (λ t. AllApart t (behind c cs)) e
        (subst⁻¹ (AllApart c) marked (mark-AllApart c cs unique))
]

settled-Relaxed : (c : Cell) (cs : List Cell) → Relaxed c (settled c cs)
settled-Relaxed c cs = elim (settled_cases c cs) [
  | inl (inl e) ↦ subst⁻¹ (Relaxed c) e (refl, refl, refl, refl, inr refl)
  | inl (inr (e, auto)) ↦ subst⁻¹ (Relaxed c) e (refl, refl, refl, refl, inl refl)
  | inr (e, marked, unique) ↦ subst⁻¹ (Relaxed c) e (refl, refl, refl, refl, inl refl)
]

behind_cases : (c : Cell) (cs : List Cell) → (behind c cs ≡ cs) ⊎ (behind c cs ≡ mark c cs)
behind_cases c cs = elim (Bool-cases (c.id == platform_devid_auto)) [
  | inl e ↦ inl (ground arith)
  | inr e ↦ inr (ground arith)
]

behind-AreRelaxed : (c : Cell) (cs : List Cell) → AreRelaxed cs (behind c cs)
behind-AreRelaxed c cs = elim (behind_cases c cs) [
  | inl e ↦ subst⁻¹ (AreRelaxed cs) e (AreRelaxed-refl cs)
  | inr e ↦ subst⁻¹ (AreRelaxed cs) e (mark-AreRelaxed c cs)
]

pub length-AreRelaxed : (cs ds : List Cell) → AreRelaxed cs ds → length ds ≡ length cs
length-AreRelaxed [] [] r = refl
length-AreRelaxed (c ∷ cs) (d ∷ ds) r = omega (arith, length-AreRelaxed cs ds r.1)
length-AreRelaxed [] (d ∷ ds) r = elim r [ ]
length-AreRelaxed (c ∷ cs) [] r = elim r [ ]

length-behind : (c : Cell) (cs : List Cell) → length (behind c cs) ≡ length cs
length-behind c cs = length-AreRelaxed cs (behind c cs) (behind-AreRelaxed c cs)

separate-AreRelaxed : (n : ℕ) (cs : List Cell) → AreRelaxed cs (separate n cs)
unfolding separate
separate-AreRelaxed zero cs = AreRelaxed-refl cs
separate-AreRelaxed (suc n) [] = tt
separate-AreRelaxed (suc n) (c ∷ cs) = (
  settled-Relaxed c cs,
  AreRelaxed-trans cs (behind c cs) (separate n (behind c cs)) (behind-AreRelaxed c cs)
      (separate-AreRelaxed n (behind c cs)),
)

separate-AreApart : (n : ℕ) (cs : List Cell) → length cs ≤ n → AreApart (separate n cs)
unfolding separate
separate-AreApart zero [] p = tt
separate-AreApart zero (c ∷ cs) p = ground arith
separate-AreApart (suc n) [] p = tt
separate-AreApart (suc n) (c ∷ cs) p = (
  AllApart-AreRelaxed (settled c cs) (behind c cs) (separate n (behind c cs))
      (separate-AreRelaxed n (behind c cs)) (settled-AllApart c cs),
  separate-AreApart n (behind c cs) (ground (arith, length-behind c cs)),
)

-- The search for duplicates changes nothing but ids, and those only to the automatic one; after it, two
-- cells of one name have different ids or the automatic id.
pub separate_lem :
    (cs : List Cell) → AreRelaxed cs (separate (length cs) cs) × AreApart (separate (length cs) cs)
separate_lem cs =
    (separate-AreRelaxed (length cs) cs, separate-AreApart (length cs) cs (omega arith))
