-- ===== src/Gpio/InitLaws.antt =====
-- The set-up of the lines: the table of pins, the table of lines, and what is written meanwhile.
use mathlib.Core.Path.{subst⁻¹}
use mathlib.Core.List.{Memᴰ}
use cisco_8000_kernel_module.Common.{
  ltb, ◌==◌, if◌then◌else◌, Option-cases, length, drop, All, All-append, All-Mem, All-of, ℕ, zero,
  suc, ◌+◌, ◌^◌, ◌≤◌, ◌<◌, ◌≡◌, refl, ap, ◌⊎◌, inl, inr, List, [], ◌∷◌, map, arith,
}
use cisco_8000_kernel_module.Env.{
  Result, Env, M, pure, lift, ◌>>=◌, ◌>>◌, attempt, regmap_read, regmap_write, enoent, einval,
  ReadsWords, Result-cases, ok, err,
}
use cisco_8000_kernel_module.Env.Rules.{Post, Post-map, Post-err, Gives, Gives-bind, Gives-any}
use cisco_8000_kernel_module.Text.{index_of}
use cisco_8000_kernel_module.Reg.{get, get_lem}
use cisco_8000_kernel_module.Gpio.Regs.{cfg_stat, mem0, mem_is_group, max_gpios}
use cisco_8000_kernel_module.Gpio.Scan.{
  Element, k_cmp, negative, Found, entry_at, scan_word, scan_from, scan_pins, PinSearch, Searches,
}
use cisco_8000_kernel_module.Gpio.Descriptor.{
  comma, Numbers, Scanner, advance, seen_or, descriptor_word, cold_reboot, apply_descriptor,
  parse_descriptor, entry_of, fill_entries,
}

-- An element of the table stands at an entry of the hardware, and its word is not that of a group.
abbrev pub IsPin : Element → Type 0
IsPin e = (e.offset < max_gpios) × (e.pin_id < 2 ^ 31)

abbrev HavePins : Found → Type 0
HavePins f = All IsPin f.table

not_group : (v : ℕ) → v < 2 ^ 32 → get mem_is_group v ≡ 0 → v < 2 ^ 31
not_group v p h = omega (arith, h, get_lem mem_is_group v (omega arith))

entry_at-HavePins :
    (f : Found) (e v : ℕ)
    → HavePins f
    → e < max_gpios
    → v < 2 ^ 32
    → get mem_is_group v ≡ 0
    → HavePins (entry_at f e v)
entry_at-HavePins f e v a p q g =
    All-append IsPin f.table (record { group_id = f.group; pin_id = v; offset = e } ∷ []) a
      ((p, not_group v q g), tt)

-- A round leaves the table or appends the entry.
scan_word-table :
    (e v : ℕ) (f : Found)
    → ((scan_word e v f).table ≡ f.table)
      ⊎ ((get mem_is_group v ≡ 0) × ((scan_word e v f).table ≡ (entry_at f e v).table))
unfolding scan_word
scan_word-table e v f = ground arith

scan_word-HavePins :
    (e v : ℕ) (f : Found) → HavePins f → e < max_gpios → v < 2 ^ 32 → HavePins (scan_word e v f)
scan_word-HavePins e v f a p q = elim (scan_word-table e v f) [
  | inl same ↦ subst⁻¹ (All IsPin) same a
  | inr (g, more) ↦ subst⁻¹ (All IsPin) more (entry_at-HavePins f e v a p q g)
]

regmap_read-Gives :
    (env : Env) (map reg : ℕ) → ReadsWords env → Gives env (λ v. v < 2 ^ 32) (regmap_read map reg)
regmap_read-Gives env map reg w h = elim (Result-cases (env.read_answer h map reg)) [
  | inl (v, e) ↦ subst⁻¹ (Post (λ v. v < 2 ^ 32)) e (w h map reg v e)
  | inr (x, e) ↦ subst⁻¹ (Post (λ v. v < 2 ^ 32)) e tt
]

scan_from-HavePins :
    (env : Env) (map left e : ℕ) (f : Found)
    → ReadsWords env
    → HavePins f
    → e + left ≡ max_gpios
    → Gives env HavePins (scan_from map left e f)
unfolding scan_from
scan_from-HavePins env map zero e f w a n h = a
scan_from-HavePins env map (suc left) e f w a n h =
    Gives-bind env (λ v. v < 2 ^ 32) HavePins (regmap_read map (mem0 e))
      (λ v. scan_from map left (suc e) (scan_word e v f)) (regmap_read-Gives env map (mem0 e) w)
      (λ v p.
        scan_from-HavePins env map left (suc e) (scan_word e v f) w
          (scan_word-HavePins e v f a (omega arith) p) (omega arith))
      h

pub scan_pins-IsPin : (env : Env) (map : ℕ) → ReadsWords env → Gives env (All IsPin) (scan_pins map)
unfolding scan_pins
scan_pins-IsPin env map w =
    Gives-bind env HavePins (All IsPin)
      (scan_from map max_gpios 0 (record { group = 0; pins = 0; table = [] })) (λ f. pure f.table)
      (scan_from-HavePins env map max_gpios 0 (record { group = 0; pins = 0; table = [] }) w tt
        (omega arith))
      (λ f a h. a)

k_cmp_lem :
    (a b : ℕ)
    → a < 2 ^ 31
    → b < 2 ^ 31
    → (negative (k_cmp a b) ≡ ltb a b) × ((k_cmp a b == 0) ≡ (a == b))
unfolding k_cmp
k_cmp_lem a b p q = (ground arith, ground arith)

-- Where `_k_cmp` orders a table by the numbers of the pins.
abbrev pub IsOrdered : List Element → Type 0
IsOrdered t =
    (a b : Element)
    → Memᴰ a t
    → Memᴰ b t
    → (negative (k_cmp a.pin_id b.pin_id) ≡ ltb a.pin_id b.pin_id)
      × ((k_cmp a.pin_id b.pin_id == 0) ≡ (a.pin_id == b.pin_id))

-- On the table that the scan makes, `_k_cmp` is the order of the pins' numbers, although it subtracts
-- without regard to the sign: the words of pins are below 2 ^ 31, whatever the registers hold.
pub scan_pins-IsOrdered :
    (env : Env) (map : ℕ) → ReadsWords env → Gives env IsOrdered (scan_pins map)
scan_pins-IsOrdered env map w h =
    Post-map (All IsPin) IsOrdered (scan_pins map env h).0
      (λ t a x y i j.
        k_cmp_lem x.pin_id y.pin_id (All-Mem IsPin x t a i).1 (All-Mem IsPin y t a j).1)
      (scan_pins-IsPin env map w h)

-- The range of a line's entry of `off`: an offset below the mark of a line without a pin, or the mark.
abbrev pub IsEntry : ℕ → Type 0
IsEntry i = i ≤ max_gpios

apply_descriptor-Gives :
    (env : Env) (k : Scanner) (map reboot : ℕ) (e : Element) (n : Numbers) (d : List ℕ)
    → e.offset < max_gpios
    → Gives env (λ i. i < max_gpios) (apply_descriptor k map reboot e n d)
unfolding apply_descriptor
apply_descriptor-Gives env k map reboot e n d p =
    Gives-bind env (λ v. Unit {0}) (λ i. i < max_gpios) (regmap_read map (cfg_stat e.offset))
      (λ v. lift (word v) >>= λ w. (store_word w >> pure e.offset))
      (Gives-any env (regmap_read map (cfg_stat e.offset)))
      (λ v _.
        Gives-bind env (λ w. Unit {0}) (λ i. i < max_gpios) (lift (word v))
          (λ w. store_word w >> pure e.offset) (Gives-any env (lift (word v)))
          (λ w _.
            Gives-bind env (λ u. Unit {0}) (λ i. i < max_gpios) (store_word w) (λ u. pure e.offset)
              (Gives-any env (store_word w)) (λ u _ h. p)))
  where
    seen : ℕ
    seen = seen_or n.seen k.unset

    word : ℕ → Result ℕ
    word v = descriptor_word k seen (advance k seen d) v

    store_word : ℕ → M (Unit {0})
    store_word w = if reboot == cold_reboot then regmap_write map (cfg_stat e.offset) w else pure tt

parse_descriptor-Gives :
    (env : Env) (k : Scanner) (s : PinSearch) (map reboot : ℕ) (t : List Element) (d : List ℕ)
    → Searches s
    → All IsPin t
    → Gives env (λ i. i < max_gpios) (parse_descriptor k s map reboot t d)
unfolding parse_descriptor
parse_descriptor-Gives env k s map reboot t d ss a h = elim (Option-cases (index_of comma d)) [
  | inl e ↦ Post-err low run einval (ground arith)
  | inr (len, e) ↦ elim (Option-cases (k.numbers (drop (suc len) d))) [
    | inl e1 ↦ Post-err low run einval (ground arith)
    | inr (n, e1) ↦ elim (Option-cases (s.bsearch n.pin_id t)) [
      | inl e2 ↦ Post-err low run enoent (ground arith)
      | inr (x, e2) ↦
          let step : run ≡ (apply_descriptor k map reboot x n (drop (suc len) d) env h).0 =
            ground arith in
          subst⁻¹ (Post low) step (
            apply_descriptor-Gives env k map reboot x n (drop (suc len) d)
              (All-Mem IsPin x t a (ss.found n.pin_id t x e2).0).0 h)
    ]
  ]
]
  where
    low : ℕ → Type 0
    low i = i < max_gpios

    run : Result ℕ
    run = (parse_descriptor k s map reboot t d env h).0

-- As many entries as descriptors, each of them in range.
abbrev pub AreEntries : ℕ → List ℕ → Type 0
AreEntries n off = (length off ≡ n) × All IsEntry off

entry_of-IsEntry : (r : Result ℕ) → Post (λ i. i < max_gpios) r → IsEntry (entry_of r)
entry_of-IsEntry (ok i) p = omega arith
entry_of-IsEntry (err e) p = omega arith

pub fill_entries-AreEntries :
    (env : Env) (k : Scanner) (s : PinSearch) (map reboot : ℕ) (t : List Element)
    (ds : List (List ℕ))
    → Searches s
    → All IsPin t
    → Gives env (AreEntries (length ds)) (fill_entries k s map reboot t ds)
unfolding fill_entries
fill_entries-AreEntries env k s map reboot t [] ss a h = (refl, tt)
fill_entries-AreEntries env k s map reboot t (d ∷ ds) ss a h =
    Gives-bind env (λ r. IsEntry (entry_of r)) (AreEntries (suc (length ds)))
      (attempt (parse_descriptor k s map reboot t d))
      (λ r. fill_entries k s map reboot t ds >>= λ rest. pure (entry_of r ∷ rest))
      (λ h1.
        entry_of-IsEntry (parse_descriptor k s map reboot t d env h1).0
          (parse_descriptor-Gives env k s map reboot t d ss a h1))
      (λ r p.
        Gives-bind env (AreEntries (length ds)) (AreEntries (suc (length ds)))
          (fill_entries k s map reboot t ds) (λ rest. pure (entry_of r ∷ rest))
          (fill_entries-AreEntries env k s map reboot t ds ss a)
          (λ rest q h1. (ap suc q.0, (p, q.1))))
      h

pub sorted-IsPin :
    (s : PinSearch) (t : List Element) → Searches s → All IsPin t → All IsPin (s.sort t)
sorted-IsPin s t ss a = All-of IsPin (s.sort t) (λ e i. All-Mem IsPin e t a (ss.sorted t e i))
