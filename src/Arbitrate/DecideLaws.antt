-- ===== src/Arbitrate/DecideLaws.antt =====
-- What `i2c_arbitrate` decides.
use mathlib.Core.Path.{subst⁻¹}
use cisco_8000_kernel_module.Common.{
  Bool-cases, Option-cases, ℕ, ◌≡◌, refl, ◌⊎◌, inl, inr, true, false, Option, none, some, map,
  arith,
}
use cisco_8000_kernel_module.Env.{Done, enodev, eprobe_defer, Result-cases, ok, err}
use cisco_8000_kernel_module.Arbitrate.State.{Arb}
use cisco_8000_kernel_module.Arbitrate.Config.{
  Setup, LockOps, hdr_sw0, hdr_sw1, is_set, set_request, attach, set_times, i2c_arbitrate,
  default_ops, arb_ops, noarb_ops,
}

-- A device that shares its bus with a peer: the two requests are different scratch registers and the
-- arbitration register can be reached.
pub record Shared (hw : Arb) : Type 0 where
  pub requests :
      ((hw.local ≡ hdr_sw0) × (hw.peer ≡ hdr_sw1)) ⊎ ((hw.local ≡ hdr_sw1) × (hw.peer ≡ hdr_sw0))
  pub reachable : (map : ℕ) × (hw.info_map ≡ some map)

module _ (msecs_to_jiffies : ℕ → ℕ) where
  -- The three times in ticks are those in milliseconds, converted.
  abbrev pub Converted : Arb → Type 0
  Converted hw =
      (hw.timeout_jiffies ≡ msecs_to_jiffies hw.timeout_msecs)
      × (hw.peer_grant_jiffies ≡ msecs_to_jiffies hw.peer_grant_msecs)
      × (hw.peer_retry_jiffies ≡ msecs_to_jiffies hw.peer_retry_msecs)

  abbrev pub Decided : Done × Arb × LockOps → Type 0
  Decided (ok _, hw, arb_ops) = Shared hw × Converted hw
  Decided (ok _, hw, noarb_ops) = ⊥
  Decided _ = Unit {0}

  attach-Decided :
      (s : Setup) (hw : Arb)
      → ((hw.local ≡ hdr_sw0) × (hw.peer ≡ hdr_sw1)) ⊎ ((hw.local ≡ hdr_sw1) × (hw.peer ≡ hdr_sw0))
      → Converted hw
      → Decided (attach s hw)
  attach-Decided s hw r c = elim (Option-cases s.device) [
    | inl e ↦ subst⁻¹ Decided (absent e) tt
    | inr (info, e) ↦ elim (Option-cases info) [
      | inl e' ↦ subst⁻¹ Decided (unready info e e') tt
      | inr (map, e') ↦ elim (Result-cases s.action) [
        | inl (u, a) ↦ subst⁻¹ Decided (attached info map e e') (
            subst⁻¹ (λ d. Decided (d, hw1 map, arb_ops)) a
              (record { requests = r; reachable = (map, refl) }, c))
        | inr (x, a) ↦
            subst⁻¹ Decided (attached info map e e')
              (subst⁻¹ (λ d. Decided (d, hw1 map, arb_ops)) a tt)
      ]
    ]
  ]
    where
      hw1 : ℕ → Arb
      hw1 map = record hw { info_map = some map }

      absent : s.device ≡ none → attach s hw ≡ (err eprobe_defer, hw, default_ops)
      absent e = ground arith

      unready :
          (info : Option ℕ)
          → s.device ≡ some info
          → info ≡ none
          → attach s hw ≡ (err eprobe_defer, hw, default_ops)
      unready info e e' = ground arith

      attached :
          (info : Option ℕ) (map : ℕ)
          → s.device ≡ some info
          → info ≡ some map
          → attach s hw ≡ (s.action, hw1 map, arb_ops)
      attached info map e e' = ground arith

  set_request-split :
      (s : Setup) (hw : Arb)
      → (let hw' = set_request s hw in
          ((hw'.local ≡ hdr_sw0) × (hw'.peer ≡ hdr_sw1))
          ⊎ ((hw'.local ≡ hdr_sw1) × (hw'.peer ≡ hdr_sw0)))
  set_request-split s hw = elim (Bool-cases (is_set s.arbitration_request)) [
    | inl e ↦ inr (ground arith)
    | inr e ↦ inl (ground arith)
  ]

  pub i2c_arbitrate-Decided : (s : Setup) (hw : Arb) → Decided (i2c_arbitrate msecs_to_jiffies s hw)
  unfolding i2c_arbitrate
  i2c_arbitrate-Decided s hw = elim (Bool-cases (is_set s.multi_master)) [
    | inr single ↦ subst⁻¹ Decided (alone single) tt
    | inl multi ↦ elim (Result-cases s.arbitration_index) [
      | inr (x, e) ↦ subst⁻¹ Decided (unindexed x multi e) tt
      | inl (v, e) ↦ elim (Option-cases s.block) [
        | inl b ↦ subst⁻¹ Decided (unnamed v multi e b) tt
        | inr (b, bs) ↦ elim (Option-cases s.handle) [
          | inl l ↦ subst⁻¹ Decided (unhandled v b multi e bs l) tt
          | inr (l, ls) ↦
              subst⁻¹ Decided (located v b l multi e bs ls)
                (attach-Decided s (hw2 v) (set_request-split s hw) (refl, refl, refl))
        ]
      ]
    ]
  ]
    where
      run : Done × Arb × LockOps
      run = i2c_arbitrate msecs_to_jiffies s hw

      hw1 : Arb
      hw1 = set_request s hw

      hw2 : ℕ → Arb
      hw2 v = set_times msecs_to_jiffies s (record hw1 { index = v })

      alone : is_set s.multi_master ≡ false → run ≡ (ok tt, hw, default_ops)
      alone single = ground arith

      unindexed :
          (x : ℕ)
          → is_set s.multi_master ≡ true
          → s.arbitration_index ≡ err x
          → run ≡ (err x, hw1, default_ops)
      unindexed x multi e = ground arith

      unnamed :
          (v : ℕ)
          → is_set s.multi_master ≡ true
          → s.arbitration_index ≡ ok v
          → s.block ≡ none
          → run ≡ (err enodev, hw2 v, default_ops)
      unnamed v multi e b = ground arith

      unhandled :
          (v b : ℕ)
          → is_set s.multi_master ≡ true
          → s.arbitration_index ≡ ok v
          → s.block ≡ some b
          → s.handle ≡ none
          → run ≡ (err enodev, hw2 v, default_ops)
      unhandled v b multi e bs l = ground arith

      located :
          (v b l : ℕ)
          → is_set s.multi_master ≡ true
          → s.arbitration_index ≡ ok v
          → s.block ≡ some b
          → s.handle ≡ some l
          → run ≡ attach s (hw2 v)
      located v b l multi e bs ls = ground arith
