-- ===== src/Arbitrate/ConfigLaws.antt =====
-- Which lock operations the adapters get, and the settings in milliseconds and in ticks.
use mathlib.Core.Path.{subst⁻¹}
use cisco_8000_kernel_module.Common.{
  ltb, ltb→lt, lt→ltb, Bool-cases, length, get_elem?, ℕ, zero, suc, ◌<◌, ◌≡◌, refl, inl, inr, true,
  false, Option, none, some, ◌∷◌, arith,
}
use cisco_8000_kernel_module.Env.{History, Result, Done, Env, Result-cases, read, ok, err}
use cisco_8000_kernel_module.Reg.{field, get}
use cisco_8000_kernel_module.Arbitrate.State.{Arb}
use cisco_8000_kernel_module.Arbitrate.Config.{
  Setup, LockOps, Adapters, hdr_info0_majorver, copies, adapter_count, first_ops, Setting,
  i2c_arbitrate, i2c_init, store_u32, default_ops, arb_ops, noarb_ops,
}
use cisco_8000_kernel_module.Arbitrate.DecideLaws.{
  Shared, Converted, Decided, i2c_arbitrate-Decided,
}

-- What each adapter of a device with `n` adapters is given.
abbrev pub Fits : ℕ → Arb → LockOps → Type 0
Fits n hw default_ops = n ≡ 1
Fits n hw noarb_ops = 1 < n
Fits n hw arb_ops = Shared hw

copies-get : (n i : ℕ) (ops o : LockOps) → get_elem? (copies n ops) i ≡ some o → (o ≡ ops) × (i < n)
copies-get zero i ops o e = ground arith
copies-get (suc n) zero ops o e = ground arith
copies-get (suc n) (suc i) ops o e = ground (arith, copies-get n i ops o e)

copies-length : (n : ℕ) (ops : LockOps) → length (copies n ops) ≡ n
copies-length zero ops = refl
copies-length (suc n) ops = ground (arith, copies-length n ops)

positive_count : (r : Result ℕ) → 0 < adapter_count r
positive_count (ok zero) = omega arith
positive_count (ok (suc n)) = omega arith
positive_count (err e) = omega arith

module _ (msecs_to_jiffies : ℕ → ℕ) where
  chosen_ops :
      (n : ℕ) (d : Done × Arb × LockOps)
      → 0 < n
      → d.0 ≡ ok tt
      → Decided msecs_to_jiffies d
      → Fits n d.1 (first_ops n d.2)
  chosen_ops n (ok _, hw, arb_ops) p e d = d.0
  chosen_ops n (ok _, hw, noarb_ops) p e d = elim d [ ]
  chosen_ops n (ok _, hw, default_ops) p e d = elim (Bool-cases (ltb 1 n)) [
    | inl more ↦ subst⁻¹ (Fits n hw) (chosen more) (ltb→lt 1 n more)
    | inr one ↦ subst⁻¹ (Fits n hw) (kept one) (ground (arith, lt→ltb 1 n))
  ]
    where
      chosen : ltb 1 n ≡ true → first_ops n default_ops ≡ noarb_ops
      chosen more = ground arith

      kept : ltb 1 n ≡ false → first_ops n default_ops ≡ default_ops
      kept one = ground arith
  chosen_ops n (err x, hw, ops) p e d = ground arith

  -- What a device is like once `cisco_i2c_init` has returned 0.
  abbrev pub Configured : Result Adapters × History → Type 0
  Configured (err e, h) = Unit {0}
  Configured (ok a, h) =
      (length a.lock_ops ≡ a.num_adapters)
      × (0 < a.num_adapters)
      × ((i : ℕ) (ops : LockOps)
          → get_elem? a.lock_ops i ≡ some ops
          → Fits a.num_adapters a.arb ops)

  -- The lock operations after `cisco_i2c_init` succeeds: with arbitration the requests of the two
  -- masters are different scratch registers and the arbitration register can be reached; without it
  -- the adapters' own locks are used only if there is one adapter, and the shared lock otherwise.
  pub i2c_init-Configured :
      (s : Setup) (nicknames : Result ℕ) (mfd : Done) (hw : Arb) (env : Env) (h : History)
      → Configured (i2c_init msecs_to_jiffies s nicknames mfd hw env h)
  unfolding i2c_init
  i2c_init-Configured s nicknames (err e) hw env h = tt
  i2c_init-Configured s nicknames (ok _) hw env h =
      elim (Result-cases (env.read_answer h hw.map 0)) [
        | inr (x, bad) ↦
            let step : run ≡ (err x, read hw.map 0 ∷ h) = ground arith in subst⁻¹ Configured step tt
        | inl (data0, good) ↦ elim (Result-cases decided.0) [
          | inr (x, bad) ↦
              let step : run ≡ (err x, read hw.map 0 ∷ h) = ground arith in
              subst⁻¹ Configured step tt
          | inl (u, done) ↦
              let step : run ≡ (ok (adapters data0), read hw.map 0 ∷ h) = ground arith in
              subst⁻¹ Configured step (
                copies-length count (first_ops count decided.2),
                positive_count nicknames,
                λ i ops e. fits i ops e done,
              )
        ]
      ]
    where
      run : Result Adapters × History
      run = i2c_init msecs_to_jiffies s nicknames (ok tt) hw env h

      decided : Done × Arb × LockOps
      decided = i2c_arbitrate msecs_to_jiffies s hw

      count : ℕ
      count = adapter_count nicknames

      adapters : ℕ → Adapters
      adapters data0 = record {
        arb = decided.1;
        ver = get hdr_info0_majorver data0;
        num_adapters = count;
        lock_ops = copies count (first_ops count decided.2);
      }

      fits :
          (i : ℕ) (ops : LockOps)
          → get_elem? (copies count (first_ops count decided.2)) i ≡ some ops
          → decided.0 ≡ ok tt
          → Fits count decided.1 ops
      fits i ops e done =
          subst⁻¹ (Fits count decided.1) (copies-get count i (first_ops count decided.2) ops e).0 (
            chosen_ops count decided (positive_count nicknames) done
              (i2c_arbitrate-Decided msecs_to_jiffies s hw))

  -- Storing one of the three settings keeps the times in ticks those in milliseconds, converted.
  pub store_u32-Converted :
      (field : Setting) (val : Option ℕ) (buflen : ℕ) (hw : Arb)
      → Converted msecs_to_jiffies hw
      → Converted msecs_to_jiffies ((store_u32 msecs_to_jiffies field val buflen hw).1)
  unfolding store_u32
  store_u32-Converted field none buflen hw c = c
  store_u32-Converted field (some val) buflen hw c = (refl, refl, refl)
