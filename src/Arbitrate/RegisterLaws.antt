-- ===== src/Arbitrate/RegisterLaws.antt =====
-- The lock of the bus around the reset of the adapters.
use mathlib.Core.Path.{subst⁻¹}
use cisco_8000_kernel_module.Common.{
  ◌==◌, if◌then◌else◌, All, ℕ, suc, ◌≡◌, refl, ◌≢◌, inl, inr, Bool, true, false, some, List, [],
  ◌∷◌, arith,
}
use cisco_8000_kernel_module.Env.{History, Result, Env, M, Result-cases, lock, unlock, ok, err}
use cisco_8000_kernel_module.Arbitrate.State.{Arb}
use cisco_8000_kernel_module.Arbitrate.Bus.{noarb_lock_bus, noarb_unlock_bus}
use cisco_8000_kernel_module.Arbitrate.Config.{LockOps, default_ops, arb_ops, noarb_ops}
use cisco_8000_kernel_module.Arbitrate.Register.{
  I2cCore, lock_bus, unlock_bus, reset_adapter, register_from,
}

-- Whether the lock is held after these requests.
abbrev pub held : ℕ → History → Bool
held bus [] = false
held bus (lock n ∷ h) = let before = held bus h in if n == bus then true else before
held bus (unlock n ∷ h) = let before = held bus h in if n == bus then false else before
held bus (_ ∷ h) = held bus h

-- What holds of the requests is kept by taking and by giving back the lock, and by the callback where it
-- is called with the lock held.
pub record KeptLocked (reset : ℕ → M (Unit {0})) (env : Env) (bus : ℕ) (P : History → Type 0)
    : Type 0 where
  pub by_lock : (h : History) → P h → P (lock bus ∷ h)
  pub by_unlock : (h : History) → P h → P (unlock bus ∷ h)
  pub by_reset : (i : ℕ) (h : History) → held bus h ≡ true → P h → P (reset i env h).1

abbrev pub Keeps : (History → Type 0) → ℕ → History → Type 0
Keeps P bus h = P h × (held bus h ≡ false)

abbrev pub IsPlain : LockOps → Type 0
IsPlain ops = ops ≢ arb_ops

module _ (to_msecs : ℕ → ℕ) (fuel : ℕ) (k : I2cCore) (reset : ℕ → M (Unit {0})) where
  reset_plain :
      (i : ℕ) (ops : LockOps) (hw : Arb) (env : Env) (h : History)
      → IsPlain ops
      → reset_adapter to_msecs fuel (some reset) i ops hw env h ≡ (
        elim (reset i env (lock hw.bus_lock ∷ h)).0 [ ok _ ↦ ok hw | err e ↦ err e ],
        unlock hw.bus_lock ∷ (reset i env (lock hw.bus_lock ∷ h)).1,
      )
  unfolding reset_adapter lock_bus unlock_bus noarb_lock_bus noarb_unlock_bus
  reset_plain i default_ops hw env h p =
      elim (Result-cases (reset i env (lock hw.bus_lock ∷ h)).0) [
        | inl (u, e) ↦ ground arith
        | inr (x, e) ↦ ground arith
      ]
  reset_plain i noarb_ops hw env h p = elim (Result-cases (reset i env (lock hw.bus_lock ∷ h)).0) [
    | inl (u, e) ↦ ground arith
    | inr (x, e) ↦ ground arith
  ]
  reset_plain i arb_ops hw env h p = elim (p refl) [ ]

  -- Registering adapters that do not arbitrate calls the callback only with the lock of the bus held, and
  -- leaves the lock free if it was free: whatever the callback keeps when it is called with the lock
  -- held, and the lock's own requests keep, is kept by all of the registration, whether it succeeds or
  -- stops at a failure, that of the callback included.
  pub register_from-Keeps :
      (P : History → Type 0) (i : ℕ) (all_ops : List LockOps) (hw : Arb) (env : Env) (h : History)
      → All IsPlain all_ops
      → KeptLocked reset env hw.bus_lock P
      → Keeps P hw.bus_lock h
      → Keeps P hw.bus_lock (register_from to_msecs fuel k (some reset) i all_ops hw env h).1
  unfolding register_from
  register_from-Keeps P i [] hw env h plain kept now = now
  register_from-Keeps P i (ops ∷ rest) hw env h plain kept now = elim (Result-cases (k.added i)) [
    | inr (x, e) ↦ let step : run.1 ≡ h = ground arith in subst⁻¹ keeps step now
    | inl (u, e) ↦ elim (Result-cases (k.action i)) [
      | inr (x, f) ↦ let step : run.1 ≡ h = ground arith in subst⁻¹ keeps step now
      | inl (u1, f) ↦ elim (Result-cases (reset i env h1).0) [
        | inr (x, g) ↦
            let step : run.1 ≡ h2 = ground (arith, reset_plain i ops hw env h plain.0) in
            subst⁻¹ keeps step freed
        | inl (u2, g) ↦
            let step : run.1
                ≡ (register_from to_msecs fuel k (some reset) (suc i) rest hw env h2).1 =
              ground (arith, reset_plain i ops hw env h plain.0) in
            subst⁻¹ keeps step (register_from-Keeps P (suc i) rest hw env h2 plain.1 kept freed)
      ]
    ]
  ]
    where
      run : Result Arb × History
      run = register_from to_msecs fuel k (some reset) i (ops ∷ rest) hw env h

      keeps : History → Type 0
      keeps = Keeps P hw.bus_lock

      h1 : History
      h1 = lock hw.bus_lock ∷ h

      h2 : History
      h2 = unlock hw.bus_lock ∷ (reset i env h1).1

      freed : keeps h2
      freed = (
        kept.by_unlock (reset i env h1).1
            (kept.by_reset i h1 (ground arith) (kept.by_lock h now.0)),
        ground arith,
      )
