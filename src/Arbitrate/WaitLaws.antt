-- ===== src/Arbitrate/WaitLaws.antt =====
-- The wait for a bus that its peer gives up in time.
use mathlib.Core.Path.{subst⁻¹}
use cisco_8000_kernel_module.Common.{
  ltb, leb, ◌==◌, Bool-cases, ℕ, zero, suc, ◌+◌, ◌*◌, ◌%◌, ◌^◌, ◌≤◌, ◌<◌, ◌≡◌, inl, inr, not, ◌&&◌,
  some, ◌∷◌, map, arith,
}
use cisco_8000_kernel_module.Env.{
  History, Result, Env, ticks, time_after, time_before_eq, Clock, read, sleep, ok, err,
}
use cisco_8000_kernel_module.Env.Clocks.{time_after_lem}
use cisco_8000_kernel_module.Arbitrate.State.{Arb, arbi, negated}
use cisco_8000_kernel_module.Arbitrate.Bus.{await_grant}
use cisco_8000_kernel_module.Arbitrate.Grant.{
  round_before, round_after, arb_history, arb_bits, counted, read_arb_lem, IsTimed, counted-IsTimed,
}

-- From the tick `since` on the arbitration register `reg` of `map` reads as 0, and reading it takes
-- `latency` ticks at most.
pub record Released (env : Env) (map reg since latency : ℕ) : Type 0 where
  pub free : (h : History) → since ≤ ticks env h → env.read_answer h map reg ≡ ok 0
  pub quick : (h : History) → ticks env (read map reg ∷ h) ≤ ticks env h + latency

-- The adapter arbitrates through this register.
abbrev pub Arbitrates : Arb → ℕ → ℕ → Type 0
Arbitrates hw map reg = (hw.info_map ≡ some map) × (arbi hw.index ≡ reg)

pub counted-Arbitrates :
    (hw : Arb) (map reg e : ℕ) → Arbitrates hw map reg → Arbitrates (counted hw e) map reg
counted-Arbitrates hw map reg e a = ground arith

-- The waits that have expired and the failed requests are as before.
abbrev pub SameFaults : Arb → Arb → Type 0
SameFaults hw hw' = (hw'.expires ≡ hw.expires) × (hw'.write_local_err ≡ hw.write_local_err)

pub counted-SameFaults : (hw : Arb) (e : ℕ) → SameFaults hw (counted hw e)
counted-SameFaults hw e = ground arith

-- The latest request has read the register as 0.
abbrev pub IsGranted : Env → ℕ → ℕ → History → Type 0
IsGranted env map reg h =
    (h0 : History) × (h ≡ read map reg ∷ h0)
    × ((elim (env.read_answer h0 map reg) [ ok v ↦ v | err x ↦ negated x ]) ≡ 0)

-- A wait that ends with the bus free.
abbrev pub Waits : Env → ℕ → ℕ → Arb → Result (ℕ × Arb) × History → Type 0
Waits env map reg hw (ok (arb, hw'), h) = (arb ≡ 0) × SameFaults hw hw' × IsGranted env map reg h
Waits env map reg hw (err e, h) = ⊥

Waits-trans :
    (env : Env) (map reg : ℕ) (hw hw' : Arb) (r : Result (ℕ × Arb) × History)
    → SameFaults hw hw'
    → Waits env map reg hw' r
    → Waits env map reg hw r
Waits-trans env map reg hw hw' (ok (arb, hw''), h) a (z, b, g) = (z, ground arith, g)
Waits-trans env map reg hw hw' (err e, h) a b = b

module _ (env : Env) (map reg since latency : ℕ) (c : Clock env)
    (released : Released env map reg since latency) where
  pub await_grant-Waits :
      (fuel timeout deadline : ℕ) (hw : Arb) (h : History)
      → Arbitrates hw map reg
      → IsTimed env hw
      → timeout * env.tick ≤ 2 ^ 60
      → ticks env h ≤ deadline
      → deadline ≤ ticks env h + 2 ^ 61
      → deadline + 2 ≤ ticks env h + timeout + fuel
      → 0 < fuel
      → since + latency ≤ deadline
      → Waits env map reg hw (await_grant fuel timeout (deadline % 2 ^ 64) hw env h)
  unfolding await_grant
  await_grant-Waits zero timeout deadline hw h a t b lo hi f p s = elim p [ ]
  await_grant-Waits (suc fuel) timeout deadline hw h a t b lo hi f p s =
      elim (Bool-cases
        (not (bits == 0) && time_before_eq (ticks env h2 % 2 ^ 64) (deadline % 2 ^ 64))) [
          | inr over ↦
              let step : run ≡ (ok (bits, hw'), h2) = ground (arith, read_arb_lem hw env h1) in
              let free : bits ≡ 0 = elim (Bool-cases (leb since (ticks env h1))) [
                | inl in_time ↦ ground (arith, released.free h1 (ground arith))
                | inr too_early ↦ ground (arith, after, released.quick h1, reading)
              ] in
              subst⁻¹ (Waits env map reg hw) step
                (free, counted-SameFaults hw bits, (h1, reading, ground arith))
          | inl more ↦
              let step : run
                  ≡ await_grant fuel hw.peer_retry_jiffies (deadline % 2 ^ 64) hw' env h2 =
                ground (arith, read_arb_lem hw env h1) in
              let early : ticks env h2 ≤ deadline = ground (arith, after) in
              let rest : Waits env map reg hw'
                  (await_grant fuel hw.peer_retry_jiffies (deadline % 2 ^ 64) hw' env h2) =
                await_grant-Waits fuel hw.peer_retry_jiffies deadline hw' h2
                  (counted-Arbitrates hw map reg bits a) (counted-IsTimed env hw bits t)
                  (omega arith) early (omega (arith, round_after env hw timeout h c))
                  (omega (arith, round_after env hw timeout h c))
                  (omega (arith, round_after env hw timeout h c)) s in
              subst⁻¹ (Waits env map reg hw) step (
                Waits-trans env map reg hw hw'
                  (await_grant fuel hw.peer_retry_jiffies (deadline % 2 ^ 64) hw' env h2)
                  (counted-SameFaults hw bits) rest)
        ]
    where
      run : Result (ℕ × Arb) × History
      run = await_grant (suc fuel) timeout (deadline % 2 ^ 64) hw env h

      h1 : History
      h1 = sleep (timeout * env.tick) ∷ h

      h2 : History
      h2 = arb_history hw h1

      bits : ℕ
      bits = arb_bits hw env h1

      hw' : Arb
      hw' = counted hw bits

      reading : h2 ≡ read map reg ∷ h1
      reading = ground arith

      after : time_after (ticks env h2 % 2 ^ 64) (deadline % 2 ^ 64) ≡ ltb deadline (ticks env h2)
      after =
          time_after_lem (ticks env h2) deadline (omega (arith, round_before env hw timeout h c))
            (omega (arith, round_after env hw timeout h c))
