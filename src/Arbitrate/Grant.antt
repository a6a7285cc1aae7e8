-- ===== src/Arbitrate/Grant.antt =====
-- The wait for a disputed bus ends, and leaves the counters of the two kinds of lock alone.

use mathlib.Core.Path.{subst⁻¹}
use cisco_8000_kernel_module.Common.{
  ltb, ◌==◌, if◌then◌else◌, Bool-cases, Option-cases, ℕ, zero, suc, ◌+◌, ◌*◌, ◌%◌, ◌^◌, ◌≤◌, ◌<◌,
  ◌≡◌, inl, inr, not, ◌&&◌, none, some, ◌∷◌, map, arith,
}
use cisco_8000_kernel_module.Env.{
  History, Result, Env, ticks, time_after, time_before_eq, Clock, enodev, read, sleep, ok, err,
}
use cisco_8000_kernel_module.Env.Clocks.{ticks-forward, ticks-sleep, time_after_lem}
use cisco_8000_kernel_module.Arbitrate.State.{Arb, bump, arbi, negated, is_negative}
use cisco_8000_kernel_module.Arbitrate.Bus.{read_arb, await_grant}

-- The history after a run of `read_arb` and the bits that it returns.
abbrev pub arb_history : Arb → History → History
arb_history hw h = elim hw.info_map [ none ↦ h | some map ↦ read map (arbi hw.index) ∷ h ]

abbrev pub arb_bits : Arb → Env → History → ℕ
arb_bits hw env h = elim hw.info_map [
  | none ↦ negated enodev
  | some map ↦ elim (env.read_answer h map (arbi hw.index)) [ ok v ↦ v | err x ↦ negated x ]
]

abbrev pub counted : Arb → ℕ → Arb
counted hw e = if is_negative e then record hw { read_arb_err = bump hw.read_arb_err } else hw

pub read_arb_lem :
    (hw : Arb) (env : Env) (h : History)
    → read_arb hw env h ≡ (ok (arb_bits hw env h, counted hw (arb_bits hw env h)), arb_history hw h)
unfolding read_arb
read_arb_lem hw env h = ground arith

-- The settings of an adapter that arbitrates.
abbrev pub IsTimed : Env → Arb → Type 0
IsTimed env hw =
    (1 ≤ hw.peer_retry_jiffies)
    × (hw.peer_retry_jiffies * env.tick ≤ 2 ^ 60)
    × (hw.peer_grant_jiffies * env.tick ≤ 2 ^ 60)
    × (hw.timeout_jiffies ≤ 2 ^ 60)

ticks-arb_history :
    (env : Env) (hw : Arb) (h : History)
    → Clock env
    → (ticks env h ≤ ticks env (arb_history hw h))
      × (ticks env (arb_history hw h) ≤ ticks env h + 2 ^ 60)
ticks-arb_history env hw h c = elim (Option-cases hw.info_map) [
  | inl e ↦ ground arith
  | inr (map, e) ↦ ground (
    arith,
    ticks-forward env (read map (arbi hw.index)) h c,
    c.prompt (read map (arbi hw.index)) h,
  )
]

pub counted-IsTimed : (env : Env) (hw : Arb) (e : ℕ) → IsTimed env hw → IsTimed env (counted hw e)
counted-IsTimed env hw e t = ground arith

-- The clock after one round of the loop.
module _ (env : Env) (hw : Arb) (timeout : ℕ) (h : History) (c : Clock env) where
  abbrev pub round : History
  round = arb_history hw (sleep (timeout * env.tick) ∷ h)

  pub round_after : ticks env h + timeout ≤ ticks env round
  round_after = omega (
    arith,
    ticks-sleep env timeout h c,
    ticks-arb_history env hw (sleep (timeout * env.tick) ∷ h) c,
  )

  pub round_before : ticks env round ≤ ticks env h + timeout * env.tick + 2 ^ 61
  round_before = omega (
    arith,
    c.prompt (sleep (timeout * env.tick)) h,
    ticks-arb_history env hw (sleep (timeout * env.tick) ∷ h) c,
  )

-- Neither counter of the two kinds of lock has moved.
abbrev pub SameCounts : Arb → Arb → Type 0
SameCounts hw hw' = (hw'.disputed ≡ hw.disputed) × (hw'.undisputed ≡ hw.undisputed)

-- A run that has not been cut short, and has left the two counters alone.
abbrev pub Awaits : Arb → Result (ℕ × Arb) × History → Type 0
Awaits hw (ok (arb, hw'), h) = SameCounts hw hw'
Awaits hw (err e, h) = ⊥

Awaits-trans :
    (hw hw' : Arb) (r : Result (ℕ × Arb) × History) → SameCounts hw hw' → Awaits hw' r → Awaits hw r
Awaits-trans hw hw' (ok (arb, hw''), h) a b = ground arith
Awaits-trans hw hw' (err e, h) a b = b

-- The loop's first round may not sleep at all; every other one takes a tick at least.
pub await_grant-Awaits :
    (fuel timeout deadline : ℕ) (hw : Arb) (env : Env) (h : History)
    → Clock env
    → IsTimed env hw
    → timeout * env.tick ≤ 2 ^ 60
    → ticks env h ≤ deadline
    → deadline ≤ ticks env h + 2 ^ 61
    → deadline + 2 ≤ ticks env h + timeout + fuel
    → 0 < fuel
    → Awaits hw (await_grant fuel timeout (deadline % 2 ^ 64) hw env h)
unfolding await_grant
await_grant-Awaits zero timeout deadline hw env h c t b lo hi f p = elim p [ ]
await_grant-Awaits (suc fuel) timeout deadline hw env h c t b lo hi f p =
    elim (Bool-cases (
      not (arb_bits hw env h1 == 0)
      && time_before_eq (ticks env h2 % 2 ^ 64) (deadline % 2 ^ 64))) [
        | inr over ↦
            let step : run ≡ (ok (arb_bits hw env h1, hw'), h2) =
              ground (arith, read_arb_lem hw env h1) in
            subst⁻¹ (Awaits hw) step (ground arith)
        | inl more ↦
            let step : run ≡ await_grant fuel hw.peer_retry_jiffies (deadline % 2 ^ 64) hw' env h2 =
              ground (arith, read_arb_lem hw env h1) in
            let early : ticks env h2 ≤ deadline = ground (arith, after) in
            let rest : Awaits hw'
                (await_grant fuel hw.peer_retry_jiffies (deadline % 2 ^ 64) hw' env h2) =
              await_grant-Awaits fuel hw.peer_retry_jiffies deadline hw' env h2 c
                (counted-IsTimed env hw (arb_bits hw env h1) t) (omega arith) early
                (omega (arith, round_after env hw timeout h c))
                (omega (arith, round_after env hw timeout h c))
                (omega (arith, round_after env hw timeout h c)) in
            subst⁻¹ (Awaits hw) step (
              Awaits-trans hw hw'
                (await_grant fuel hw.peer_retry_jiffies (deadline % 2 ^ 64) hw' env h2)
                (ground arith) rest)
      ]
  where
    run : Result (ℕ × Arb) × History
    run = await_grant (suc fuel) timeout (deadline % 2 ^ 64) hw env h

    h1 : History
    h1 = sleep (timeout * env.tick) ∷ h

    h2 : History
    h2 = arb_history hw h1

    hw' : Arb
    hw' = counted hw (arb_bits hw env h1)

    after : time_after (ticks env h2 % 2 ^ 64) (deadline % 2 ^ 64) ≡ ltb deadline (ticks env h2)
    after =
        time_after_lem (ticks env h2) deadline (omega (arith, round_before env hw timeout h c))
          (omega (arith, round_after env hw timeout h c))
