-- ===== src/Env/Clocks.antt =====
-- Consequences of the clock's laws.
use native.Mathlib.Nat.{le-div_iff_mul-le, div-mul-le_self, le_trans}
use cisco_8000_kernel_module.Common.{ltb, ℕ, ◌+◌, ◌*◌, ◌%◌, ◌^◌, ◌≤◌, ◌≡◌, ◌∷◌, arith}
use cisco_8000_kernel_module.Env.{Event, History, Env, ticks, time_after, Clock, sleep}

pub ticks-forward :
    (env : Env) (e : Event) (h : History) → Clock env → ticks env h ≤ ticks env (e ∷ h)
ticks-forward env e h c =
    (le-div_iff_mul-le c.ticking).1
      (le_trans (div-mul-le_self (env.now h) env.tick) (c.forward e h))

-- A sleep of `n` ticks moves the clock by at least `n`.
pub ticks-sleep :
    (env : Env) (n : ℕ) (h : History)
    → Clock env
    → ticks env h + n ≤ ticks env (sleep (n * env.tick) ∷ h)
ticks-sleep env n h c =
    (le-div_iff_mul-le c.ticking).1
      (omega (arith, div-mul-le_self (env.now h) env.tick, c.sleeps (n * env.tick) h))

-- While the clock is not far from the deadline, the wrapped comparison is the true one.
pub time_after_lem :
    (now deadline : ℕ)
    → now ≤ deadline + 2 ^ 62 + 2 ^ 61
    → deadline ≤ now + 2 ^ 62
    → time_after (now % 2 ^ 64) (deadline % 2 ^ 64) ≡ ltb deadline now
time_after_lem now deadline a b = ground arith
