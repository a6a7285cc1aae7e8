-- ===== src/I2cExt/WaitLaws.antt =====
-- The waiting loop of the I2C-EXT controller ends, by its own test.
use native.Mathlib.Nat.{le-div_iff_mul-le, div-mul-le_self}
use mathlib.Core.Path.{subst⁻¹}
use cisco_8000_kernel_module.Common.{
  ltb, ◌==◌, if◌then◌else◌, ltb→lt, Bool-cases, ℕ, zero, suc, ◌+◌, ◌*◌, ◌%◌, ◌^◌, ◌≤◌, ◌<◌, ◌≡◌, ap,
  ◌∙◌, ◌≢◌, ◌⊎◌, inl, inr, false, ◌∷◌, arith,
}
use cisco_8000_kernel_module.Env.Clocks.{ticks-forward, time_after_lem}
use cisco_8000_kernel_module.Env.{
  History, Result, Env, ticks, add64, time_after, FailsProperly, Clock, Result-cases, read, sleep,
  ok, err,
}
use cisco_8000_kernel_module.I2cExt.Regs.{cfg_reg, Hw}
use cisco_8000_kernel_module.I2cExt.Access.{started, poll, poll_started, wait_done}

-- With `fuel` rounds of 80 microseconds the clock passes the deadline, counted in ticks.
abbrev pub PastDeadline : Env → ℕ → ℕ → History → Type 0
PastDeadline env fuel deadline h = (deadline + 1) * env.tick ≤ env.now h + 80 * fuel

-- What the loop has done when it ends: a read has failed, or the last value shows that the access is
-- over, or the deadline has passed.
abbrev pub Ended : Env → ℕ → Result ℕ × History → Type 0
Ended env deadline (ok val, h) = (started val ≡ false) ⊎ (deadline < ticks env h)
Ended env deadline (err e, h) = e ≢ 0

ticks_of_past :
    (env : Env) (deadline : ℕ) (h : History)
    → Clock env
    → PastDeadline env 0 deadline h
    → deadline < ticks env h
ticks_of_past env deadline h c past =
    let p : (deadline + 1) * env.tick ≤ env.now h = omega arith in
    omega (arith, (le-div_iff_mul-le {x = deadline + 1} c.ticking).1 p)

poll-Ended :
    (fuel : ℕ) (hw : Hw) (deadline : ℕ) (env : Env) (h : History)
    → Clock env
    → FailsProperly env
    → ticks env h ≤ deadline
    → deadline ≤ ticks env h + 2 ^ 62
    → PastDeadline env fuel deadline h
    → Ended env deadline (poll fuel hw (deadline % 2 ^ 64) env h)
unfolding poll
poll-Ended zero hw deadline env h c f lo hi past =
    absurd (omega (arith, ticks_of_past env deadline h c past))
poll-Ended (suc fuel) hw deadline env h c f lo hi past =
    elim (Result-cases (env.read_answer h1 hw.map cfg_reg)) [
      | inr (e, bad) ↦
          let step : run ≡ (err e, h2) = ground arith in
          subst⁻¹ (Ended env deadline) step (λ z. f.reads h1 hw.map cfg_reg (bad ∙ ap err z))
      | inl (val, good) ↦ elim (Bool-cases (started val)) [
        | inr over ↦
            let step : run ≡ (ok val, h2) = ground arith in
            subst⁻¹ (Ended env deadline) step (inl over)
        | inl busy ↦ elim (Bool-cases (ltb deadline (ticks env h2))) [
          | inl late ↦
              let step : run ≡ (ok val, h2) = ground (arith, after) in
              subst⁻¹ (Ended env deadline) step (inr (ltb→lt _ _ late))
          | inr early ↦
              let step : run ≡ poll fuel hw (deadline % 2 ^ 64) env h2 = ground (arith, after) in
              subst⁻¹ (Ended env deadline) step (
                poll-Ended fuel hw deadline env h2 c f (not_lt early) (omega (arith, t1, t2))
                  (omega (arith, c.sleeps 80 h, c.forward (read hw.map cfg_reg) h1)))
        ]
      ]
    ]
  where
    run : Result ℕ × History
    run = poll (suc fuel) hw (deadline % 2 ^ 64) env h

    h1 : History
    h1 = sleep 80 ∷ h

    h2 : History
    h2 = read hw.map cfg_reg ∷ h1

    t1 : ticks env h ≤ ticks env h1
    t1 = ticks-forward env (sleep 80) h c

    t2 : ticks env h1 ≤ ticks env h2
    t2 = ticks-forward env (read hw.map cfg_reg) h1 c

    not_lt : ltb deadline (ticks env h2) ≡ false → ticks env h2 ≤ deadline
    not_lt e = ground arith

    after : time_after (ticks env h2 % 2 ^ 64) (deadline % 2 ^ 64) ≡ ltb deadline (ticks env h2)
    after =
        time_after_lem (ticks env h2) deadline
          (omega (arith, c.prompt (sleep 80) h, c.prompt (read hw.map cfg_reg) h1))
          (omega (arith, t1, t2))

-- Rounds of 80 microseconds that cover a timeout, with two ticks to spare for the rounding.
abbrev pub EnoughFuel : Env → Hw → ℕ → Type 0
EnoughFuel env hw fuel = (hw.timeout ≤ 2 ^ 61) × ((hw.timeout + 2) * env.tick ≤ 80 * fuel)

poll_started-ne_out :
    (fuel : ℕ) (hw : Hw) (val : ℕ) (env : Env) (h : History)
    → Clock env
    → FailsProperly env
    → EnoughFuel env hw fuel
    → (poll_started fuel hw val env h).0 ≢ err 0
unfolding poll_started
poll_started-ne_out fuel hw val env h c f enough = elim (Bool-cases (started val)) [
  | inr over ↦ ground arith
  | inl busy ↦
      let deadline : ℕ = ticks env h + hw.timeout in
      let same : add64 (ticks env h % 2 ^ 64) hw.timeout ≡ deadline % 2 ^ 64 = omega arith in
      let out : (poll fuel hw (deadline % 2 ^ 64) env h).0 ≢ err 0 =
        not_out (poll fuel hw (deadline % 2 ^ 64) env h) deadline (
          poll-Ended fuel hw deadline env h c f (omega arith) (omega arith)
            (omega (arith, div-mul-le_self (env.now h) env.tick))) in
      ground (arith, out)
]
  where
    not_out : (r : Result ℕ × History) (deadline : ℕ) → Ended env deadline r → r.0 ≢ err 0
    not_out (ok v, h') deadline ended = ground arith
    not_out (err e, h') deadline ended = ground arith

-- `_wait_done` ends: with fuel for the adapter's timeout it returns 0 or a negative status. No run
-- of the loop is cut short by the model, whatever the registers answer.
pub wait_done-ne_out :
    (fuel : ℕ) (hw : Hw) (cfg_len : ℕ) (env : Env) (h : History)
    → Clock env
    → FailsProperly env
    → EnoughFuel env hw fuel
    → (wait_done fuel hw cfg_len env h).0 ≢ err 0
unfolding wait_done
wait_done-ne_out fuel hw cfg_len env h c f enough =
    elim (Result-cases (env.read_answer h1 hw.map cfg_reg)) [
      | inr (e, bad) ↦ ground (arith, f.reads h1 hw.map cfg_reg)
      | inl (val, good) ↦
          ground (arith, poll_started-ne_out fuel hw val env (read hw.map cfg_reg ∷ h1) c f enough)
    ]
  where
    h1 : History
    h1 = if cfg_len == 0 then h else sleep (cfg_len * 10) ∷ h
