-- ===== src/I2cSmb/WaitLaws.antt =====
-- Both waiting loops end, by their own tests.
use mathlib.Core.Path.{subst⁻¹}
use cisco_8000_kernel_module.Common.{
  ltb, Bool-cases, ℕ, zero, suc, ◌+◌, ◌*◌, ◌%◌, ◌^◌, ◌≤◌, ◌<◌, bit_or, ◌≡◌, ◌≢◌, inl, inr, ◌∷◌,
  arith,
}
use cisco_8000_kernel_module.Env.{
  History, Done, Env, ticks, add64, time_after, FailsProperly, Clock, ebusy, etimedout,
  Result-cases, read, write, sleep, ok, err,
}
use cisco_8000_kernel_module.Env.Clocks.{ticks-forward, ticks-sleep, time_after_lem}
use cisco_8000_kernel_module.Reg.{bit}
use cisco_8000_kernel_module.I2cSmb.Wait.{
  csr_reg, Smb, has, await_idle, recover_bus, judge, poll_done, smb_wait_done,
}

-- A run that the model has not cut short.
abbrev pub Completes : Done × History → Type 0
Completes r = r.0 ≢ err 0

module _ (usecs_to_jiffies : ℕ → ℕ) where
  -- The sleeps between two reads take a tick at least, and not too many.
  abbrev pub Sleeps : Env → Type 0
  Sleeps env =
      (1 ≤ usecs_to_jiffies 100)
      × (usecs_to_jiffies 100 * env.tick ≤ 2 ^ 60)
      × (1 ≤ usecs_to_jiffies 160)
      × (usecs_to_jiffies 160 * env.tick ≤ 2 ^ 60)

  await_idle-Completes :
      (fuel : ℕ) (hw : Smb) (deadline : ℕ) (env : Env) (h : History)
      → Clock env
      → FailsProperly env
      → Sleeps env
      → ticks env h ≤ deadline + 2 ^ 61
      → deadline ≤ ticks env h + 2 ^ 61
      → deadline + 1 ≤ ticks env h + fuel
      → 0 < fuel
      → Completes (await_idle usecs_to_jiffies fuel hw (deadline % 2 ^ 64) env h)
  unfolding await_idle
  await_idle-Completes zero hw deadline env h c f s lo hi enough p = elim p [ ]
  await_idle-Completes (suc fuel) hw deadline env h c f s lo hi enough p =
      elim (Result-cases (env.read_answer h hw.map csr_reg)) [
        | inr (e, bad) ↦
            let step : run ≡ (err e, h1) = ground arith in
            subst⁻¹ Completes step (ground (arith, f.reads h hw.map csr_reg))
        | inl (val, good) ↦ elim (Bool-cases (has val 14)) [
          | inr idle ↦
              let step : run ≡ (ok tt, h1) = ground arith in subst⁻¹ Completes step (ground arith)
          | inl busy ↦ elim (Bool-cases (ltb deadline (ticks env h2))) [
            | inl late ↦
                let step : run ≡ (err ebusy, h2) = ground (arith, after) in
                subst⁻¹ Completes step (ground arith)
            | inr early ↦
                let step : run ≡ await_idle usecs_to_jiffies fuel hw (deadline % 2 ^ 64) env h2 =
                  ground (arith, after) in
                let on_time : ticks env h2 ≤ deadline = ground arith in
                subst⁻¹ Completes step (
                  await_idle-Completes fuel hw deadline env h2 c f s (omega arith)
                    (omega (arith, t1, t2)) (omega (arith, t1, t2)) (omega (arith, t1, t2)))
          ]
        ]
      ]
    where
      run : Done × History
      run = await_idle usecs_to_jiffies (suc fuel) hw (deadline % 2 ^ 64) env h

      h1 : History
      h1 = read hw.map csr_reg ∷ h

      h2 : History
      h2 = sleep (usecs_to_jiffies 160 * env.tick) ∷ h1

      t1 : ticks env h ≤ ticks env h1
      t1 = ticks-forward env (read hw.map csr_reg) h c

      t2 : ticks env h1 + usecs_to_jiffies 160 ≤ ticks env h2
      t2 = ticks-sleep env (usecs_to_jiffies 160) h1 c

      after : time_after (ticks env h2 % 2 ^ 64) (deadline % 2 ^ 64) ≡ ltb deadline (ticks env h2)
      after =
          time_after_lem (ticks env h2) deadline
            (omega (
              arith,
              c.prompt (read hw.map csr_reg) h,
              c.prompt (sleep (usecs_to_jiffies 160 * env.tick)) h1,
            ))
            (omega (arith, t1, t2))

  -- `cisco_fpga_i2c_recover_bus` ends. While the clock keeps its laws, failing requests have negative
  -- statuses, the sleeps between two reads take a tick at least and 2 ^ 60 microseconds at most, and the
  -- timeout is 2 ^ 60 ticks at most: with two rounds more than the timeout has ticks as fuel it returns 0
  -- or a negative status.
  pub recover_bus-Completes :
      (fuel : ℕ) (hw : Smb) (env : Env) (h : History)
      → Clock env
      → FailsProperly env
      → Sleeps env
      → hw.timeout ≤ 2 ^ 60
      → hw.timeout + 2 ≤ fuel
      → Completes (recover_bus usecs_to_jiffies fuel hw env h)
  unfolding recover_bus
  recover_bus-Completes fuel hw env h c f s short enough =
      elim (Result-cases (env.read_answer h hw.map csr_reg)) [
        | inr (e, bad) ↦
            let step : run ≡ (err e, h1) = ground arith in
            subst⁻¹ Completes step (ground (arith, f.reads h hw.map csr_reg))
        | inl (val, good) ↦
            elim (Result-cases (env.write_answer h1 hw.map csr_reg (bit_or val (bit 26)))) [
              | inr (e, bad) ↦
                  let step : run ≡ (err e, h2 val) = ground arith in
                  subst⁻¹ Completes step
                    (ground (arith, f.writes h1 hw.map csr_reg (bit_or val (bit 26))))
              | inl (u, well) ↦
                  let step : run
                      ≡ await_idle usecs_to_jiffies fuel hw (deadline % 2 ^ 64) env (h2 val) =
                    ground (arith, same) in
                  subst⁻¹ Completes step (
                    await_idle-Completes fuel hw deadline env (h2 val) c f s
                      (omega (
                        arith,
                        c.prompt (read hw.map csr_reg) h,
                        c.prompt (write hw.map csr_reg (bit_or val (bit 26))) h1,
                      ))
                      (omega (arith, t1, t2 val)) (omega (arith, t1, t2 val)) (omega arith))
            ]
      ]
    where
      run : Done × History
      run = recover_bus usecs_to_jiffies fuel hw env h

      deadline : ℕ
      deadline = ticks env h + hw.timeout

      same : add64 (ticks env h % 2 ^ 64) hw.timeout ≡ deadline % 2 ^ 64
      same = omega arith

      h1 : History
      h1 = read hw.map csr_reg ∷ h

      h2 : ℕ → History
      h2 val = write hw.map csr_reg (bit_or val (bit 26)) ∷ h1

      t1 : ticks env h ≤ ticks env h1
      t1 = ticks-forward env (read hw.map csr_reg) h c

      t2 : (val : ℕ) → ticks env h1 ≤ ticks env (h2 val)
      t2 val = ticks-forward env (write hw.map csr_reg (bit_or val (bit 26))) h1 c

  -- Once the busy bit is clear, the status is 0 or one of two errors, also after a recovery.
  judge-Completes :
      (fuel : ℕ) (hw : Smb) (val : ℕ) (env : Env) (h : History)
      → Completes (recover_bus usecs_to_jiffies fuel hw env h)
      → Completes (judge usecs_to_jiffies fuel hw val env h)
  unfolding judge
  judge-Completes fuel hw val env h recovered =
      elim (Result-cases (recover_bus usecs_to_jiffies fuel hw env h).0) [
        | inl (u, e) ↦ ground arith
        | inr (x, e) ↦ ground (arith, recovered)
      ]

  poll_done-Completes :
      (spare fuel : ℕ) (hw : Smb) (deadline : ℕ) (env : Env) (h : History)
      → Clock env
      → FailsProperly env
      → Sleeps env
      → hw.timeout ≤ 2 ^ 60
      → hw.timeout + 2 ≤ spare
      → ticks env h ≤ deadline
      → deadline ≤ ticks env h + 2 ^ 61
      → deadline + 1 ≤ ticks env h + fuel
      → Completes (poll_done usecs_to_jiffies spare fuel hw (deadline % 2 ^ 64) env h)
  unfolding poll_done
  poll_done-Completes spare zero hw deadline env h c f s short room lo hi enough =
      absurd (omega arith)
  poll_done-Completes spare (suc fuel) hw deadline env h c f s short room lo hi enough =
      elim (Result-cases (env.read_answer h1 hw.map csr_reg)) [
        | inr (e, bad) ↦
            let step : run ≡ (err e, h2) = ground arith in
            subst⁻¹ Completes step (ground (arith, f.reads h1 hw.map csr_reg))
        | inl (val, good) ↦ elim (Bool-cases (has val 14)) [
          | inr idle ↦
              let step : run ≡ judge usecs_to_jiffies spare hw val env h2 = ground arith in
              subst⁻¹ Completes step (
                judge-Completes spare hw val env h2
                  (recover_bus-Completes spare hw env h2 c f s short room))
          | inl busy ↦ elim (Bool-cases (ltb deadline (ticks env h2))) [
            | inl late ↦
                let step : run ≡ (err etimedout, h2) = ground (arith, after) in
                subst⁻¹ Completes step (ground arith)
            | inr early ↦
                let step : run
                    ≡ poll_done usecs_to_jiffies spare fuel hw (deadline % 2 ^ 64) env h2 =
                  ground (arith, after) in
                let on_time : ticks env h2 ≤ deadline = ground arith in
                subst⁻¹ Completes step (
                  poll_done-Completes spare fuel hw deadline env h2 c f s short room on_time
                    (omega (arith, t1, t2)) (omega (arith, t1, t2)))
          ]
        ]
      ]
    where
      run : Done × History
      run = poll_done usecs_to_jiffies spare (suc fuel) hw (deadline % 2 ^ 64) env h

      h1 : History
      h1 = sleep (usecs_to_jiffies 100 * env.tick) ∷ h

      h2 : History
      h2 = read hw.map csr_reg ∷ h1

      t1 : ticks env h + usecs_to_jiffies 100 ≤ ticks env h1
      t1 = ticks-sleep env (usecs_to_jiffies 100) h c

      t2 : ticks env h1 ≤ ticks env h2
      t2 = ticks-forward env (read hw.map csr_reg) h1 c

      after : time_after (ticks env h2 % 2 ^ 64) (deadline % 2 ^ 64) ≡ ltb deadline (ticks env h2)
      after =
          time_after_lem (ticks env h2) deadline
            (omega (
              arith,
              c.prompt (sleep (usecs_to_jiffies 100 * env.tick)) h,
              c.prompt (read hw.map csr_reg) h1,
            ))
            (omega (arith, t1, t2))

  -- `cisco_fpga_i2c_wait_done` ends, the recovery of the bus that it may call included. While the clock
  -- keeps its laws, failing requests have negative statuses, the sleeps between two reads take a tick at
  -- least and 2 ^ 60 microseconds at most, and the timeout is 2 ^ 60 ticks at most: with two rounds more
  -- than the timeout has ticks as fuel it returns 0 or a negative status, whatever the registers answer.
  pub smb_wait_done-Completes :
      (fuel : ℕ) (hw : Smb) (env : Env) (h : History)
      → Clock env
      → FailsProperly env
      → Sleeps env
      → hw.timeout ≤ 2 ^ 60
      → hw.timeout + 2 ≤ fuel
      → Completes (smb_wait_done usecs_to_jiffies fuel hw env h)
  unfolding smb_wait_done
  smb_wait_done-Completes fuel hw env h c f s short enough =
      let deadline : ℕ = ticks env h + hw.timeout in
      let same : add64 (ticks env h % 2 ^ 64) hw.timeout ≡ deadline % 2 ^ 64 = omega arith in
      rw same (
        poll_done-Completes fuel fuel hw deadline env h c f s short enough (omega arith)
          (omega arith) (omega arith))
