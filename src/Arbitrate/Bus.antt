-- ===== src/Arbitrate/Bus.antt =====
-- Obtaining and releasing the bus, and the lock operations of the adapters.
use cisco_8000_kernel_module.Common.{
  ◌==◌, if◌then◌else◌, ℕ, zero, suc, ◌+◌, ◌-◌, ◌%◌, ◌^◌, min, max, Bool, true, false, not, ◌&&◌,
  Option, none, some, map,
}
use cisco_8000_kernel_module.Env.{
  Result, M, pure, ◌>>=◌, ◌>>◌, attempt, regmap_read, regmap_write, emit, jiffies, schedule_timeout,
  add64, time_before_eq, out_of_fuel, enodev, lock, unlock, ok, err,
}
use cisco_8000_kernel_module.Arbitrate.State.{Arb, bump, arbi, negated, is_negative}

-- `dev_get_regmap` on the information block, then the access; without a regmap -ENODEV.
unfoldable pub access : {A : Type 0} → Option ℕ → (ℕ → M A) → M (Result A)
access none request = pure (err enodev)
access (some map) request = attempt (request map)

-- `read_arb`: the bits of the `int` that it returns, a negative status or the register's value.
unfoldable pub read_arb : Arb → M (ℕ × Arb)
unfolding access
read_arb hw = do
  r ← access hw.info_map (λ map. regmap_read map (arbi hw.index))
  let e : ℕ = elim r [ ok v ↦ v | err x ↦ negated x ]
  pure (e, if is_negative e then record hw { read_arb_err = bump hw.read_arb_err } else hw)

-- `write_arb`.
unfoldable pub write_arb : Arb → M (ℕ × Arb)
unfolding access
write_arb hw = do
  r ← access hw.info_map (λ map. regmap_write map (arbi hw.index) 0)
  let e : ℕ = elim r [ ok _ ↦ 0 | err x ↦ negated x ]
  pure (e, if is_negative e then record hw { write_arb_err = bump hw.write_arb_err } else hw)

-- The first reads of `obtain_arbitration`: the peer's request, 0 if it cannot be read.
unfoldable pub read_peer : Arb → M (ℕ × Arb)
read_peer hw = do
  r ← attempt (regmap_read hw.map hw.peer)
  elim r [
    | ok v ↦ pure (v, hw)
    | err _ ↦ pure (0, record hw { read_peer_err = bump hw.read_peer_err })
  ]

-- The loop of `obtain_arbitration`: the last value of `arb`.
unfoldable pub await_grant : ℕ → ℕ → ℕ → Arb → M (ℕ × Arb)
await_grant zero timeout expires hw = out_of_fuel
await_grant (suc fuel) timeout expires hw = do
  schedule_timeout timeout
  (arb, hw') ← read_arb hw
  now ← jiffies
  elim (not (arb == 0) && time_before_eq now expires) [
    | true ↦ await_grant fuel hw.peer_retry_jiffies expires hw'
    | false ↦ pure (arb, hw')
  ]

-- The statistics after a grant that took `msecs`.
abbrev pub record_wait : ℕ → Arb → Arb
record_wait msecs hw = if msecs == 0 then hw else record hw {
  total_wait_msecs = (hw.total_wait_msecs + msecs) % 2 ^ 64;
  max_wait_msecs = max hw.max_wait_msecs msecs;
  min_wait_msecs = min hw.min_wait_msecs msecs;
}

-- `to_msecs` is the kernel's `jiffies_delta_to_msecs`.
module _ (to_msecs : ℕ → ℕ) where
  -- The last part of `obtain_arbitration`: the wait and its statistics.
  unfoldable pub settle : ℕ → Arb → M Arb
  settle fuel hw = do
    start ← jiffies
    (last, hw') ← await_grant fuel hw.peer_grant_jiffies (add64 start hw.timeout_jiffies) hw
    now ← jiffies
    pure (
        if last == 0
        then record_wait (to_msecs ((now + 2 ^ 64 - start) % 2 ^ 64)) hw'
        else record hw' { expires = bump hw'.expires })

  -- `obtain_arbitration` from the request on.
  unfoldable pub dispute : ℕ → ℕ → Arb → M Arb
  dispute fuel arb hw = do
    e ← attempt (regmap_write hw.map hw.local 1)
    elim e [
      | err _ ↦ pure (record hw { write_local_err = bump hw.write_local_err })
      | ok _ ↦ do (_, hw') ← (if arb == 0 then write_arb hw else pure (arb, hw)); settle fuel hw'
    ]

  -- `obtain_arbitration`. `arb` is unsigned there, so `arb <= 0` is a test for 0, and the test
  -- `arb < 0` after `write_arb` never passes.
  unfoldable pub obtain_arbitration : ℕ → Arb → M Arb
  obtain_arbitration fuel hw = do
    (peer, hw1) ← read_peer hw
    (arb, hw2) ← read_arb hw1
    elim (arb == 0 && peer == 0) [
      | true ↦ pure (record hw2 { undisputed = bump hw2.undisputed })
      | false ↦ dispute fuel arb (record hw2 { disputed = bump hw2.disputed })
    ]

  -- `arb_lock_bus`, and `arb_trylock_bus` with the answer of `rt_mutex_trylock`.
  unfoldable pub arb_lock_bus : ℕ → Arb → M Arb
  arb_lock_bus fuel hw = do emit (lock hw.bus_lock); obtain_arbitration fuel hw

  unfoldable pub arb_trylock_bus : Bool → ℕ → Arb → M (Bool × Arb)
  arb_trylock_bus taken fuel hw = elim taken [
    | true ↦ do emit (lock hw.bus_lock); hw' ← obtain_arbitration fuel hw; pure (true, hw')
    | false ↦ pure (false, hw)
  ]

-- `release_arbitration`.
unfoldable pub release_arbitration : Arb → M Arb
release_arbitration hw = do
  e ← attempt (regmap_write hw.map hw.local 0)
  (_, hw') ← write_arb hw
  elim e [
    | ok _ ↦ pure hw'
    | err _ ↦ pure (record hw' { write_local_err = bump hw'.write_local_err })
  ]

-- `arb_unlock_bus`.
unfoldable pub arb_unlock_bus : Arb → M Arb
arb_unlock_bus hw = do hw' ← release_arbitration hw; emit (unlock hw.bus_lock); pure hw'

-- `noarb_lock_bus`, `noarb_trylock_bus` and `noarb_unlock_bus`.
unfoldable pub noarb_lock_bus : Arb → M (Unit {0})
noarb_lock_bus hw = emit (lock hw.bus_lock)

unfoldable pub noarb_trylock_bus : Bool → Arb → M Bool
noarb_trylock_bus taken hw = elim taken [
  | true ↦ emit (lock hw.bus_lock) >> pure true
  | false ↦ pure false
]

unfoldable pub noarb_unlock_bus : Arb → M (Unit {0})
noarb_unlock_bus hw = emit (unlock hw.bus_lock)
