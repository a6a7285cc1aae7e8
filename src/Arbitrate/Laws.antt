-- ===== src/Arbitrate/Laws.antt =====
-- When arbitration disputes the bus, that obtaining it ends, and what releasing it does.
use mathlib.Core.Path.{subst⁻¹}
use cisco_8000_kernel_module.Common.{
  ◌==◌, if◌then◌else◌, Bool-cases, ℕ, ◌+◌, ◌-◌, ◌%◌, ◌^◌, ◌≤◌, ◌≡◌, inl, inr, Bool, false, not,
  ◌&&◌, none, some, ◌∷◌, map, arith,
}
use cisco_8000_kernel_module.Env.{
  History, Result, Env, pure, ◌>>=◌, ticks, jiffies, add64, Clock, enodev, Result-cases, read,
  write, unlock, ok, err,
}
use cisco_8000_kernel_module.Arbitrate.State.{Arb, bump, arbi, negated, is_negative}
use cisco_8000_kernel_module.Arbitrate.Bus.{
  write_arb, read_peer, await_grant, record_wait, settle, dispute, obtain_arbitration,
  release_arbitration, arb_unlock_bus,
}
use cisco_8000_kernel_module.Arbitrate.Grant.{
  arb_history, arb_bits, counted, read_arb_lem, IsTimed, SameCounts, Awaits, await_grant-Awaits,
}

-- The history and the state after `write_arb`.
abbrev pub clear_history : Arb → History → History
clear_history hw h = elim hw.info_map [ none ↦ h | some map ↦ write map (arbi hw.index) 0 ∷ h ]

abbrev pub clear_bits : Arb → Env → History → ℕ
clear_bits hw env h = elim hw.info_map [
  | none ↦ negated enodev
  | some map ↦ elim (env.write_answer h map (arbi hw.index) 0) [ ok _ ↦ 0 | err x ↦ negated x ]
]

abbrev pub cleared : Arb → ℕ → Arb
cleared hw e = if is_negative e then record hw { write_arb_err = bump hw.write_arb_err } else hw

pub write_arb_lem :
    (hw : Arb) (env : Env) (h : History)
    → write_arb hw env h
      ≡ (ok (clear_bits hw env h, cleared hw (clear_bits hw env h)), clear_history hw h)
unfolding write_arb
write_arb_lem hw env h = ground arith

-- A run that completes, with the two counters as they were.
abbrev pub Keeps : Arb → Result Arb × History → Type 0
Keeps hw (ok hw', h) = SameCounts hw hw'
Keeps hw (err e, h) = ⊥

Keeps-trans :
    (hw hw' : Arb) (r : Result Arb × History) → SameCounts hw hw' → Keeps hw' r → Keeps hw r
Keeps-trans hw hw' (ok hw'', h) a b = ground arith
Keeps-trans hw hw' (err e, h) a b = b

-- What the first two reads of `obtain_arbitration` show: whether the peer asks for the bus (an
-- unreadable request counts as none), and the arbitration register's bits (an unreadable one gives
-- the bits of a negative status, which are not 0).
abbrev pub peer_asks : Arb → Env → History → Bool
peer_asks hw env h = elim (env.read_answer h hw.map hw.peer) [ ok v ↦ not (v == 0) | err _ ↦ false ]

abbrev pub is_free : Arb → Env → History → Bool
is_free hw env h = not (peer_asks hw env h) && arb_bits hw env (read hw.map hw.peer ∷ h) == 0

-- The answer to the read of the arbitration register, which an adapter without its map has not.
abbrev pub arb_answer : Arb → Env → History → Result ℕ
arb_answer hw env h = elim hw.info_map [
  | none ↦ err enodev
  | some map ↦ env.read_answer h map (arbi hw.index)
]

-- What two registers that can be read say of the bus.
abbrev pub Tells : Bool → Result ℕ → Result ℕ → Type 0
Tells free (ok peer) (ok arb) = free ≡ (peer == 0 && arb == 0)
Tells free (ok peer) (err e) = Unit
Tells free (err e) a = Unit

is_free-Tells :
    (hw : Arb) (env : Env) (h : History)
    → Tells
        (is_free hw env h)
        (env.read_answer h hw.map hw.peer)
        (arb_answer hw env (read hw.map hw.peer ∷ h))
is_free-Tells hw env h = ground arith

-- What `obtain_arbitration` has counted.
abbrev pub Obtains : Bool → Arb → Result Arb × History → Type 0
Obtains free hw (ok hw', h) =
    (hw'.undisputed ≡ (if free then bump hw.undisputed else hw.undisputed))
    × (hw'.disputed ≡ (if free then hw.disputed else bump hw.disputed))
Obtains free hw (err e, h) = ⊥

module _ (to_msecs : ℕ → ℕ) where
  statistics_same :
      (last n : ℕ) (hw : Arb)
      → SameCounts hw
          (if last == 0 then record_wait n hw else record hw { expires = bump hw.expires })
  statistics_same last n hw = ground arith

  settle-Keeps :
      (fuel : ℕ) (hw : Arb) (env : Env) (h : History)
      → Clock env
      → IsTimed env hw
      → hw.timeout_jiffies + 2 ≤ fuel
      → Keeps hw (settle to_msecs fuel hw env h)
  unfolding settle
  settle-Keeps fuel hw env h c t f =
      rw same (finish (await_grant fuel hw.peer_grant_jiffies (deadline % 2 ^ 64) hw env h) waits)
    where
      deadline : ℕ
      deadline = ticks env h + hw.timeout_jiffies

      same : add64 (ticks env h % 2 ^ 64) hw.timeout_jiffies ≡ deadline % 2 ^ 64
      same = omega arith

      waits : Awaits hw (await_grant fuel hw.peer_grant_jiffies (deadline % 2 ^ 64) hw env h)
      waits =
          await_grant-Awaits fuel hw.peer_grant_jiffies deadline hw env h c t (omega arith)
            (omega arith) (omega arith) (omega arith) (omega arith)

      finish :
          (r : Result (ℕ × Arb) × History)
          → Awaits hw r
          → Keeps hw (
              let (a, h') = r in
              elim a [
                | ok p ↦
                    (jiffies >>= λ now. pure (
                        if p.0 == 0
                        then record_wait
                            (to_msecs ((now + 2 ^ 64 - ticks env h % 2 ^ 64) % 2 ^ 64))
                            p.1
                        else record p.1 { expires = bump p.1.expires }))
                      env h'
                | err e ↦ (err e, h')
              ])
      finish (ok (last, hw'), h') a = ground (
        arith,
        statistics_same last
            (to_msecs ((ticks env h' % 2 ^ 64 + 2 ^ 64 - ticks env h % 2 ^ 64) % 2 ^ 64)) hw',
      )
      finish (err e, h') a = a

  dispute-Keeps :
      (fuel arb : ℕ) (hw : Arb) (env : Env) (h : History)
      → Clock env
      → IsTimed env hw
      → hw.timeout_jiffies + 2 ≤ fuel
      → Keeps hw (dispute to_msecs fuel arb hw env h)
  unfolding dispute
  dispute-Keeps fuel arb hw env h c t f =
      elim (Result-cases (env.write_answer h hw.map hw.local 1)) [
        | inr (e, bad) ↦
            let step : run ≡ (ok (record hw { write_local_err = bump hw.write_local_err }), h1) =
              ground arith in
            subst⁻¹ (Keeps hw) step (ground arith)
        | inl (u, good) ↦ elim (Bool-cases (arb == 0)) [
          | inl free ↦
              let step : run ≡ settle to_msecs fuel hw' env (clear_history hw h1) =
                ground (arith, write_arb_lem hw env h1) in
              subst⁻¹ (Keeps hw) step (
                Keeps-trans hw hw' (settle to_msecs fuel hw' env (clear_history hw h1))
                  (ground arith)
                  (settle-Keeps fuel hw' env (clear_history hw h1) c (ground arith) (ground arith)))
          | inr taken ↦
              let step : run ≡ settle to_msecs fuel hw env h1 = ground arith in
              subst⁻¹ (Keeps hw) step (settle-Keeps fuel hw env h1 c t f)
        ]
      ]
    where
      run : Result Arb × History
      run = dispute to_msecs fuel arb hw env h

      h1 : History
      h1 = write hw.map hw.local 1 ∷ h

      hw' : Arb
      hw' = cleared hw (clear_bits hw env h1)

  obtain_arbitration-is_free :
      (fuel : ℕ) (hw : Arb) (env : Env) (h : History)
      → Clock env
      → IsTimed env hw
      → hw.timeout_jiffies + 2 ≤ fuel
      → Obtains (is_free hw env h) hw (obtain_arbitration to_msecs fuel hw env h)
  unfolding obtain_arbitration read_peer
  obtain_arbitration-is_free fuel hw env h c t f = elim (Bool-cases (is_free hw env h)) [
    | inl free ↦
        let step : run ≡ (ok (record hw2 { undisputed = bump hw2.undisputed }), h2) =
          ground (arith, read_arb_lem hw1 env h1) in
        subst⁻¹ (Obtains (is_free hw env h) hw) step (ground arith)
    | inr taken ↦
        let step : run ≡ dispute to_msecs fuel bits hw3 env h2 =
          ground (arith, read_arb_lem hw1 env h1) in
        subst⁻¹ (Obtains (is_free hw env h) hw) step (
          disputed_counts (is_free hw env h) (dispute to_msecs fuel bits hw3 env h2) taken
            (dispute-Keeps fuel bits hw3 env h2 c (ground arith) (ground arith)))
  ]
    where
      run : Result Arb × History
      run = obtain_arbitration to_msecs fuel hw env h

      h1 : History
      h1 = read hw.map hw.peer ∷ h

      hw1 : Arb
      hw1 = elim (env.read_answer h hw.map hw.peer) [
        | ok v ↦ hw
        | err _ ↦ record hw { read_peer_err = bump hw.read_peer_err }
      ]

      bits : ℕ
      bits = arb_bits hw1 env h1

      hw2 : Arb
      hw2 = counted hw1 bits

      h2 : History
      h2 = arb_history hw1 h1

      hw3 : Arb
      hw3 = record hw2 { disputed = bump hw2.disputed }

      disputed_counts :
          (free : Bool) (r : Result Arb × History) → free ≡ false → Keeps hw3 r → Obtains free hw r
      disputed_counts free (ok hw', h') e k = ground arith
      disputed_counts free (err x, h') e k = k

  -- With a clock that goes on, times within its range and two rounds more fuel than the timeout has
  -- ticks, `obtain_arbitration` returns, and it has counted one undisputed or one disputed taking of the
  -- bus and not the other. If both of its first two reads succeed, it is an undisputed one exactly if the
  -- peer's request and the arbitration register were read as 0.
  pub obtain_arbitration-Obtains :
      (fuel : ℕ) (hw : Arb) (env : Env) (h : History)
      → Clock env
      → IsTimed env hw
      → hw.timeout_jiffies + 2 ≤ fuel
      → (free : Bool) × Obtains free hw (obtain_arbitration to_msecs fuel hw env h)
        × Tells free
            (env.read_answer h hw.map hw.peer)
            (arb_answer hw env (read hw.map hw.peer ∷ h))
  obtain_arbitration-Obtains fuel hw env h c t f =
      (is_free hw env h, obtain_arbitration-is_free fuel hw env h c t f, is_free-Tells hw env h)

-- `release_arbitration` and `arb_unlock_bus` withdraw the local request, clear the arbitration register
-- whether or not the first write succeeds, unlock the bus last, and never fail.
pub arb_unlock_bus_lem :
    (hw : Arb) (env : Env) (h : History)
    → (hw' : Arb) × (arb_unlock_bus hw env h
        ≡ (ok hw', unlock hw.bus_lock ∷ clear_history hw (write hw.map hw.local 0 ∷ h)))
      × (hw'.write_local_err ≡ elim (env.write_answer h hw.map hw.local 0) [
        | ok _ ↦ hw.write_local_err
        | err _ ↦ bump hw.write_local_err
      ])
unfolding arb_unlock_bus release_arbitration
arb_unlock_bus_lem hw env h =
    let h1 : History = write hw.map hw.local 0 ∷ h in
    let hw' : Arb = cleared hw (clear_bits hw env h1) in
    elim (Result-cases (env.write_answer h hw.map hw.local 0)) [
      | inl (u, good) ↦ (hw', ground (arith, write_arb_lem hw env h1), ground arith)
      | inr (e, bad) ↦ (
        record hw' { write_local_err = bump hw'.write_local_err },
        ground (arith, write_arb_lem hw env h1),
        ground arith,
      )
    ]
