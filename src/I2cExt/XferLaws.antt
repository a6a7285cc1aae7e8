-- ===== src/I2cExt/XferLaws.antt =====
-- The retries of the I2C-EXT controller, and how its transfers report failures and program sizes.
use mathlib.Core.Path.{subst⁻¹}
use cisco_8000_kernel_module.Common.{
  take, drop, ℕ, zero, suc, ◌+◌, ◌-◌, ◌^◌, ◌≤◌, ◌<◌, ◌≡◌, ◌≢◌, refl, ap, ◌↔◌, ◌⊎◌, inl, inr, ◌∷◌,
  arith,
}
use cisco_8000_kernel_module.Env.{
  History, Done, Env, Clock, FailsProperly, Result-cases, write, sleep, ok, err,
}
use cisco_8000_kernel_module.Reg.{reg_set, reg_mask, get, put, get-put}
use cisco_8000_kernel_module.I2cExt.Regs.{
  cfg_reg, int_sts_reg, wdata_reg, cfg2_rdata_size, cfg2_wdata_size, hw_buf_size, Hw,
}
use cisco_8000_kernel_module.I2cExt.Access.{
  clear_intr_status, i2c_reset, wait_done, check_err, try_cfg, recover, retry, retryable_cfg,
  write_cfg2_retryable_cfg,
}
use cisco_8000_kernel_module.I2cExt.WaitLaws.{EnoughFuel, wait_done-ne_out}
use cisco_8000_kernel_module.I2cExt.Xfer.{
  word_of, cp_len, Copy, write_words, chunk_len, read_size, write_chunk,
}

-- What a recovery asks for: the reset bit is set, and after 33 ms cleared unless it could not be set;
-- then the three bits of the interrupt status are cleared.
abbrev pub recovered : Hw → Env → History → History
recovered hw env h = write hw.map 0x2c 0xe ∷ (elim (env.write_answer h hw.map 0x20 1) [
  | ok _ ↦ sleep 10 ∷ write hw.map 0x20 0 ∷ sleep 33000 ∷ write hw.map 0x20 1 ∷ h
  | err _ ↦ write hw.map 0x20 1 ∷ h
])

recover_lem : (hw : Hw) (env : Env) (h : History) → recover hw env h ≡ (ok tt, recovered hw env h)
unfolding recover i2c_reset clear_intr_status put reg_set reg_mask
recover_lem hw env h = elim (Result-cases (env.write_answer h hw.map 0x20 1)) [
  | inl (u, e) ↦ ground arith
  | inr (x, e) ↦ ground arith
]

-- `n` rounds of an access, each of which has failed and is followed by a recovery, from one history to
-- another.
abbrev pub Rounds : (History → Done × History) → Hw → Env → ℕ → History → History → Type 0
Rounds round hw env zero h h' = h' ≡ h
Rounds round hw env (suc n) h h' =
    (e : ℕ) × (h1 : History) × (round h ≡ (err e, h1))
    × (e ≢ 0)
    × Rounds round hw env n (recovered hw env h1) h'

-- What the retries come to: success, after some failed rounds but at most `left`; or the status of the
-- last round after `left` more.
abbrev pub Retried : (History → Done × History) → Hw → Env → ℕ → History → Done × History → Type 0
Retried round hw env left h (res, h') =
    ((n : ℕ) × (n ≤ left)
      × (h1 : History) × Rounds round hw env n h h1
      × (res ≡ ok tt)
      × (round h1 ≡ (ok tt, h')))
    ⊎ ((h1 : History) × Rounds round hw env left h h1
        × (e : ℕ) × (h2 : History) × (round h1 ≡ (err e, h2))
        × (e ≢ 0)
        × (res ≡ err e)
        × (h' ≡ recovered hw env h2))

-- A round ends by the code's own tests.
try_cfg-ne_out :
    (fuel : ℕ) (hw : Hw) (cfg n : ℕ) (env : Env) (h : History)
    → Clock env
    → FailsProperly env
    → EnoughFuel env hw fuel
    → (try_cfg fuel hw cfg n env h).0 ≢ err 0
unfolding try_cfg check_err
try_cfg-ne_out fuel hw cfg n env h c f enough =
    let h1 : History = write hw.map cfg_reg cfg ∷ h in
    elim (Result-cases (env.write_answer h hw.map cfg_reg cfg)) [
      | inr (e, bad) ↦ ground (arith, f.writes h hw.map cfg_reg cfg)
      | inl (u, good) ↦ elim (Result-cases (wait_done fuel hw n env h1).0) [
        | inr (e, bad) ↦ ground (arith, wait_done-ne_out fuel hw n env h1 c f enough)
        | inl (v, done) ↦ ground (arith, f.reads (wait_done fuel hw n env h1).1 hw.map int_sts_reg)
      ]
    ]

module _ (fuel : ℕ) (hw : Hw) (cfg n : ℕ) (env : Env)
    (proper : (h : History) → (try_cfg fuel hw cfg n env h).0 ≢ err 0) where
  abbrev round : History → Done × History
  round h = try_cfg fuel hw cfg n env h

  proper_status : (e : ℕ) (h h1 : History) → round h ≡ (err e, h1) → e ≢ 0
  proper_status e h h1 failed = ground (arith, proper h)

  one_more :
      (left e : ℕ) (h h1 : History) (r : Done × History)
      → round h ≡ (err e, h1)
      → Retried round hw env left (recovered hw env h1) r
      → Retried round hw env (suc left) h r
  one_more left e h h1 (res, h') failed (inl (m, few, h2, rounds, good, last)) =
      inl (suc m, omega arith, h2, (e, h1, failed, proper_status e h h1 failed, rounds), good, last)
  one_more left e h h1 (res, h') failed (inr (h2, rounds, x, h3, last, ne, bad, end)) =
      inr (h2, (e, h1, failed, proper_status e h h1 failed, rounds), x, h3, last, ne, bad, end)

  -- A last round.
  finish :
      (left : ℕ) (h h1 : History) (run : Done × History)
      → round h ≡ (ok tt, h1)
      → run ≡ (ok tt, h1)
      → Retried round hw env left h run
  finish left h h1 run good step =
      subst⁻¹ (Retried round hw env left h) step (inl (0, omega arith, h, refl, refl, good))

  retry-Retried :
      (left : ℕ) (h : History) → Retried round hw env left h (retry fuel left hw cfg n env h)
  unfolding retry
  retry-Retried zero h = elim (Result-cases (round h).0) [
    | inl (u, good) ↦
        finish 0 h (round h).1 (retry fuel 0 hw cfg n env h) (ground arith) (ground arith)
    | inr (x, bad) ↦
        let h1 : History = (round h).1 in
        let failed : round h ≡ (err x, h1) = ground arith in
        let step : retry fuel 0 hw cfg n env h ≡ (err x, recovered hw env h1) =
          ground (arith, recover_lem hw env h1) in
        subst⁻¹ (Retried round hw env 0 h) step
          (inr (h, refl, x, h1, failed, proper_status x h h1 failed, refl, refl))
  ]
  retry-Retried (suc left) h = elim (Result-cases (round h).0) [
    | inl (u, good) ↦
        finish (suc left) h (round h).1 (retry fuel (suc left) hw cfg n env h) (ground arith)
          (ground arith)
    | inr (x, bad) ↦
        let h1 : History = (round h).1 in
        let h2 : History = recovered hw env h1 in
        let failed : round h ≡ (err x, h1) = ground arith in
        let step : retry fuel (suc left) hw cfg n env h ≡ retry fuel left hw cfg n env h2 =
          ground (arith, recover_lem hw env h1) in
        subst⁻¹ (Retried round hw env (suc left) h) step
          (one_more left x h h1 (retry fuel left hw cfg n env h2) failed (retry-Retried left h2))
  ]

-- `_retryable_cfg` makes rounds of writing the configuration, waiting and checking for errors, and after
-- each one that fails it resets the controller and clears the three bits of its interrupt status,
-- whatever the reset came to. It ends in success with the first round that succeeds, after at most
-- `retries` failed ones, or with the status and the recovery of a last round after `retries` failed
-- ones; it makes no other request. The clock goes on, the bus's own failures have a status that is not
-- 0, and the fuel is enough for the adapter's timeout, so that each failed round has ended with a status
-- of the code or the bus.
pub retryable_cfg-Retried :
    (fuel : ℕ) (hw : Hw) (cfg n : ℕ) (env : Env) (h : History)
    → Clock env
    → FailsProperly env
    → EnoughFuel env hw fuel
    → Retried (try_cfg fuel hw cfg n env) hw env hw.retries h (retryable_cfg fuel hw cfg n env h)
unfolding retryable_cfg
retryable_cfg-Retried fuel hw cfg n env h c f enough =
    retry-Retried fuel hw cfg n env (λ h1. try_cfg-ne_out fuel hw cfg n env h1 c f enough)
      hw.retries h

write_words_failed :
    (fuel : ℕ) (hw : Hw) (s : Copy) (e : ℕ) (env : Env) (h : History)
    → 0 < fuel
    → 4 ≤ s.len
    → s.cfg_len ≡ s.len
    → s.len < 2 ^ 16
    → env.write_answer h hw.map (wdata_reg s.index) (word_of (take 4 s.buf)) ≡ err e
    → write_words fuel hw s env h ≡ (
      ok (record { len = s.len - 4; cfg_len = s.len - 4; index = s.index + 1; buf = drop 4 s.buf }),
      write hw.map (wdata_reg s.index) (word_of (take 4 s.buf)) ∷ h,
    )
unfolding write_words
write_words_failed zero hw s e env h f a b c bad = absurd (omega arith)
write_words_failed (suc fuel) hw s e env h f a b c bad =
    let cp : cp_len s.len s.cfg_len ≡ 4 = ground arith in
    ground (
      arith,
      cp,
      ap (λ n. env.write_answer h hw.map (wdata_reg s.index) (word_of (take n s.buf))) cp,
      ap (λ n. drop n s.buf) cp,
    )

-- The status of a data write is lost: if the first one of a pass fails and the configuration that
-- follows is accepted, the pass succeeds, and the message counts the word as sent.
pub write_chunk-loses_status :
    (fuel : ℕ) (hw : Hw) (cfg e : ℕ) (s : Copy) (env : Env) (h h' : History)
    → 4 ≤ s.len
    → s.len ≤ hw.bufsize
    → s.len < 2 ^ 16
    → env.write_answer h hw.map (wdata_reg 0) (word_of (take 4 s.buf)) ≡ err e
    → write_cfg2_retryable_cfg fuel hw cfg
        (put cfg2_wdata_size s.len)
        (s.len - 4)
        env
        (write hw.map (wdata_reg 0) (word_of (take 4 s.buf)) ∷ h)
      ≡ (ok tt, h')
    → ((write_chunk fuel hw cfg s env h).0
        ≡ ok (record { len = s.len - 4; cfg_len = s.len - 4; index = 1; buf = drop 4 s.buf }))
unfolding write_chunk
write_chunk-loses_status fuel hw cfg e s env h h' a b c bad good = ground (
  arith,
  write_words_failed s.len hw (record s { cfg_len = s.len; index = 0 }) e env h (omega arith)
      (omega arith) refl c bad,
)

-- The size that a read programs agrees with the number of bytes that the pass then fetches exactly
-- when the message fits 256 bytes or the buffer is no larger: with the 512-byte buffer of version 5 a
-- longer read asks the controller for 256 bytes and fetches more.
pub read_size-chunk_len :
    (hw : Hw) (len : ℕ)
    → hw_buf_size ≤ hw.bufsize
    → len < 2 ^ 11
    → (get cfg2_rdata_size (put cfg2_rdata_size (read_size len)) ≡ chunk_len hw len)
      ↔ ((len ≤ hw_buf_size) ⊎ (hw.bufsize ≡ hw_buf_size))
read_size-chunk_len hw len a b =
    ground (arith, get-put cfg2_rdata_size (read_size len) (omega arith))
