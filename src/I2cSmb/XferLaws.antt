-- ===== src/I2cSmb/XferLaws.antt =====
-- The lengths reported, and the clean-up after a transfer.
use mathlib.Core.Path.{subst⁻¹}
use cisco_8000_kernel_module.Common.{
  leb, if◌then◌else◌, lt→ltb, Bool-cases, ℕ, ◌+◌, ◌%◌, ◌^◌, ◌≤◌, ◌<◌, ◌≡◌, ap, inl, inr, true,
  false, not, ◌&&◌, Option, none, some, List, [], ◌∷◌, arith,
}
use cisco_8000_kernel_module.Env.{
  History, Result, Done, Env, M, pure, lift, ◌>>◌, regmap_write, einval, Result-cases, write, ok,
  err,
}
use cisco_8000_kernel_module.I2cExt.Regs.{i2c_m_recv_len, i2c_smbus_block_max, Msg}
use cisco_8000_kernel_module.I2cSmb.Wait.{ext0_reg, Smb, smb_wait_done}
use cisco_8000_kernel_module.I2cSmb.Xfer.{
  func_10bit_addr, has_flag, msglen, reads_back, is_long, accepts, receive_bytes, start,
  Transferred, transferred, complete, smb_xfer,
}

-- If the wait for the end of a long transfer fails, the EXT registers are still disabled, as the last
-- request, and the wait's status is returned unless that request fails too.
pub complete-smb_wait_done :
    (to_jiffies : ℕ → ℕ) (fuel : ℕ) (hw : Smb) (first : Msg) (second : Option Msg) (env : Env)
    (h : History) (e : ℕ) (h1 : History)
    → i2c_smbus_block_max ≤ msglen first second
    → smb_wait_done to_jiffies fuel hw env h ≡ (err e, h1)
    → complete to_jiffies fuel hw first second env h ≡ (
      elim (env.write_answer h1 hw.map ext0_reg 0) [ ok _ ↦ err e | err x ↦ err x ],
      write hw.map ext0_reg 0 ∷ h1,
    )
unfolding complete
complete-smb_wait_done to_jiffies fuel hw first second env h e h1 long failed = ground arith

-- The test of the first message's length sees only its lower 8 bits: 256 bytes more are accepted alike.
pub accepts-add :
    (hw : Smb) (first m : Msg)
    → accepts hw (record first { len = first.len + 256 }) (some m) ≡ accepts hw first (some m)
unfolding accepts
accepts-add hw first m =
    let same : (first.len + 256) % 2 ^ 8 ≡ first.len % 2 ^ 8 = omega arith in
    ap
      (λ t.
        not (not hw.ten_bit && has_flag first func_10bit_addr)
        && leb (msglen first (some m)) 511
        && leb t 31)
      same

-- A second message's length that is reported fits the controller's limit.
abbrev pub LenFits : Option Msg → Type 0
LenFits none = Unit {0}
LenFits (some m) = m.len ≤ 511

abbrev pub Reports : Result Transferred × History → Type 0
Reports (ok t, h) = LenFits t.second
Reports (err e, h) = Unit {0}

-- A length to which a block's can be added within 16 bits.
abbrev pub HasRoom : Option Msg → Type 0
HasRoom none = Unit {0}
HasRoom (some m) = m.len + i2c_smbus_block_max < 2 ^ 16

transferred-LenFits :
    (hw : Smb) (first : Msg) (second : Option Msg) (bytes : List ℕ)
    → HasRoom second
    → accepts hw first second ≡ true
    → LenFits (transferred first second bytes).second
unfolding accepts
transferred-LenFits hw first none bytes r a = tt
transferred-LenFits hw first (some m) bytes r a = elim (Bool-cases (has_flag m i2c_m_recv_len)) [
  | inl e ↦
      let sum : (m.len + i2c_smbus_block_max) % 2 ^ 16 ≡ m.len + i2c_smbus_block_max =
        omega arith in
      ground arith
  | inr e ↦ ground arith
]

-- The end of a transfer, once the bytes are there.
clean_up : Smb → Msg → Option Msg → Done → List ℕ → M Transferred
clean_up hw first second r bytes =
    (if is_long first second then regmap_write hw.map ext0_reg 0 else pure tt)
    >> (lift r >> pure (transferred first second bytes))

clean_up-Reports :
    (hw : Smb) (first : Msg) (second : Option Msg) (r : Done) (bytes : List ℕ) (env : Env)
    (h : History)
    → LenFits (transferred first second bytes).second
    → Reports (clean_up hw first second r bytes env h)
unfolding clean_up
clean_up-Reports hw first second (ok _) bytes env h fits =
    elim (Bool-cases (is_long first second)) [
      | inr e ↦
          let step : clean_up hw first second (ok tt) bytes env h
              ≡ (ok (transferred first second bytes), h) =
            ground arith in
          subst⁻¹ Reports step fits
      | inl e ↦ elim (Result-cases (env.write_answer h hw.map ext0_reg 0)) [
        | inr (x, bad) ↦
            let step : clean_up hw first second (ok tt) bytes env h
                ≡ (err x, write hw.map ext0_reg 0 ∷ h) =
              ground arith in
            subst⁻¹ Reports step tt
        | inl (u, good) ↦
            let step : clean_up hw first second (ok tt) bytes env h
                ≡ (ok (transferred first second bytes), write hw.map ext0_reg 0 ∷ h) =
              ground arith in
            subst⁻¹ Reports step fits
      ]
    ]
clean_up-Reports hw first second (err w) bytes env h fits =
    elim (Bool-cases (is_long first second)) [
      | inr e ↦
          let step : clean_up hw first second (err w) bytes env h ≡ (err w, h) = ground arith in
          subst⁻¹ Reports step tt
      | inl e ↦ elim (Result-cases (env.write_answer h hw.map ext0_reg 0)) [
        | inr (x, bad) ↦
            let step : clean_up hw first second (err w) bytes env h
                ≡ (err x, write hw.map ext0_reg 0 ∷ h) =
              ground arith in
            subst⁻¹ Reports step tt
        | inl (u, good) ↦
            let step : clean_up hw first second (err w) bytes env h
                ≡ (err w, write hw.map ext0_reg 0 ∷ h) =
              ground arith in
            subst⁻¹ Reports step tt
      ]
    ]

too_long :
    (hw : Smb) (first : Msg) (second : Option Msg)
    → 511 < msglen first second
    → accepts hw first second ≡ false
unfolding accepts
too_long hw first second long = ground (arith, lt→ltb 511 (msglen first second))

gathered :
    (x : Result (List ℕ) × History) (k : List ℕ → History → Result Transferred × History)
    → ((bytes : List ℕ) (h : History) → Reports (k bytes h))
    → Reports (elim x.0 [ ok bytes ↦ k bytes x.1 | err e ↦ (err e, x.1) ])
gathered (ok bytes, h) k all = all bytes h
gathered (err e, h) k all = tt

module _ (usecs_to_jiffies : ℕ → ℕ) where
  complete-Reports :
      (fuel : ℕ) (hw : Smb) (first : Msg) (second : Option Msg) (env : Env) (h : History)
      → HasRoom second
      → accepts hw first second ≡ true
      → Reports (complete usecs_to_jiffies fuel hw first second env h)
  unfolding complete clean_up
  complete-Reports fuel hw first second env h r a =
      gathered
        (gather (smb_wait_done usecs_to_jiffies fuel hw env h).0 env
          (smb_wait_done usecs_to_jiffies fuel hw env h).1)
        (λ bytes h'.
          clean_up hw first second (smb_wait_done usecs_to_jiffies fuel hw env h).0 bytes env h')
        (λ bytes h'.
          clean_up-Reports hw first second (smb_wait_done usecs_to_jiffies fuel hw env h).0 bytes
            env h' (transferred-LenFits hw first second bytes r a))
    where
      gather : Done → M (List ℕ)
      gather w = elim w [
        | ok _ ↦
            if reads_back first second
            then receive_bytes hw (is_long first second) (msglen first second) 0
            else pure []
        | err _ ↦ pure []
      ]

  -- If the length of the second message, when there is one, leaves room for a block's 32 bytes below
  -- 2 ^ 16: when a transfer succeeds, the length that its second message reports is at most 511, also
  -- when the device has sent a block's length; and a transfer whose counted length is more than 511 is
  -- refused before the first request. The counted length is the second message's, with the 32 bytes of
  -- a block if the device is to send its length, and the only message's if there is no second one; the
  -- length of the first of two messages is not part of it.
  pub smb_xfer-Reports :
      (fuel : ℕ) (hw : Smb) (first : Msg) (second : Option Msg) (env : Env) (h : History)
      → HasRoom second
      → Reports (smb_xfer usecs_to_jiffies fuel hw first second env h)
        × (511 < msglen first second
            → smb_xfer usecs_to_jiffies fuel hw first second env h ≡ (err einval, h))
  unfolding smb_xfer
  smb_xfer-Reports fuel hw first second env h r = (reported, refused)
    where
      run : Result Transferred × History
      run = smb_xfer usecs_to_jiffies fuel hw first second env h

      reported : Reports run
      reported = elim (Bool-cases (accepts hw first second)) [
        | inr e ↦ let step : run ≡ (err einval, h) = ground arith in subst⁻¹ Reports step tt
        | inl e ↦ elim (Result-cases (start hw first second env h).0) [
          | inr (x, bad) ↦
              let step : run ≡ (err x, (start hw first second env h).1) = ground arith in
              subst⁻¹ Reports step tt
          | inl (u, good) ↦
              let step : run
                  ≡ complete usecs_to_jiffies fuel hw first second env
                      (start hw first second env h).1 =
                ground arith in
              subst⁻¹ Reports step
                (complete-Reports fuel hw first second env (start hw first second env h).1 r e)
        ]
      ]

      refused : 511 < msglen first second → run ≡ (err einval, h)
      refused long =
          let closed : accepts hw first second ≡ false = too_long hw first second long in
          ground arith
