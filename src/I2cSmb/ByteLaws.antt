-- ===== src/I2cSmb/ByteLaws.antt =====
-- The bytes sent and received.
use mathlib.Core.Path.{subst⁻¹}
use cisco_8000_kernel_module.Common.{
  if◌then◌else◌, length, ℕ, zero, suc, ◌+◌, ◌<◌, bit_and, bit_or, ◌≡◌, refl, inl, inr, Bool, true,
  false, List, [], ◌∷◌, map, arith,
}
use cisco_8000_kernel_module.Env.{History, Result, Env, Result-cases, read, write, sleep, ok, err}
use cisco_8000_kernel_module.Bits.{bit_and_mask}
use cisco_8000_kernel_module.Reg.{shl32, bit}
use cisco_8000_kernel_module.I2cSmb.Wait.{txbuf_reg, rxbuf_reg, ext1_reg, Smb}
use cisco_8000_kernel_module.I2cSmb.Xfer.{send_bytes, receive_bytes}

-- Numbers that fit a byte, and a list of `n` of them as the outcome of a run.
abbrev pub AllBytes : List ℕ → Type 0
AllBytes [] = Unit {0}
AllBytes (b ∷ bs) = (b < 256) × AllBytes bs

abbrev pub Received : ℕ → Result (List ℕ) × History → Type 0
Received n (ok bs, h) = (length bs ≡ n) × AllBytes bs
Received n (err e, h) = Unit {0}

next_byte :
    (n v : ℕ) (r : Result (List ℕ) × History)
    → Received n r
    → Received (suc n) (elim r.0 [ ok bs ↦ (ok (bit_and v 0xff ∷ bs), r.1) | err e ↦ (err e, r.1) ])
next_byte n v (ok bs, h) p =
    (omega (arith, p.0), (subst⁻¹ (λ t. t < 256) (bit_and_mask v 8) (omega arith), p.1))
next_byte n v (err e, h) p = tt

-- The receive loop returns as many bytes as it is asked for, all below 256, unless a request fails.
pub receive_bytes-Received :
    (n : ℕ) (hw : Smb) (ext : Bool) (i : ℕ) (env : Env) (h : History)
    → Received n (receive_bytes hw ext n i env h)
unfolding receive_bytes
receive_bytes-Received zero hw ext i env h = (refl, tt)
receive_bytes-Received (suc n) hw ext i env h =
    elim (Result-cases (env.write_answer h hw.map reg value)) [
      | inr (e, bad) ↦
          let step : run ≡ (err e, h1) = ground arith in subst⁻¹ (Received (suc n)) step tt
      | inl (u, good) ↦ elim (Result-cases (env.read_answer h2 hw.map rxbuf_reg)) [
        | inr (e, bad) ↦
            let step : run ≡ (err e, h3) = ground arith in subst⁻¹ (Received (suc n)) step tt
        | inl (v, well) ↦
            let step : run ≡ next v = ground arith in
            subst⁻¹ (Received (suc n)) step (
              next_byte n v (receive_bytes hw ext n (i + 1) env h3)
                (receive_bytes-Received n hw ext (i + 1) env h3))
      ]
    ]
  where
    run : Result (List ℕ) × History
    run = receive_bytes hw ext (suc n) i env h

    reg : ℕ
    reg = if ext then ext1_reg else rxbuf_reg

    value : ℕ
    value = if ext then i else shl32 i 8

    h1 : History
    h1 = write hw.map reg value ∷ h

    h2 : History
    h2 = sleep 100 ∷ h1

    h3 : History
    h3 = read hw.map rxbuf_reg ∷ h2

    next : ℕ → Result (List ℕ) × History
    next v =
        let r = receive_bytes hw ext n (i + 1) env h3 in
        elim r.0 [ ok bs ↦ (ok (bit_and v 0xff ∷ bs), r.1) | err e ↦ (err e, r.1) ]

-- The requests of the transmit loop for these bytes, over the history before it.
abbrev pub bytes_sent : ℕ → Bool → ℕ → List ℕ → History → History
bytes_sent map ext i [] h = h
bytes_sent map true i (b ∷ bs) h =
    bytes_sent map true (i + 1) bs
      (write map txbuf_reg (bit_or (bit 13) b) ∷ write map ext1_reg (shl32 i 16) ∷ h)
bytes_sent map false i (b ∷ bs) h =
    bytes_sent map false (i + 1) bs
      (write map txbuf_reg (bit_or (bit_or (bit 13) b) (shl32 i 8)) ∷ h)

-- While writes succeed, the transmit loop puts every byte at its position in the buffer, in order: with
-- the EXT registers by writing the position first, and otherwise within the same word.
pub send_bytes_lem :
    (hw : Smb) (ext : Bool) (i : ℕ) (bs : List ℕ) (env : Env) (h : History)
    → ((h' : History) (map reg v : ℕ) → env.write_answer h' map reg v ≡ ok tt)
    → send_bytes hw ext i bs env h ≡ (ok tt, bytes_sent hw.map ext i bs h)
unfolding send_bytes
send_bytes_lem hw ext i [] env h w = refl
send_bytes_lem hw true i (b ∷ bs) env h w = ground (
  arith,
  w h hw.map ext1_reg (shl32 i 16),
  w (write hw.map ext1_reg (shl32 i 16) ∷ h) hw.map txbuf_reg (bit_or (bit 13) b),
  send_bytes_lem hw true (i + 1) bs env
      (write hw.map txbuf_reg (bit_or (bit 13) b) ∷ write hw.map ext1_reg (shl32 i 16) ∷ h) w,
)
send_bytes_lem hw false i (b ∷ bs) env h w = ground (
  arith,
  w h hw.map txbuf_reg (bit_or (bit_or (bit 13) b) (shl32 i 8)),
  send_bytes_lem hw false (i + 1) bs env
      (write hw.map txbuf_reg (bit_or (bit_or (bit 13) b) (shl32 i 8)) ∷ h) w,
)
