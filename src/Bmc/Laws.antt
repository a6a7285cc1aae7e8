-- ===== src/Bmc/Laws.antt =====
-- The bytes of a word, and the messages and the lock of an access.

use cisco_8000_kernel_module.Common.{ℕ, ◌+◌, ◌*◌, ◌/◌, ◌%◌, ◌^◌, ◌<◌, bit_or, ◌≡◌, ◌∙◌, ◌∷◌, arith}
use cisco_8000_kernel_module.Env.{
  Bytes, History, Env, eio, transfer, receive, lock, unlock, ok, err,
}
use cisco_8000_kernel_module.Bits.{bit_and_mask, bit_or-add}
use cisco_8000_kernel_module.Reg.{shl32}
use cisco_8000_kernel_module.Bmc.Bus.{Bmc, encode, decode, bmc_read, bmc_write}

-- The four messages' bytes lie below 256.
pub record AreBytes (b : Bytes) : Type 0 where
  pub small0 : b.byte0 < 256
  pub small1 : b.byte1 < 256
  pub small2 : b.byte2 < 256
  pub small3 : b.byte3 < 256

decode_lem :
    (b : Bytes)
    → AreBytes b
    → decode b ≡ b.byte0 + b.byte1 * 2 ^ 8 + b.byte2 * 2 ^ 16 + b.byte3 * 2 ^ 24
unfolding decode
decode_lem b s =
    let m1 : shl32 b.byte1 8 ≡ b.byte1 * 2 ^ 8 = omega arith in
    let m2 : shl32 b.byte2 16 ≡ b.byte2 * 2 ^ 16 = omega arith in
    let m3 : shl32 b.byte3 24 ≡ b.byte3 * 2 ^ 24 = omega arith in
    let o1 : bit_or b.byte0 (b.byte1 * 2 ^ 8) ≡ b.byte0 + b.byte1 * 2 ^ 8 =
      bit_or-add b.byte0 b.byte1 8 (omega arith) (omega arith) in
    let o2 : bit_or (b.byte0 + b.byte1 * 2 ^ 8) (b.byte2 * 2 ^ 16)
        ≡ b.byte0 + b.byte1 * 2 ^ 8 + b.byte2 * 2 ^ 16 =
      bit_or-add (b.byte0 + b.byte1 * 2 ^ 8) b.byte2 16 (omega arith) (omega arith) in
    let o3 : bit_or (b.byte0 + b.byte1 * 2 ^ 8 + b.byte2 * 2 ^ 16) (b.byte3 * 2 ^ 24)
        ≡ b.byte0 + b.byte1 * 2 ^ 8 + b.byte2 * 2 ^ 16 + b.byte3 * 2 ^ 24 =
      bit_or-add (b.byte0 + b.byte1 * 2 ^ 8 + b.byte2 * 2 ^ 16) b.byte3 24 (omega arith)
        (omega arith) in
    rw (m1, m2, m3, o1, o2, o3)

encode_lem :
    (w : ℕ)
    → w < 2 ^ 32
    → encode w ≡ record {
      byte0 = w % 2 ^ 8;
      byte1 = w / 2 ^ 8 % 2 ^ 8;
      byte2 = w / 2 ^ 16 % 2 ^ 8;
      byte3 = w / 2 ^ 24 % 2 ^ 8;
    }
unfolding encode
encode_lem w p = rw (
  bit_and_mask w 8,
  bit_and_mask (w / 2 ^ 8) 8,
  bit_and_mask (w / 2 ^ 16) 8,
  bit_and_mask (w / 2 ^ 24) 8,
)

-- The bytes that are sent for a 32-bit word are bytes, and put together they are the word again.
pub decode-encode : (w : ℕ) → w < 2 ^ 32 → AreBytes (encode w) × (decode (encode w) ≡ w)
decode-encode w p = rw (encode_lem w p) (small, decode_lem parts small ∙ omega arith)
  where
    parts : Bytes
    parts = record {
      byte0 = w % 2 ^ 8;
      byte1 = w / 2 ^ 8 % 2 ^ 8;
      byte2 = w / 2 ^ 16 % 2 ^ 8;
      byte3 = w / 2 ^ 24 % 2 ^ 8;
    }

    small : AreBytes parts
    small = record {
      small0 = omega arith;
      small1 = omega arith;
      small2 = omega arith;
      small3 = omega arith;
    }

-- What `_bmc_read` does: it locks the bus, sends the register's offset to the address port, receives
-- from the data port unless sending failed, unlocks the bus whatever has failed, and returns the word
-- received, or -EIO in place of any failure.
pub bmc_read_lem :
    (bmc : Bmc) (reg : ℕ) (env : Env) (h : History)
    → (let h1 : History = lock bmc.adapter ∷ h in
        let b : Bytes = encode ((reg + bmc.base) % 2 ^ 32) in
        let h2 : History = transfer (bmc.addr + 1) b ∷ h1 in
        bmc_read bmc reg env h ≡ elim (env.transfer_answer h1 (bmc.addr + 1) b) [
          | err _ ↦ (err eio, unlock bmc.adapter ∷ h2)
          | ok _ ↦ elim (env.receive_answer h2 (bmc.addr + 5)) [
            | err _ ↦ (err eio, unlock bmc.adapter ∷ receive (bmc.addr + 5) ∷ h2)
            | ok w ↦ (ok (decode w), unlock bmc.adapter ∷ receive (bmc.addr + 5) ∷ h2)
          ]
        ])
unfolding bmc_read
bmc_read_lem bmc reg env h = ground arith

-- What `_bmc_write` does: it locks the bus, sends the register's offset to the address port and, unless
-- that failed, the value to the data port, unlocks the bus whatever has failed, and returns 0, or -EIO
-- in place of any failure.
pub bmc_write_lem :
    (bmc : Bmc) (reg val : ℕ) (env : Env) (h : History)
    → (let h1 : History = lock bmc.adapter ∷ h in
        let b : Bytes = encode ((reg + bmc.base) % 2 ^ 32) in
        let h2 : History = transfer (bmc.addr + 1) b ∷ h1 in
        let h3 : History = transfer (bmc.addr + 5) (encode val) ∷ h2 in
        bmc_write bmc reg val env h ≡ elim (env.transfer_answer h1 (bmc.addr + 1) b) [
          | err _ ↦ (err eio, unlock bmc.adapter ∷ h2)
          | ok _ ↦ elim (env.transfer_answer h2 (bmc.addr + 5) (encode val)) [
            | err _ ↦ (err eio, unlock bmc.adapter ∷ h3)
            | ok _ ↦ (ok tt, unlock bmc.adapter ∷ h3)
          ]
        ])
unfolding bmc_write
bmc_write_lem bmc reg val env h = ground arith
