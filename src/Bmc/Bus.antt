-- ===== src/Bmc/Bus.antt =====
-- The regmap callbacks `_bmc_read` and `_bmc_write`, each of two messages with the bus locked. The
-- probe functions register with the kernel and are left out.
use cisco_8000_kernel_module.Common.{ℕ, ◌+◌, ◌/◌, ◌%◌, ◌^◌, bit_and, bit_or}
use cisco_8000_kernel_module.Env.{
  Bytes, Result, M, pure, lift, ◌>>=◌, ◌>>◌, attempt, i2c_send, i2c_receive, emit, eio, lock,
  unlock, ok, err,
}
use cisco_8000_kernel_module.Reg.{shl32}

-- `struct bmc_regmap`: the client's address, its adapter and the offset of the block.
pub record Bmc : Type 0 where
  pub addr : ℕ
  pub adapter : ℕ
  pub base : ℕ

-- The four assignments to `buf`, and the expression that puts the bytes together again.
unfoldable pub encode : ℕ → Bytes
encode w = record {
  byte0 = bit_and w 0xff;
  byte1 = bit_and (w / 2 ^ 8) 0xff;
  byte2 = bit_and (w / 2 ^ 16) 0xff;
  byte3 = bit_and (w / 2 ^ 24) 0xff;
}

unfoldable pub decode : Bytes → ℕ
decode b = bit_or (bit_or (bit_or b.byte0 (shl32 b.byte1 8)) (shl32 b.byte2 16)) (shl32 b.byte3 24)

-- `reg += bmc->base` on an `unsigned int`.
abbrev pub offset : Bmc → ℕ → ℕ
offset bmc reg = (reg + bmc.base) % 2 ^ 32

-- `ret < 1` gives -EIO.
abbrev pub or_eio : {A : Type 0} → Result A → Result A
or_eio (ok a) = ok a
or_eio (err _) = err eio

abbrev pub select : Bmc → ℕ → M (Unit {0})
select bmc reg = i2c_send (bmc.addr + 1) (encode (offset bmc reg))

unfoldable pub bmc_read : Bmc → ℕ → M ℕ
bmc_read bmc reg = do
  emit (lock bmc.adapter)
  r ← attempt (select bmc reg >> i2c_receive (bmc.addr + 5))
  emit (unlock bmc.adapter)
  b ← lift (or_eio r)
  pure (decode b)

unfoldable pub bmc_write : Bmc → ℕ → ℕ → M (Unit {0})
bmc_write bmc reg val = do
  emit (lock bmc.adapter)
  r ← attempt (select bmc reg >> i2c_send (bmc.addr + 5) (encode val))
  emit (unlock bmc.adapter)
  lift (or_eio r)
