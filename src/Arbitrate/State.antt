-- ===== src/Arbitrate/State.antt =====
-- `struct cisco_i2c_arbitrate` of drivers/cisco/i2c-arbitrate.h, and its counters.
use cisco_8000_kernel_module.Common.{leb, ℕ, ◌+◌, ◌-◌, ◌*◌, ◌%◌, ◌^◌, Bool, Option}

-- The fields that arbitration uses, with the regmap of the adapter, the regmap of the information
-- block (`dev_get_regmap(hw->arb.info, NULL)`, if there is one) and the bus lock.
pub record Arb : Type 0 where
  pub map : ℕ
  pub info_map : Option ℕ
  pub bus_lock : ℕ
  pub peer : ℕ
  pub local : ℕ
  pub index : ℕ
  pub timeout_msecs : ℕ
  pub peer_grant_msecs : ℕ
  pub peer_retry_msecs : ℕ
  pub timeout_jiffies : ℕ
  pub peer_grant_jiffies : ℕ
  pub peer_retry_jiffies : ℕ
  pub disputed : ℕ
  pub undisputed : ℕ
  pub write_local_err : ℕ
  pub read_peer_err : ℕ
  pub read_arb_err : ℕ
  pub write_arb_err : ℕ
  pub expires : ℕ
  pub total_wait_msecs : ℕ
  pub max_wait_msecs : ℕ
  pub min_wait_msecs : ℕ

-- `++` on a `u64`.
abbrev pub bump : ℕ → ℕ
bump n = (n + 1) % 2 ^ 64

-- The register `arbi[index]` of the information block.
abbrev pub arbi : ℕ → ℕ
arbi index = 0x500 + 4 * index

-- A status or a value as the bits of a 32-bit integer, and the test `e < 0` on it.
abbrev pub negated : ℕ → ℕ
negated e = (2 ^ 32 - e % 2 ^ 32) % 2 ^ 32

abbrev pub is_negative : ℕ → Bool
is_negative e = leb (2 ^ 31) e
