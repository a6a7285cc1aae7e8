-- ===== src/Lattice.antt =====
-- The version of the CPLD that drivers/cisco/lattice_machx03.c shows.
use cisco_8000_kernel_module.Common.{◌/◌, ◌%◌, ◌^◌, ◌<◌, ℕ, ◌-◌, ◌≡◌, bit_and, arith}
use cisco_8000_kernel_module.Env.{Result, ok, err}
use cisco_8000_kernel_module.Arbitrate.State.{negated}

-- `i2c_smbus_read_word_data` returns an `int`, the word or a negative status, which is assigned to a
-- `uint16_t`.
unfoldable pub read_version : Result ℕ → ℕ
read_version (ok v) = v % 2 ^ 16
read_version (err e) = negated e % 2 ^ 16

-- `cpld_version_show`: the two numbers that it prints, the major version first, from the answer to the
-- read. The status of the write that selects the register is not looked at.
unfoldable pub cpld_version_show : Result ℕ → ℕ × ℕ
cpld_version_show answer =
    let version : ℕ = read_version answer in (bit_and version 0xff, bit_and (version / 2 ^ 8) 0xff)

-- A read that fails is shown as a version, the one of a chip whose word is the status in 16 bits.
pub cpld_version_show-err :
    (e : ℕ) → 0 < e → e < 2 ^ 15 → cpld_version_show (err e) ≡ cpld_version_show (ok (2 ^ 16 - e))
unfolding cpld_version_show read_version
cpld_version_show-err e p q = ground arith
