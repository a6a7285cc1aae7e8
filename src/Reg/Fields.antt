-- ===== src/Reg/Fields.antt =====
-- The field accessors of drivers/cisco/reg_access.h. A register is a number below 2 ^ 32; `<<` is
-- cut to 32 bits where C stores the result in a `uint32_t`.
use cisco_8000_kernel_module.Common.{
  ℕ, ◌+◌, ◌-◌, ◌*◌, ◌/◌, ◌%◌, ◌^◌, ◌≤◌, ◌<◌, bit_and, bit_or, ◌==◌, if◌then◌else◌,
}

-- `U32_C(~0)`.
abbrev pub u32_max : ℕ
u32_max = 2 ^ 32 - 1

-- `~m` in a `uint32_t`.
abbrev pub not32 : ℕ → ℕ
not32 m = 2 ^ 32 - 1 - m

-- `x << n` and `x >> n` in a `uint32_t`.
abbrev pub shl32 : ℕ → ℕ → ℕ
shl32 x n = x * 2 ^ n % 2 ^ 32

abbrev pub shr32 : ℕ → ℕ → ℕ
shr32 x n = x / 2 ^ n

-- `BIT(n)`.
abbrev pub bit : ℕ → ℕ
bit n = 2 ^ n

-- The bit positions that a field's macro lists, `hi` and `lo`.
pub record Field : Type 0 where
  pub hi : ℕ
  pub lo : ℕ

abbrev pub field : ℕ → ℕ → Field
field hi lo = record { hi = hi; lo = lo }

-- A field of a 32-bit register. Outside these bounds C leaves the shifts undefined.
abbrev pub IsField : Field → Type 0
IsField f = (f.lo ≤ f.hi) × (f.hi < 32)

unfoldable pub reg_mask : ℕ → ℕ → ℕ
reg_mask hi lo =
    let width = (hi + 2 ^ 32 - lo + 1) % 2 ^ 32 in
    if width == 32 then u32_max else (2 ^ width - 1) % 2 ^ 32

unfoldable pub reg_mask_lo : ℕ → ℕ → ℕ
reg_mask_lo hi lo = shl32 (reg_mask hi lo) lo

unfoldable pub reg_get : ℕ → ℕ → ℕ → ℕ
reg_get d hi lo = bit_and (shr32 d lo) (reg_mask hi lo)

unfoldable pub reg_set : ℕ → ℕ → ℕ → ℕ
reg_set d hi lo = shl32 (bit_and d (reg_mask hi lo)) lo

unfoldable pub reg_replace : ℕ → ℕ → ℕ → ℕ → ℕ
reg_replace v d hi lo =
    let mask = reg_mask_lo hi lo in bit_or (bit_and v (not32 mask)) (bit_and (shl32 d lo) mask)

-- The macros `REG_GET`, `REG_SET`, `REG_REPLACE` and `REG_LIMIT`.
unfoldable pub get : Field → ℕ → ℕ
unfolding reg_get reg_mask
get f d = reg_get d f.hi f.lo

unfoldable pub put : Field → ℕ → ℕ
unfolding reg_set reg_mask
put f d = reg_set d f.hi f.lo

unfoldable pub replace : Field → ℕ → ℕ → ℕ
unfolding reg_replace reg_mask_lo reg_mask
replace f v d = reg_replace v d f.hi f.lo

unfoldable pub limit : Field → ℕ
limit f = 2 ^ (f.hi - f.lo + 1) % 2 ^ 64
