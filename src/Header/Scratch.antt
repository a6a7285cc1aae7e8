-- ===== src/Header/Scratch.antt =====
-- The attributes of the header in drivers/cisco/hdr.c: its id and version, and the 64-bit scratch
-- register with the commands that its store handler accepts.
use cisco_8000_kernel_module.Common.{
  ltb, ◌==◌, if◌then◌else◌, ℕ, ◌+◌, ◌-◌, ◌*◌, ◌/◌, ◌%◌, ◌^◌, bit_and, bit_or, bit_xor, Bool, ◌&&◌,
  Option, none, some, map,
}
use cisco_8000_kernel_module.Env.{
  M, pure, fail, ◌>>=◌, ◌>>◌, regmap_read, regmap_write, enxio, einval,
}
use cisco_8000_kernel_module.Reg.{Field, field, get}

-- The offsets of `struct regblk_hdr_t`.
abbrev pub info0_reg : ℕ
info0_reg = 0x00

abbrev pub info1_reg : ℕ
info1_reg = 0x04

abbrev pub sw0_reg : ℕ
sw0_reg = 0x08

abbrev pub magic_reg : ℕ
magic_reg = 0x10

abbrev pub info0_id : Field
info0_id = field 13 6

abbrev pub info0_major_ver : Field
info0_major_ver = field 5 0

abbrev pub info1_minor_ver : Field
info1_minor_ver = field 4 0

-- The number that `_block_id_fmt` prints, and the two that `_version_fmt` prints.
unfoldable pub block_id : ℕ → ℕ
block_id info0 = get info0_id info0

unfoldable pub version : ℕ → ℕ → ℕ × ℕ
version info0 info1 = (get info0_major_ver info0, get info1_minor_ver info1)

-- `_regmap_read_u64` and `_regmap_write_u64`: the word at the lower offset is the high one.
unfoldable pub read_u64 : ℕ → ℕ → M ℕ
read_u64 map reg = do
  sw0 ← regmap_read map reg
  sw1 ← regmap_read map (reg + 4)
  pure (bit_or (sw0 * 2 ^ 32 % 2 ^ 64) sw1)

unfoldable pub write_u64 : ℕ → ℕ → ℕ → M (Unit {0})
write_u64 map reg src =
    regmap_write map reg (src / 2 ^ 32 % 2 ^ 32) >> regmap_write map (reg + 4) (src % 2 ^ 32)

-- `dev_get_regmap` of the device, and of its parent if it has one; `none` is NULL.
abbrev pub regmap_of : Option ℕ → Option (Option ℕ) → Option ℕ
regmap_of (some map) parent = some map
regmap_of none none = none
regmap_of none (some map) = map

-- `scratch_show`: the number that it prints.
unfoldable pub scratch_show : Option ℕ → M ℕ
scratch_show none = fail enxio
scratch_show (some map) = read_u64 map sw0_reg

-- What `sscanf` does with a format of one number: nothing, or it stores the number and how many
-- characters it has consumed. An `int` is given by its 32 bits, a `long long` by its 64 bits.
pub record Scan : Type 0 where
  pub number : ℕ
  pub used : ℕ

-- With "%lli mask %lli %n" it may store only the first number.
pub data Pair : Type 0 where
  neither : Pair
  first : ℕ → Pair
  both : ℕ → ℕ → ℕ → Pair

-- The outcome of `sscanf` for each of the formats of `scratch_store`, in the handler's order.
pub record Scans : Type 0 where
  pub set_bit_scan : Option Scan
  pub clear_bit_scan : Option Scan
  pub mask_scan : Pair
  pub and_scan : Option Scan
  pub andn_scan : Option Scan
  pub or_scan : Option Scan
  pub xor_scan : Option Scan
  pub plain_scan : Option Scan

-- The local variables of `scratch_store`; `none` is the -1 that `consumed` starts with.
pub record Locals : Type 0 where
  pub and_val : ℕ
  pub or_val : ℕ
  pub xor_val : ℕ
  pub consumed : Option ℕ

abbrev pub not64 : ℕ → ℕ
not64 m = 2 ^ 64 - 1 - m

-- `(bit >= 0) && (bit < 64)` for the 32 bits of an `int`.
abbrev bit_in_range : ℕ → Bool
bit_in_range b = ltb b (2 ^ 31) && ltb b 64

-- The chain of `else if`, one function for each place in it.
unfoldable pub scan_plain : Scans → Locals → Locals
scan_plain s l = elim s.plain_scan [
  | none ↦ l
  | some p ↦ record { and_val = 0; or_val = p.number; xor_val = 0; consumed = some p.used }
]

unfoldable pub scan_operators : Scans → Locals → Locals
scan_operators s l = elim s.and_scan [
  | some p ↦ record { and_val = p.number; or_val = 0; xor_val = 0; consumed = some p.used }
  | none ↦ elim s.andn_scan [
    | some p ↦ record { and_val = not64 p.number; or_val = 0; xor_val = 0; consumed = some p.used }
    | none ↦ elim s.or_scan [
      | some p ↦ record {
        and_val = not64 0;
        or_val = p.number;
        xor_val = 0;
        consumed = some p.used;
      }
      | none ↦ elim s.xor_scan [
        | some p ↦ record {
          and_val = not64 0;
          or_val = 0;
          xor_val = p.number;
          consumed = some p.used;
        }
        | none ↦ scan_plain s l
      ]
    ]
  ]
]

unfoldable pub scan_mask : Scans → Locals → Locals
scan_mask s l = elim s.mask_scan [
  | both v m n ↦ record { and_val = not64 m; or_val = v; xor_val = 0; consumed = some n }
  | first v ↦ scan_operators s (record l { or_val = v })
  | neither ↦ scan_operators s l
]

-- `sscanf` has stored how much it has consumed also if the number of the bit is then refused.
abbrev consume : Option Scan → Locals → Locals
consume none l = l
consume (some p) l = record l { consumed = some p.used }

abbrev bit_of : Option Scan → Option ℕ
bit_of none = none
bit_of (some p) = if bit_in_range p.number then some p.number else none

unfoldable pub scan_bits : Scans → Locals → Locals
scan_bits s l =
    let l1 : Locals = consume s.set_bit_scan l in
    elim (bit_of s.set_bit_scan) [
      | some b ↦ record { and_val = not64 0; or_val = 2 ^ b; xor_val = 0; consumed = l1.consumed }
      | none ↦
          let l2 : Locals = consume s.clear_bit_scan l1 in
          elim (bit_of s.clear_bit_scan) [
            | some b ↦ record {
              and_val = bit_and (not64 0) (not64 (2 ^ b));
              or_val = 0;
              xor_val = 0;
              consumed = l2.consumed;
            }
            | none ↦ scan_mask s l2
          ]
    ]

-- `data = ((data & and_val) ^ xor_val) | or_val`.
unfoldable pub combine : Locals → ℕ → ℕ
combine l word = bit_or (bit_xor (bit_and word l.and_val) l.xor_val) l.or_val

-- `scratch_store`; `stack` is what the three variables hold before they are assigned.
unfoldable pub scratch_store : Option ℕ → Scans → Locals → ℕ → M ℕ
scratch_store none s stack buflen = fail enxio
scratch_store (some map) s stack buflen =
    let l : Locals = scan_bits s (record stack { consumed = none }) in
    elim l.consumed [
      | none ↦ fail einval
      | some n ↦
          if n == buflen
          then (read_u64 map sw0_reg >>= λ word. write_u64 map sw0_reg (combine l word) >> pure n)
          else fail einval
    ]
