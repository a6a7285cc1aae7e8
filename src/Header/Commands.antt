-- ===== src/Header/Commands.antt =====
-- The commands of the scratch register: what they mean, bit by bit, and what `sscanf` makes of them.

use native.Mathlib.Nat.{pow-le-pow_right}
use cisco_8000_kernel_module.Common.{
  ◌==◌, if◌then◌else◌, ℕ, ◌+◌, ◌*◌, ◌^◌, ◌<◌, bit_and, bit_xor, ◌≡◌, refl, Bool, not, ◌&&◌, ◌||◌,
  none, some, arith,
}
use cisco_8000_kernel_module.Bits.{
  testbit, testbit-bit_and, testbit-bit_or, testbit-bit_xor, testbit-zero, testbit-complement,
  testbit-pow,
}
use cisco_8000_kernel_module.Header.Scratch.{
  sw0_reg, Scans, Locals, not64, scan_plain, scan_operators, scan_mask, scan_bits, combine, neither,
  first, both,
}

-- A command of the scratch attribute, with its operands.
pub data Command : Type 0 where
  set_bit : ℕ → Command
  clear_bit : ℕ → Command
  under_mask : ℕ → ℕ → Command
  and_with : ℕ → Command
  andn_with : ℕ → Command
  or_with : ℕ → Command
  xor_with : ℕ → Command
  assign_to : ℕ → Command

-- What the command makes of bit `i` of the scratch value.
abbrev pub effect : Command → ℕ → Bool → Bool
effect (set_bit b) i old = i == b || old
effect (clear_bit b) i old = not (i == b) && old
effect (under_mask v m) i old = testbit v i || (not (testbit m i) && old)
effect (and_with v) i old = testbit v i && old
effect (andn_with v) i old = not (testbit v i) && old
effect (or_with v) i old = testbit v i || old
effect (xor_with v) i old = if old then not (testbit v i) else testbit v i
effect (assign_to v) i old = testbit v i

-- The number of a bit is below 64, and an operand is a 64-bit word.
abbrev pub IsCommand : Command → Type 0
IsCommand (set_bit b) = b < 64
IsCommand (clear_bit b) = b < 64
IsCommand (under_mask v m) = (v < 2 ^ 64) × (m < 2 ^ 64)
IsCommand (and_with v) = v < 2 ^ 64
IsCommand (andn_with v) = v < 2 ^ 64
IsCommand (or_with v) = v < 2 ^ 64
IsCommand (xor_with v) = v < 2 ^ 64
IsCommand (assign_to v) = v < 2 ^ 64

abbrev nothing : Scans
nothing = record {
  set_bit_scan = none;
  clear_bit_scan = none;
  mask_scan = neither;
  and_scan = none;
  andn_scan = none;
  or_scan = none;
  xor_scan = none;
  plain_scan = none;
}

-- What `sscanf` documents for the text of a command of `n` characters: a format stores the operands
-- of its own command; that of "mask" also reads the first number of a plain one.
abbrev pub scanned : Command → ℕ → Scans
scanned (set_bit b) n = record nothing { set_bit_scan = some (record { number = b; used = n }) }
scanned (clear_bit b) n = record nothing { clear_bit_scan = some (record { number = b; used = n }) }
scanned (under_mask v m) n = record nothing { mask_scan = both v m n }
scanned (and_with v) n = record nothing { and_scan = some (record { number = v; used = n }) }
scanned (andn_with v) n = record nothing { andn_scan = some (record { number = v; used = n }) }
scanned (or_with v) n = record nothing { or_scan = some (record { number = v; used = n }) }
scanned (xor_with v) n = record nothing { xor_scan = some (record { number = v; used = n }) }
scanned (assign_to v) n = record nothing {
  mask_scan = first v;
  plain_scan = some (record { number = v; used = n });
}

-- The scratch value in two registers.
abbrev pub scratch_value : (ℕ → ℕ) → ℕ
scratch_value held = held sw0_reg * 2 ^ 32 + held (sw0_reg + 4)

-- The variables after the chain of formats, for the text of a command.
unfoldable pub chosen : Command → ℕ → Locals → Locals
chosen c n stack = scan_bits (scanned c n) (record stack { consumed = none })

pub chosen-consumed :
    (c : Command) (n : ℕ) (stack : Locals) → IsCommand c → (chosen c n stack).consumed ≡ some n
unfolding chosen scan_bits scan_mask scan_operators scan_plain
chosen-consumed (set_bit b) n stack p = ground arith
chosen-consumed (clear_bit b) n stack p = ground arith
chosen-consumed (under_mask v m) n stack p = refl
chosen-consumed (and_with v) n stack p = refl
chosen-consumed (andn_with v) n stack p = refl
chosen-consumed (or_with v) n stack p = refl
chosen-consumed (xor_with v) n stack p = refl
chosen-consumed (assign_to v) n stack p = refl

testbit-not64 : (m i : ℕ) → m < 2 ^ 64 → i < 64 → testbit (not64 m) i ≡ not (testbit m i)
testbit-not64 m i p q = ground (arith, testbit-complement m 64 i p)

-- The bits of `((data & and_val) ^ xor_val) | or_val`.
abbrev pub combined : Locals → ℕ → Bool → Bool
combined l i old =
    (if old && testbit l.and_val i then not (testbit l.xor_val i) else testbit l.xor_val i)
    || testbit l.or_val i

pub testbit-combine :
    (l : Locals) (word i : ℕ) → testbit (combine l word) i ≡ combined l i (testbit word i)
unfolding combine
testbit-combine l word i = ground (
  arith,
  testbit-bit_or (bit_xor (bit_and word l.and_val) l.xor_val) l.or_val i,
  testbit-bit_xor (bit_and word l.and_val) l.xor_val i,
  testbit-bit_and word l.and_val i,
)

chosen-set_bit :
    (b n : ℕ) (stack : Locals)
    → b < 64
    → chosen (set_bit b) n stack
      ≡ record { and_val = not64 0; or_val = 2 ^ b; xor_val = 0; consumed = some n }
unfolding chosen scan_bits
chosen-set_bit b n stack p = ground arith

chosen-clear_bit :
    (b n : ℕ) (stack : Locals)
    → b < 64
    → chosen (clear_bit b) n stack ≡ record {
      and_val = bit_and (not64 0) (not64 (2 ^ b));
      or_val = 0;
      xor_val = 0;
      consumed = some n;
    }
unfolding chosen scan_bits
chosen-clear_bit b n stack p = ground arith

-- Below 64, `1ull << bit` is a 64-bit word.
pow-lt_word : (b : ℕ) → b < 64 → 2 ^ b < 2 ^ 64
pow-lt_word b p =
    omega (arith, pow-le-pow_right {n = 2} (omega arith) {i = b} {j = 63} (omega arith))

pub combine-effect :
    (c : Command) (n : ℕ) (stack : Locals) (word i : ℕ)
    → IsCommand c
    → i < 64
    → testbit (combine (chosen c n stack) word) i ≡ effect c i (testbit word i)
unfolding chosen scan_bits scan_mask scan_operators scan_plain
combine-effect (set_bit b) n stack word i p q = rw (chosen-set_bit b n stack p) (
    ground (
      arith,
      testbit-combine (record { and_val = not64 0; or_val = 2 ^ b; xor_val = 0; consumed = some n })
          word i,
      testbit-not64 0 i (omega arith) q,
      testbit-zero i,
      testbit-pow b i,
    ))
combine-effect (clear_bit b) n stack word i p q = rw (chosen-clear_bit b n stack p) (
    ground (
      arith,
      testbit-combine
          (record {
            and_val = bit_and (not64 0) (not64 (2 ^ b));
            or_val = 0;
            xor_val = 0;
            consumed = some n;
          })
          word i,
      testbit-bit_and (not64 0) (not64 (2 ^ b)) i,
      testbit-not64 0 i (omega arith) q,
      testbit-not64 (2 ^ b) i (pow-lt_word b p) q,
      testbit-zero i,
      testbit-pow b i,
    ))
combine-effect (under_mask v m) n stack word i p q = ground (
  arith,
  testbit-combine (chosen (under_mask v m) n stack) word i,
  testbit-not64 m i p.1 q,
  testbit-zero i,
)
combine-effect (and_with v) n stack word i p q =
    ground (arith, testbit-combine (chosen (and_with v) n stack) word i, testbit-zero i)
combine-effect (andn_with v) n stack word i p q = ground (
  arith,
  testbit-combine (chosen (andn_with v) n stack) word i,
  testbit-not64 v i p q,
  testbit-zero i,
)
combine-effect (or_with v) n stack word i p q = ground (
  arith,
  testbit-combine (chosen (or_with v) n stack) word i,
  testbit-not64 0 i (omega arith) q,
  testbit-zero i,
)
combine-effect (xor_with v) n stack word i p q = ground (
  arith,
  testbit-combine (chosen (xor_with v) n stack) word i,
  testbit-not64 0 i (omega arith) q,
  testbit-zero i,
)
combine-effect (assign_to v) n stack word i p q =
    ground (arith, testbit-combine (chosen (assign_to v) n stack) word i, testbit-zero i)
