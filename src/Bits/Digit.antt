-- ===== src/Bits/Digit.antt =====
-- One binary digit of the native bit operations, and equality of numbers by their digits.
use Prim.Native.Nat.{digits, bitwise, differ, bit_and-bitwise, bit_or-bitwise, bit_xor-bitwise}
use cisco_8000_kernel_module.Common.{
  ◌==◌, if◌then◌else◌, ℕ, zero, suc, ◌+◌, ◌*◌, ◌/◌, ◌%◌, ◌≤◌, ◌<◌, min, max, bit_and, bit_or,
  bit_xor, ◌≡◌, refl, Bool, not, ◌&&◌, ◌||◌, arith,
}

-- Bit `i` of `a`.
unfoldable pub testbit : ℕ → ℕ → Bool
testbit a zero = a % 2 == 1
testbit a (suc i) = testbit (a / 2) i

module _ (z : ℕ → ℕ) (f : ℕ → ℕ → ℕ) where
  digits_any_fuel : (n m a b : ℕ) → a ≤ n → a ≤ m → digits z f n a b ≡ digits z f m a b
  digits_any_fuel zero zero a b p q = refl
  digits_any_fuel zero (suc m) zero b p q = refl
  digits_any_fuel zero (suc m) (suc a) b p q = absurd (omega arith)
  digits_any_fuel (suc n) zero zero b p q = refl
  digits_any_fuel (suc n) zero (suc a) b p q = absurd (omega arith)
  digits_any_fuel (suc n) (suc m) zero b p q = refl
  digits_any_fuel (suc n) (suc m) (suc a) b p q =
      omega (arith, digits_any_fuel n m (suc a / 2) (b / 2) (omega arith) (omega arith))

  bitwise_low :
      (a b : ℕ)
      → bitwise z f (suc a) b ≡ bitwise z f (suc a / 2) (b / 2) * 2 + f (suc a % 2) (b % 2)
  bitwise_low a b =
      omega (arith, digits_any_fuel a (suc a / 2) (suc a / 2) (b / 2) (omega arith) (omega arith))

bit_and_low : (a b : ℕ) → bit_and a b ≡ bit_and (a / 2) (b / 2) * 2 + min (a % 2) (b % 2)
bit_and_low zero b = simp bit_and-bitwise (omega arith)
bit_and_low (suc a) b = simp bit_and-bitwise (bitwise_low (λ y. 0) min a b)

bit_or_low : (a b : ℕ) → bit_or a b ≡ bit_or (a / 2) (b / 2) * 2 + max (a % 2) (b % 2)
bit_or_low zero b = simp bit_or-bitwise (omega arith)
bit_or_low (suc a) b = simp bit_or-bitwise (bitwise_low (λ y. y) max a b)

differ_bit : (a b : ℕ) → a < 2 → b < 2 → differ a b ≡ (if a == b then 0 else 1)
differ_bit zero zero p q = refl
differ_bit zero (suc zero) p q = refl
differ_bit zero (suc (suc b)) p q = absurd (omega arith)
differ_bit (suc zero) zero p q = refl
differ_bit (suc zero) (suc zero) p q = refl
differ_bit (suc zero) (suc (suc b)) p q = absurd (omega arith)
differ_bit (suc (suc a)) b p q = absurd (omega arith)

bit_xor_low : (a b : ℕ) → bit_xor a b ≡ bit_xor (a / 2) (b / 2) * 2 + differ (a % 2) (b % 2)
bit_xor_low zero b = simp bit_xor-bitwise (ground (arith, differ_bit 0 (b % 2)))
bit_xor_low (suc a) b = simp bit_xor-bitwise (bitwise_low (λ y. y) differ a b)

pub testbit-bit_and : (a b i : ℕ) → testbit (bit_and a b) i ≡ (testbit a i && testbit b i)
unfolding testbit
testbit-bit_and a b zero = ground (arith, bit_and_low a b)
testbit-bit_and a b (suc i) =
    let e : bit_and a b / 2 ≡ bit_and (a / 2) (b / 2) = omega (arith, bit_and_low a b) in
    rw e (testbit-bit_and (a / 2) (b / 2) i)

pub testbit-bit_or : (a b i : ℕ) → testbit (bit_or a b) i ≡ (testbit a i || testbit b i)
unfolding testbit
testbit-bit_or a b zero = ground (arith, bit_or_low a b)
testbit-bit_or a b (suc i) =
    let e : bit_or a b / 2 ≡ bit_or (a / 2) (b / 2) = omega (arith, bit_or_low a b) in
    rw e (testbit-bit_or (a / 2) (b / 2) i)

pub testbit-bit_xor :
    (a b i : ℕ) → testbit (bit_xor a b) i ≡ (if testbit a i then not (testbit b i) else testbit b i)
unfolding testbit
testbit-bit_xor a b zero = ground (arith, bit_xor_low a b, differ_bit (a % 2) (b % 2))
testbit-bit_xor a b (suc i) =
    let e : bit_xor a b / 2 ≡ bit_xor (a / 2) (b / 2) =
      ground (arith, bit_xor_low a b, differ_bit (a % 2) (b % 2)) in
    rw e (testbit-bit_xor (a / 2) (b / 2) i)

eq_of_testbit_below : (n a b : ℕ) → a ≤ n → b ≤ n → ((i : ℕ) → testbit a i ≡ testbit b i) → a ≡ b
unfolding testbit
eq_of_testbit_below zero a b p q h = omega arith
eq_of_testbit_below (suc n) a b p q h =
    ground (
      arith,
      h 0,
      eq_of_testbit_below n (a / 2) (b / 2) (omega arith) (omega arith) (λ i. h (suc i)),
    )

pub eq_of_testbit : (a b : ℕ) → ((i : ℕ) → testbit a i ≡ testbit b i) → a ≡ b
eq_of_testbit a b h = eq_of_testbit_below (a + b) a b (omega arith) (omega arith) h
