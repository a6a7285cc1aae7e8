-- ===== src/Bits/Shift.antt =====
-- The bits of a shift, of a remainder and of a mask by a power of two, and of a complement.
use native.Mathlib.Nat.{
  pow-suc, one-le-pow, div-div-eq-div-mul, mod-eq_of_lt, div-add-mod, pow-succ',
}
use cisco_8000_kernel_module.Common.{
  ltb, ◌==◌, if◌then◌else◌, Bool-cases, ℕ, zero, suc, ◌+◌, ◌-◌, ◌*◌, ◌/◌, ◌%◌, ◌^◌, ◌≤◌, ◌<◌,
  bit_and, bit_or, ◌≡◌, refl, ap, inl, inr, false, not, ◌&&◌, arith,
}
use cisco_8000_kernel_module.Bits.Digit.{testbit, testbit-bit_and, testbit-bit_or, eq_of_testbit}

suc-sub-suc : (i k : ℕ) → suc i - suc k ≡ i - k
suc-sub-suc i k = omega arith

pub testbit-zero : (i : ℕ) → testbit 0 i ≡ false
unfolding testbit
testbit-zero zero = refl
testbit-zero (suc i) = testbit-zero i

testbit_one : (i : ℕ) → testbit 1 i ≡ (i == 0)
unfolding testbit
testbit_one zero = refl
testbit_one (suc i) = ground (arith, testbit-zero i)

pub pow_pos : (k : ℕ) → 1 ≤ 2 ^ k
pow_pos k = one-le-pow k 2 (omega arith)

mul-pow_suc : (a k : ℕ) → a * 2 ^ suc k ≡ 2 * (a * 2 ^ k)
mul-pow_suc a k = omega (arith, ap (λ (t : ℕ). a * t) (pow-suc 2 k))

pub testbit-mul :
    (a k i : ℕ) → testbit (a * 2 ^ k) i ≡ (if ltb i k then false else testbit a (i - k))
unfolding testbit
testbit-mul a zero i =
    let e : a * 2 ^ 0 ≡ a = omega arith in
    let f : i - 0 ≡ i = omega arith in ground (arith, ap (λ t. testbit t i) e, ap (testbit a) f)
testbit-mul a (suc k) zero = ground (arith, mul-pow_suc a k)
testbit-mul a (suc k) (suc i) =
    let e : a * 2 ^ suc k / 2 ≡ a * 2 ^ k = omega (arith, mul-pow_suc a k) in
    rw e (ground (arith, testbit-mul a k i, ap (testbit a) (suc-sub-suc i k)))

div-pow_suc : (a k : ℕ) → a / 2 ^ suc k ≡ a / 2 / 2 ^ k
div-pow_suc a k = rw (div-div-eq-div-mul, pow-succ')

pub testbit-div : (a k i : ℕ) → testbit (a / 2 ^ k) i ≡ testbit a (k + i)
unfolding testbit
testbit-div a zero i =
    let e : a / 2 ^ 0 ≡ a = omega arith in let f : 0 + i ≡ i = omega arith in rw (e, f)
testbit-div a (suc k) i =
    let e : suc k + i ≡ suc (k + i) = omega arith in
    rw (e, div-pow_suc a k) (testbit-div (a / 2) k i)

mod-pow_suc : (a k : ℕ) → a % 2 ^ suc k ≡ 2 * (a / 2 % 2 ^ k) + a % 2
mod-pow_suc a k = omega (
  arith,
  div-add-mod a (2 ^ suc k),
  div-add-mod (a / 2) (2 ^ k),
  ap (λ (t : ℕ). t * (a / 2 ^ suc k)) (pow-suc 2 k),
  ap (λ (t : ℕ). 2 ^ k * t) (div-pow_suc a k),
)

pub testbit-mod : (a k i : ℕ) → testbit (a % 2 ^ k) i ≡ (ltb i k && testbit a i)
unfolding testbit
testbit-mod a zero i = let e : a % 2 ^ 0 ≡ 0 = omega arith in rw e (ground (arith, testbit-zero i))
testbit-mod a (suc k) zero = ground (arith, mod-pow_suc a k)
testbit-mod a (suc k) (suc i) =
    let e : a % 2 ^ suc k / 2 ≡ a / 2 % 2 ^ k = omega (arith, mod-pow_suc a k) in
    rw e (ground (arith, testbit-mod (a / 2) k i))

pub testbit-complement :
    (a k i : ℕ) → a < 2 ^ k → testbit (2 ^ k - 1 - a) i ≡ (ltb i k && not (testbit a i))
unfolding testbit
testbit-complement a zero i h =
    let e : 2 ^ 0 - 1 - a ≡ 0 = omega arith in rw e (ground (arith, testbit-zero i))
testbit-complement a (suc k) zero h = ground (arith, pow-suc 2 k, pow_pos k)
testbit-complement a (suc k) (suc i) h =
    let e : (2 ^ suc k - 1 - a) / 2 ≡ 2 ^ k - 1 - a / 2 = omega (arith, pow-suc 2 k, pow_pos k) in
    rw e (ground (arith, testbit-complement (a / 2) k i (omega (arith, pow-suc 2 k, pow_pos k))))

pub testbit-mask : (k i : ℕ) → testbit (2 ^ k - 1) i ≡ ltb i k
testbit-mask k i =
    let e : 2 ^ k - 1 - 0 ≡ 2 ^ k - 1 = omega arith in
    ground (
      arith,
      ap (λ t. testbit t i) e,
      testbit-complement 0 k i (omega (arith, pow_pos k)),
      testbit-zero i,
    )

-- A number below a power of two has no bits from there on.
pub testbit_of_lt : (a k i : ℕ) → a < 2 ^ k → k ≤ i → testbit a i ≡ false
testbit_of_lt a k i h p = ground (arith, testbit-mod a k i, ap (λ t. testbit t i) (mod-eq_of_lt h))

-- `&` with a mask of `k` ones is the remainder by `2 ^ k`.
pub bit_and_mask : (a k : ℕ) → bit_and a (2 ^ k - 1) ≡ a % 2 ^ k
bit_and_mask a k =
    eq_of_testbit _ _
      (λ i. ground (arith, testbit-bit_and a (2 ^ k - 1) i, testbit-mask k i, testbit-mod a k i))

pub testbit-add_sub : (a n i : ℕ) → testbit a (n + i - n) ≡ testbit a i
testbit-add_sub a n i = ap (testbit a) (omega arith)

pub testbit-sub_add : (a n i : ℕ) → n ≤ i → testbit a (n + (i - n)) ≡ testbit a i
testbit-sub_add a n i h = ap (testbit a) (omega arith)

-- `|` of a number below a power of two and a multiple of that power is their sum.
pub bit_or-add :
    (a b k : ℕ)
    → (a + b * 2 ^ k) % 2 ^ k ≡ a
    → (a + b * 2 ^ k) / 2 ^ k ≡ b
    → bit_or a (b * 2 ^ k) ≡ a + b * 2 ^ k
bit_or-add a b k m d = eq_of_testbit _ _ (λ i. same i)
  where
    same : (i : ℕ) → testbit (bit_or a (b * 2 ^ k)) i ≡ testbit (a + b * 2 ^ k) i
    same i = elim (Bool-cases (ltb i k)) [
      | inl low ↦ ground (
        arith,
        testbit-bit_or a (b * 2 ^ k) i,
        testbit-mul b k i,
        testbit-mod (a + b * 2 ^ k) k i,
        ap (λ t. testbit t i) m,
      )
      | inr high ↦ ground (
        arith,
        testbit-bit_or a (b * 2 ^ k) i,
        testbit-mul b k i,
        testbit-mod (a + b * 2 ^ k) k i,
        ap (λ t. testbit t i) m,
        testbit-div (a + b * 2 ^ k) k (i - k),
        ap (λ t. testbit t (i - k)) d,
        testbit-sub_add (a + b * 2 ^ k) k i,
      )
    ]

pub bit_or_comm : (a b : ℕ) → bit_or a b ≡ bit_or b a
bit_or_comm a b =
    eq_of_testbit _ _ (λ i. ground (arith, testbit-bit_or a b i, testbit-bit_or b a i))

-- A power of two has one bit.
pub testbit-pow : (k i : ℕ) → testbit (2 ^ k) i ≡ (i == k)
testbit-pow k i =
    let e : 1 * 2 ^ k ≡ 2 ^ k = omega arith in
    let one : testbit 1 (i - k) ≡ (i - k == 0) = testbit_one (i - k) in
    ground (arith, ap (λ t. testbit t i) e, testbit-mul 1 k i, one)
