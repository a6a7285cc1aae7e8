-- ===== src/Reg/Laws.antt =====
-- What the accessors of reg_access.h do, bit by bit and field by field.
use native.Mathlib.Nat.{mod-eq_of_lt, mod-lt, pow-le-pow_right}
use native.Mathlib.Decide.{ℕ_discrete}
use cisco_8000_kernel_module.Common.{
  ℕ, ◌+◌, ◌-◌, ◌*◌, ◌/◌, ◌%◌, ◌^◌, ◌≤◌, ◌<◌, bit_and, bit_or, ◌≡◌, ◌∙◌, ap, Bool, ◌&&◌, ◌⊎◌, ltb,
  leb, if◌then◌else◌, arith,
}
use cisco_8000_kernel_module.Bits.{
  testbit, testbit-bit_and, testbit-bit_or, testbit-mul, testbit-div, testbit-mod, testbit-mask,
  testbit-complement, testbit-zero, testbit_of_lt, eq_of_testbit, pow_pos, testbit-add_sub,
  testbit-sub_add, bit_and_mask,
}
use cisco_8000_kernel_module.Reg.Fields.{
  Field, IsField, reg_mask, reg_mask_lo, reg_get, reg_set, reg_replace, get, put, replace, shl32,
  shr32, not32, limit,
}

-- The bits that a field occupies.
abbrev pub covers : Field → ℕ → Bool
covers f i = leb f.lo i && leb i f.hi

pow_pred-lt : (n m : ℕ) → n ≤ m → 2 ^ n - 1 < 2 ^ m
pow_pred-lt n m h = omega (arith, pow-le-pow_right {n = 2} (omega arith) h, pow_pos n)

pub reg_mask_lem : (f : Field) → IsField f → reg_mask f.hi f.lo ≡ 2 ^ (f.hi - f.lo + 1) - 1
unfolding reg_mask
reg_mask_lem f h =
    let width : (f.hi + 2 ^ 32 - f.lo + 1) % 2 ^ 32 ≡ f.hi - f.lo + 1 = omega arith in
    rw width (elim (ℕ_discrete (f.hi - f.lo + 1) 32) [
      | yes e ↦ rw e
      | no ne ↦ ground (
        arith,
        mod-eq_of_lt {n = 2 ^ (f.hi - f.lo + 1) - 1} {m = 2 ^ 32} (pow_pred-lt _ 32 (omega arith)),
      )
    ])

pub testbit-reg_mask :
    (f : Field) (i : ℕ) → IsField f → testbit (reg_mask f.hi f.lo) i ≡ ltb i (f.hi - f.lo + 1)
testbit-reg_mask f i h = ap (λ m. testbit m i) (reg_mask_lem f h) ∙ testbit-mask (f.hi - f.lo + 1) i

testbit-shl32 : (x n i : ℕ) → testbit (shl32 x n) i ≡ (ltb i 32 && (leb n i && testbit x (i - n)))
testbit-shl32 x n i = ground (arith, testbit-mod (x * 2 ^ n) 32 i, testbit-mul x n i)

pub testbit-reg_mask_lo :
    (f : Field) (i : ℕ) → IsField f → testbit (reg_mask_lo f.hi f.lo) i ≡ covers f i
unfolding reg_mask_lo
testbit-reg_mask_lo f i h =
    ground (arith, testbit-shl32 (reg_mask f.hi f.lo) f.lo i, testbit-reg_mask f (i - f.lo) h)

pub testbit-get :
    (f : Field) (d i : ℕ)
    → IsField f
    → testbit (get f d) i ≡ (leb i (f.hi - f.lo) && testbit d (f.lo + i))
unfolding get reg_get
testbit-get f d i h = ground (
  arith,
  testbit-bit_and (shr32 d f.lo) (reg_mask f.hi f.lo) i,
  testbit-div d f.lo i,
  testbit-reg_mask f i h,
)

pub testbit-put :
    (f : Field) (d i : ℕ) → IsField f → testbit (put f d) i ≡ (covers f i && testbit d (i - f.lo))
unfolding put reg_set
testbit-put f d i h = ground (
  arith,
  testbit-shl32 (bit_and d (reg_mask f.hi f.lo)) f.lo i,
  testbit-bit_and d (reg_mask f.hi f.lo) (i - f.lo),
  testbit-reg_mask f (i - f.lo) h,
)

pub testbit-replace :
    (f : Field) (v d i : ℕ)
    → IsField f
    → testbit (replace f v d) i
      ≡ (if covers f i then testbit d (i - f.lo) else (ltb i 32 && testbit v i))
unfolding replace reg_replace reg_mask_lo
testbit-replace f v d i h = ground (
  arith,
  testbit-bit_or (bit_and v (not32 mask)) (bit_and (shl32 d f.lo) mask) i,
  testbit-bit_and v (not32 mask) i,
  testbit-bit_and (shl32 d f.lo) mask i,
  testbit-complement mask 32 i small,
  testbit-reg_mask_lo f i h,
  testbit-shl32 d f.lo i,
)
  where
    mask : ℕ
    mask = reg_mask_lo f.hi f.lo

    small : mask < 2 ^ 32
    small = omega arith

-- A value cut to the width of a field.
abbrev pub fit : Field → ℕ → ℕ
fit f d = d % 2 ^ (f.hi - f.lo + 1)

pub testbit-fit : (f : Field) (d i : ℕ) → testbit (fit f d) i ≡ (leb i (f.hi - f.lo) && testbit d i)
testbit-fit f d i = ground (arith, testbit-mod d (f.hi - f.lo + 1) i)

-- `REG_GET` is the quotient by the low bit's weight, cut to the field's width.
pub get_lem : (f : Field) (d : ℕ) → IsField f → get f d ≡ fit f (d / 2 ^ f.lo)
unfolding get reg_get
get_lem f d h =
    ap (bit_and (shr32 d f.lo)) (reg_mask_lem f h) ∙ bit_and_mask (shr32 d f.lo) (f.hi - f.lo + 1)

-- Reading a field back after writing it gives the value, cut to the field's width.
pub get-replace : (f : Field) (v d : ℕ) → IsField f → get f (replace f v d) ≡ fit f d
get-replace f v d h = eq_of_testbit _ _ (λ i. same i)
  where
    same : (i : ℕ) → testbit (get f (replace f v d)) i ≡ testbit (fit f d) i
    same i = ground (
      arith,
      testbit-get f (replace f v d) i h,
      testbit-replace f v d (f.lo + i) h,
      testbit-fit f d i,
      testbit-add_sub d f.lo i,
    )

-- Two fields with no bit in common.
abbrev pub Disjoint : Field → Field → Type 0
Disjoint f g = (f.hi < g.lo) ⊎ (g.hi < f.lo)

-- Writing a field leaves every disjoint field of the register as it was.
pub get-replace_ne :
    (f g : Field) (v d : ℕ) → IsField f → IsField g → Disjoint f g → get g (replace f v d) ≡ get g v
get-replace_ne f g v d hf hg ne = eq_of_testbit _ _ (λ i. same i)
  where
    same : (i : ℕ) → testbit (get g (replace f v d)) i ≡ testbit (get g v) i
    same i = ground (
      arith,
      testbit-get g (replace f v d) i hg,
      testbit-get g v i hg,
      testbit-replace f v d (g.lo + i) hf,
    )

-- Writing back the value that a field holds changes nothing.
pub replace-get : (f : Field) (v : ℕ) → IsField f → v < 2 ^ 32 → replace f v (get f v) ≡ v
replace-get f v h small = eq_of_testbit _ _ (λ i. same i)
  where
    same : (i : ℕ) → testbit (replace f v (get f v)) i ≡ testbit v i
    same i = ground (
      arith,
      testbit-replace f v (get f v) i h,
      testbit-get f v (i - f.lo) h,
      testbit_of_lt v 32 i small,
      testbit-sub_add v f.lo i,
    )

-- `REG_GET` undoes `REG_SET`, up to the field's width.
pub get-put : (f : Field) (d : ℕ) → IsField f → get f (put f d) ≡ fit f d
get-put f d h = eq_of_testbit _ _ (λ i. same i)
  where
    same : (i : ℕ) → testbit (get f (put f d)) i ≡ testbit (fit f d) i
    same i = ground (
      arith,
      testbit-get f (put f d) i h,
      testbit-put f d (f.lo + i) h,
      testbit-fit f d i,
      testbit-add_sub d f.lo i,
    )

-- A value `REG_SET` into one field is not seen in a disjoint one.
pub get-put_ne : (f g : Field) (d : ℕ) → IsField f → IsField g → Disjoint f g → get g (put f d) ≡ 0
get-put_ne f g d hf hg ne = eq_of_testbit _ _ (λ i. same i)
  where
    same : (i : ℕ) → testbit (get g (put f d)) i ≡ testbit 0 i
    same i =
        ground (arith, testbit-get g (put f d) i hg, testbit-put f d (g.lo + i) hf, testbit-zero i)

-- Register words are assembled by `|`: each field of the whole is the `|` of the parts' fields.
pub get-bit_or : (f : Field) (a b : ℕ) → IsField f → get f (bit_or a b) ≡ bit_or (get f a) (get f b)
get-bit_or f a b h = eq_of_testbit _ _ (λ i. same i)
  where
    same : (i : ℕ) → testbit (get f (bit_or a b)) i ≡ testbit (bit_or (get f a) (get f b)) i
    same i = ground (
      arith,
      testbit-get f (bit_or a b) i h,
      testbit-bit_or a b (f.lo + i),
      testbit-bit_or (get f a) (get f b) i,
      testbit-get f a i h,
      testbit-get f b i h,
    )

-- A field's value is below `REG_LIMIT`.
pub get-lt-limit : (f : Field) (d : ℕ) → IsField f → get f d < limit f
unfolding limit
get-lt-limit f d h =
    let n : ℕ = f.hi - f.lo + 1 in
    omega (
      arith,
      get_lem f d h,
      mod-lt (d / 2 ^ f.lo) {m = 2 ^ n} (pow_pos n),
      pow-le-pow_right {n = 2} (omega arith) {i = n} {j = 32} (omega arith),
      mod-eq_of_lt {n = 2 ^ n} {m = 2 ^ 64}
          (omega (arith, pow-le-pow_right {n = 2} (omega arith) {i = n} {j = 32} (omega arith))),
    )

pub replace-lt : (f : Field) (v d : ℕ) → IsField f → replace f v d < 2 ^ 32
replace-lt f v d h = omega (arith, eq_of_testbit _ _ (λ i. same i))
  where
    same : (i : ℕ) → testbit (replace f v d) i ≡ testbit (replace f v d % 2 ^ 32) i
    same i = ground (arith, testbit-mod (replace f v d) 32 i, testbit-replace f v d i h)
