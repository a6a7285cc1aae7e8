-- ===== src/Xil/BoardLaws.antt =====
-- Where the status bits of the NPUs lie.
use mathlib.Core.List.{Memᴰ}
use cisco_8000_kernel_module.Common.{
  ltb, ltb→lt, Bool-cases, All, All-Mem, length, refl, ℕ, zero, suc, ◌+◌, ◌-◌, ◌*◌, ◌≤◌, ◌<◌, ◌≡◌,
  ap, ◌≢◌, ◌⊎◌, inl, inr, Bool, List, map, arith,
}
use cisco_8000_kernel_module.Env.{Result, Done, Env, pure, lift, ◌>>=◌, regmap_read, ok, err}
use cisco_8000_kernel_module.Env.Rules.{Gives, Gives-bind, Gives-any}
use cisco_8000_kernel_module.Xil.Regs.{status0}
use cisco_8000_kernel_module.Xil.Boards.{
  xil_nattrs, Board, board_of, count_npus, NpuAttr, npu_attr, attrs_from, npus_from, Layout,
  sysfs_init, groups_len,
}

-- The bits of a board start at 0, for up to six NPUs, or at 24, for one.
board_of-bounds :
    (data0 : ℕ)
    → (((board_of data0).bit_offset ≡ 0) × ((board_of data0).max_nnpus ≤ 6))
      ⊎ (((board_of data0).bit_offset ≡ 24) × ((board_of data0).max_nnpus ≤ 1))
unfolding board_of
board_of-bounds data0 = ground arith

pub count_npus_le :
    (b : Board) (active : Bool) (property : Result ℕ) → count_npus b active property ≤ b.max_nnpus
unfolding count_npus
count_npus_le b active (ok n) = ground arith
count_npus_le b active (err e) = ground arith

-- An attribute of one of `n` NPUs whose bits start at `off`.
abbrev pub IsPlaced : ℕ → ℕ → NpuAttr → Type 0
IsPlaced off n a =
    (a.npu < n) × (a.attr_no < 4) × (a.bit_no ≡ a.attr_no * n + a.npu + off) × (a.bit_no < 32)

less_four : (a : ℕ) → a < 4 → (a ≡ 0) ⊎ ((a ≡ 1) ⊎ ((a ≡ 2) ⊎ (a ≡ 3)))
less_four a h = ground arith

times_four : (a n : ℕ) → a < 4 → a * n ≤ 3 * n
times_four a n h = elim (less_four a h) [
  | inl e ↦ omega (arith, ap (λ t. t * n) e)
  | inr (inl e) ↦ omega (arith, ap (λ t. t * n) e)
  | inr (inr (inl e)) ↦ omega (arith, ap (λ t. t * n) e)
  | inr (inr (inr e)) ↦ omega (arith, ap (λ t. t * n) e)
]

apart_rows : (a b p q n : ℕ) → a < b → p < n → a * n + p ≢ b * n + q
apart_rows a b p q n h k e =
    let d : ℕ = b - suc a in
    let split : b * n ≡ (suc a + d) * n = ap (λ t. t * n) (omega arith) in
    omega (arith, e, split, distrib a d n)
  where
    distrib : (a d n : ℕ) → (suc a + d) * n ≡ a * n + n + d * n
    distrib a d n = omega arith

-- Two attributes of one layout with the same bit are the same attribute.
IsPlaced-apart :
    (off n : ℕ) (x y : NpuAttr)
    → IsPlaced off n x
    → IsPlaced off n y
    → x.bit_no ≡ y.bit_no
    → (x.npu ≡ y.npu) × (x.attr_no ≡ y.attr_no)
IsPlaced-apart off n x y u v e = elim (Bool-cases (ltb x.attr_no y.attr_no)) [
  | inl less ↦ absurd (
      apart_rows x.attr_no y.attr_no x.npu y.npu n (ltb→lt _ _ less) u.0
        (omega (arith, e, u.2, v.2)))
  | inr not_less ↦ elim (Bool-cases (ltb y.attr_no x.attr_no)) [
    | inl more ↦ absurd (
        apart_rows y.attr_no x.attr_no y.npu x.npu n (ltb→lt _ _ more) v.0
          (omega (arith, e, u.2, v.2)))
    | inr not_more ↦
        let same : x.attr_no ≡ y.attr_no = ground arith in
        (omega (arith, e, u.2, v.2, ap (λ t. t * n) same), same)
  ]
]

-- The bound on the number of NPUs that goes with where the bits start.
abbrev Fits : ℕ → ℕ → Type 0
Fits off n = ((off ≡ 0) × (n ≤ 6)) ⊎ ((off ≡ 24) × (n ≤ 1))

npu_attr-IsPlaced :
    (b : Board) (n npu attr_no : ℕ)
    → Fits b.bit_offset n
    → npu < n
    → attr_no < 4
    → IsPlaced b.bit_offset n (npu_attr b n npu attr_no)
unfolding npu_attr
npu_attr-IsPlaced b n npu attr_no f p q =
    (p, q, omega (arith, f, times_four attr_no n q), omega (arith, f, times_four attr_no n q))

attrs_from-IsPlaced :
    (left : ℕ) (b : Board) (n npu attr_no : ℕ)
    → Fits b.bit_offset n
    → npu < n
    → attr_no + left ≤ 4
    → All (IsPlaced b.bit_offset n) (attrs_from left b n npu attr_no)
attrs_from-IsPlaced zero b n npu attr_no f p q = tt
attrs_from-IsPlaced (suc left) b n npu attr_no f p q = (
  npu_attr-IsPlaced b n npu attr_no f p (omega arith),
  attrs_from-IsPlaced left b n npu (suc attr_no) f p (omega arith),
)

npus_from-IsPlaced :
    (left : ℕ) (b : Board) (n npu : ℕ)
    → Fits b.bit_offset n
    → npu + left ≤ n
    → All (All (IsPlaced b.bit_offset n)) (npus_from left b n npu)
npus_from-IsPlaced zero b n npu f p = tt
npus_from-IsPlaced (suc left) b n npu f p = (
  attrs_from-IsPlaced 4 b n npu 0 f (omega arith) (omega arith),
  npus_from-IsPlaced left b n (suc npu) f (omega arith),
)

length-attrs_from :
    (left : ℕ) (b : Board) (n npu attr_no : ℕ) → length (attrs_from left b n npu attr_no) ≡ left
length-attrs_from zero b n npu attr_no = refl
length-attrs_from (suc left) b n npu attr_no =
    omega (arith, length-attrs_from left b n npu (suc attr_no))

npus_from-four :
    (left : ℕ) (b : Board) (n npu : ℕ) → All (λ g. length g ≡ 4) (npus_from left b n npu)
npus_from-four zero b n npu = tt
npus_from-four (suc left) b n npu =
    (length-attrs_from xil_nattrs b n npu 0, npus_from-four left b n (suc npu))

length-npus_from : (left : ℕ) (b : Board) (n npu : ℕ) → length (npus_from left b n npu) ≡ left
length-npus_from zero b n npu = refl
length-npus_from (suc left) b n npu = omega (arith, length-npus_from left b n (suc npu))

-- The arrays of the adapter have room: `npu_sysfs[6][4]`, `npu_attrs[6][5]`, whose rows hold the group's
-- attributes and a NULL, `npu_group[6]`, and `groups[14]`. Every attribute's bit is one of a 32-bit
-- register; and no two attributes share a bit.
abbrev pub IsLaidOut : Layout → Type 0
IsLaidOut l =
    (groups_len l.nnpus ≤ 14)
    × (l.nnpus ≤ 6)
    × (length l.npu_sysfs ≡ l.nnpus)
    × All (λ g. length g ≡ 4) l.npu_sysfs
    × ((gx gy : List NpuAttr) (x y : NpuAttr)
        → Memᴰ gx l.npu_sysfs
        → Memᴰ gy l.npu_sysfs
        → Memᴰ x gx
        → Memᴰ y gy
        → (x.bit_no < 32) × (x.bit_no ≡ y.bit_no → (x.npu ≡ y.npu) × (x.attr_no ≡ y.attr_no)))

-- Whatever board status0 names, and whatever number of NPUs the device's property gives, the attributes
-- that `_xil_sysfs_init` makes are four for each NPU of at most six, the list of groups has at most 14
-- entries with its NULL, each attribute shows a bit of a 32-bit register, and no two show the same bit.
pub sysfs_init-IsLaidOut :
    (env : Env) (map : ℕ) (active : Bool) (property : Result ℕ) (added : Done)
    → Gives env IsLaidOut (sysfs_init map active property added)
unfolding sysfs_init
sysfs_init-IsLaidOut env map active property added =
    Gives-bind env (λ d. Unit {0}) IsLaidOut (regmap_read map status0)
      (λ d. lift added >>= λ _. pure (layout d)) (Gives-any env (regmap_read map status0))
      (λ d _.
        Gives-bind env (λ u. Unit {0}) IsLaidOut (lift added) (λ _. pure (layout d))
          (Gives-any env (lift added))
          (λ _ _ h. (
            six d,
            omega (arith, fits d),
            length-npus_from (count d) (board_of d) (count d) 0,
            npus_from-four (count d) (board_of d) (count d) 0,
            apart d,
          )))
  where
    count : ℕ → ℕ
    count d = count_npus (board_of d) active property

    layout : ℕ → Layout
    layout d = record { nnpus = count d; npu_sysfs = npus_from (count d) (board_of d) (count d) 0 }

    fits : (d : ℕ) → Fits (board_of d).bit_offset (count d)
    fits d = elim (board_of-bounds d) [
      | inl (o, m) ↦ inl (o, omega (arith, m, count_npus_le (board_of d) active property))
      | inr (o, m) ↦ inr (o, omega (arith, m, count_npus_le (board_of d) active property))
    ]

    six : (d : ℕ) → groups_len (count d) ≤ 14
    six d = omega (arith, fits d)

    apart :
        (d : ℕ) (gx gy : List NpuAttr) (x y : NpuAttr)
        → Memᴰ gx (layout d).npu_sysfs
        → Memᴰ gy (layout d).npu_sysfs
        → Memᴰ x gx
        → Memᴰ y gy
        → (x.bit_no < 32) × (x.bit_no ≡ y.bit_no → (x.npu ≡ y.npu) × (x.attr_no ≡ y.attr_no))
    apart d gx gy x y mgx mgy mx my =
        let off : ℕ = (board_of d).bit_offset in
        let placed = npus_from-IsPlaced (count d) (board_of d) (count d) 0 (fits d) (omega arith) in
        let row : (g : List NpuAttr)
            → Memᴰ g (layout d).npu_sysfs
            → All (IsPlaced off (count d)) g =
          λ g m. All-Mem (All (IsPlaced off (count d))) g (layout d).npu_sysfs placed m in
        let u = All-Mem (IsPlaced off (count d)) x gx (row gx mgx) mx in
        let v = All-Mem (IsPlaced off (count d)) y gy (row gy mgy) my in
        (u.3, IsPlaced-apart off (count d) x y u v)
