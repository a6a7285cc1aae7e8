-- ===== src/Xil/NpuLaws.antt =====
-- What `cisco_fpga_xil_npu_status` makes of the status bits.
use cisco_8000_kernel_module.Common.{
  leb, ◌==◌, if◌then◌else◌, Option-cases, ℕ, ◌+◌, ◌*◌, ◌%◌, ◌^◌, ◌≤◌, ◌<◌, ◌≡◌, ap, inl, inr, Bool,
  true, false, not, ◌&&◌, Option, none, some, ◌∷◌, arith,
}
use cisco_8000_kernel_module.Env.{History, Result, Env, einval, Result-cases, read, ok, err}
use cisco_8000_kernel_module.Reg.{shr32}
use cisco_8000_kernel_module.Xil.Regs.{status0, status2}
use cisco_8000_kernel_module.Xil.Boards.{xil_nnpus, Board, NpuAttr, npu_attr}
use cisco_8000_kernel_module.Xil.Npus.{
  NpuName, Priv, status_bit, is_ready, device_status, ignore_deferral, driver_of, npu_status,
}

abbrev answers : Result ℕ → Bool
answers (ok _) = true
answers (err _) = false

-- The device is there and answers, and has NPUs, but not one of this number.
abbrev pub out_of_range : Option Priv → ℕ → Env → History → Bool
out_of_range none npu env h = false
out_of_range (some p) npu env h =
    answers (env.read_answer h p.regmap status0)
    && answers (env.read_answer (read p.regmap status0 ∷ h) p.regmap status2)
    && not (p.nnpus == 0)
    && leb p.nnpus npu

-- The outcome by the device that is found, if any.
abbrev pub refused : NpuName → (Option ℕ → Option (Option Priv)) → ℕ → ℕ → Env → History → Bool
refused name find_device at npu env h = elim (driver_of name at) [
  | none ↦ false
  | some driver ↦ elim (find_device driver) [ none ↦ false | some p ↦ out_of_range p npu env h ]
]

device_status_lem :
    (p : Option Priv) (npu : ℕ) (env : Env) (h : History)
    → npu < 2 ^ 31
    → ignore_deferral (device_status p npu env h).0
      ≡ (if out_of_range p npu env h then err einval else ok tt)
unfolding device_status
device_status_lem none npu env h s = ground arith
device_status_lem (some p) npu env h s = elim (Result-cases (env.read_answer h p.regmap status0)) [
  | inr (x, e) ↦ ground arith
  | inl (v, e) ↦
      elim (Result-cases (env.read_answer (read p.regmap status0 ∷ h) p.regmap status2)) [
        | inr (x, e1) ↦ ground arith
        | inl (w, e1) ↦ ground arith
      ]
]

-- For an NPU whose number is not negative, the answer does not depend on its status bits: it is
-- -EINVAL if the device answers and has NPUs but not this one, and 0 in every other case, also if the
-- name is malformed, if there is no device, if its registers cannot be read or if the NPU is not up.
pub npu_status-refused :
    (name : NpuName) (find_device : Option ℕ → Option (Option Priv)) (at ul : ℕ) (env : Env)
    (h : History)
    → name.npu_at ≡ some at
    → name.number ≡ ok ul
    → ul % 2 ^ 32 < 2 ^ 31
    → (npu_status name find_device env h).0
      ≡ (if refused name find_device at (ul % 2 ^ 32) env h then err einval else ok tt)
unfolding npu_status
npu_status-refused name find_device at ul env h a n small =
    elim (Option-cases (driver_of name at)) [
      | inl e ↦ ground arith
      | inr (driver, e) ↦ elim (Option-cases (find_device driver)) [
        | inl e1 ↦ ground arith
        | inr (p, e1) ↦ ground (arith, device_status_lem p (ul % 2 ^ 32) env h small)
      ]
    ]

-- What the attribute shows of a word.
abbrev pub shown_bit : ℕ → NpuAttr → ℕ
shown_bit word a = shr32 word a.bit_no % 2

-- On a board whose bits start at 0 of status2, an NPU counts as up exactly if its first attribute shows
-- 1 and the three others show 0.
pub is_ready-npu_attr :
    (word n npu : ℕ) (b : Board)
    → b.bit_offset ≡ 0
    → n ≤ xil_nnpus
    → npu < n
    → is_ready word n npu ≡ (
        shown_bit word (npu_attr b n npu 0) == 1
        && shown_bit word (npu_attr b n npu 1) == 0
        && shown_bit word (npu_attr b n npu 2) == 0
        && shown_bit word (npu_attr b n npu 3) == 0)
unfolding is_ready npu_attr
is_ready-npu_attr word n npu b z six p =
    let e0 : (npu_attr b n npu 0).bit_no ≡ npu = omega (arith, z) in
    let e1 : (npu_attr b n npu 1).bit_no ≡ n + npu = omega (arith, z) in
    let e2 : (npu_attr b n npu 2).bit_no ≡ n * 2 + npu = omega (arith, z) in
    let e3 : (npu_attr b n npu 3).bit_no ≡ n * 3 + npu = omega (arith, z) in
    ground (
      arith,
      ap (status_bit word) e0,
      ap (status_bit word) e1,
      ap (status_bit word) e2,
      ap (status_bit word) e3,
    )
