-- ===== src/Xil/Npus.antt =====
-- `cisco_fpga_xil_npu_status` of drivers/cisco/cisco-fpga-xil.c.
use cisco_8000_kernel_module.Common.{
  ltb, leb, ◌==◌, if◌then◌else◌, ℕ, ◌+◌, ◌*◌, ◌%◌, ◌^◌, Bool, ◌&&◌, Option, none, some,
}
use cisco_8000_kernel_module.Env.{
  Result, Done, M, pure, fail, lift, ◌>>=◌, attempt, regmap_read, bug_on, einval, eprobe_defer, ok,
  err,
}
use cisco_8000_kernel_module.Reg.{shr32}
use cisco_8000_kernel_module.Xil.Regs.{status0, status2}

-- The name of an NPU, as the kernel's functions read it: where "NPU" stands in it, whether it starts
-- with "FC", its third character, and what `kstrtol` makes of the text after "NPU", 64 bits or a status.
pub record NpuName : Type 0 where
  pub npu_at : Option ℕ
  pub fabric_card : Bool
  pub slot : ℕ
  pub number : Result ℕ

-- The device that a XIL driver has, with the private data that its probe stores.
pub record Priv : Type 0 where
  pub regmap : ℕ
  pub nnpus : ℕ

-- Undefined behaviour: a text that is read through NULL, or a shift by a negative number.
abbrev pub undefined : ℕ
undefined = bug_on

-- The bit of `status2` at `n`.
abbrev pub status_bit : ℕ → ℕ → ℕ
status_bit word n = shr32 word n % 2

-- Whether the NPU is up: done, and none of the three errors.
unfoldable pub is_ready : ℕ → ℕ → ℕ → Bool
is_ready word nnpus npu =
    status_bit word npu == 1
    && status_bit word (nnpus + npu) == 0
    && status_bit word (nnpus * 2 + npu) == 0
    && status_bit word (nnpus * 3 + npu) == 0

-- The status once the device has been found; `npu` is the 32 bits of an `int`.
unfoldable pub device_status : Option Priv → ℕ → M (Unit {0})
device_status none npu = fail eprobe_defer
device_status (some p) npu = do
  r0 ← attempt (regmap_read p.regmap status0)
  elim r0 [
    | err _ ↦ fail eprobe_defer
    | ok _ ↦ do
      r2 ← attempt (regmap_read p.regmap status2)
      elim r2 [
        | err _ ↦ fail eprobe_defer
        | ok word ↦
            if ltb npu (2 ^ 31) && leb p.nnpus npu
            then (if p.nnpus == 0 then pure tt else fail einval)
            else (if leb (2 ^ 31) npu
                then fail undefined
                else (if is_ready word p.nnpus npu then pure tt else fail eprobe_defer))
      ]
  ]

-- A request to defer is ignored.
abbrev pub ignore_deferral : Done → Done
ignore_deferral (ok u) = ok u
ignore_deferral (err e) = if e == eprobe_defer then ok tt else err e

-- Where "NPU" stands decides which device is looked up: `none` for "xil", and the slot for "xil-fc".
unfoldable pub driver_of : NpuName → ℕ → Option (Option ℕ)
driver_of name at =
    if at == 0
    then some none
    else (if name.fabric_card && at == 4 then some (some name.slot) else none)

-- `cisco_fpga_xil_npu_status`; `find_device` is `driver_find_device` on the driver's name.
unfoldable pub npu_status : NpuName → (Option ℕ → Option (Option Priv)) → M (Unit {0})
npu_status name find_device = elim name.npu_at [
  | none ↦ fail undefined
  | some at ↦ elim name.number [
    | err e ↦ fail e
    | ok ul ↦ elim (driver_of name at) [
      | none ↦ pure tt
      | some driver ↦ elim (find_device driver) [
        | none ↦ pure tt
        | some priv ↦ attempt (device_status priv (ul % 2 ^ 32)) >>= λ r. lift (ignore_deferral r)
      ]
    ]
  ]
]
