-- ===== src/Arbitrate/Config.antt =====
-- Setting up arbitration and the adapters: `i2c_arbitrate`, `cisco_i2c_init` and `cisco_i2c_register`
-- of drivers/cisco/i2c-arbitrate.c in a build with CONFIG_ACPI, and `_store_u32` of
-- i2c-arbitrate-sysfs.c. Names of adapters and messages are left out.
use cisco_8000_kernel_module.Common.{
  ltb, ◌==◌, if◌then◌else◌, ℕ, zero, suc, ◌%◌, ◌^◌, Bool, false, not, Option, none, some, List, [],
  ◌∷◌, map,
}
use cisco_8000_kernel_module.Env.{
  Result, Done, M, pure, lift, ◌>>=◌, ◌>>◌, regmap_read, enxio, enodev, eprobe_defer, ok, err,
}
use cisco_8000_kernel_module.Reg.{Field, field, get}
use cisco_8000_kernel_module.Arbitrate.State.{Arb}

-- The device's properties, and the answers of ACPI and of the device model: the block's name, its
-- handle, the device behind the handle with its regmap (which may not be there yet), and whether
-- the action that releases the device could be registered.
pub record Setup : Type 0 where
  pub multi_master : Result ℕ
  pub arbitration_request : Result ℕ
  pub arbitration_index : Result ℕ
  pub timeout : Result ℕ
  pub peer_grant : Result ℕ
  pub peer_retry : Result ℕ
  pub block : Option ℕ
  pub handle : Option ℕ
  pub device : Option (Option ℕ)
  pub action : Done

-- `adapter->lock_ops`: NULL, `arb_lock_ops` or `noarb_lock_ops`.
pub data LockOps : Type 0 where
  default_ops arb_ops noarb_ops : LockOps

-- offsetof(struct regblk_hdr_t, sw0) and sw1.
abbrev pub hdr_sw0 : ℕ
hdr_sw0 = 8

abbrev pub hdr_sw1 : ℕ
hdr_sw1 = 12

abbrev pub or_default : Result ℕ → ℕ → ℕ
or_default (ok v) d = v
or_default (err _) d = d

abbrev pub is_set : Result ℕ → Bool
is_set (ok v) = not (v == 0)
is_set (err _) = false

-- Which scratch register is whose.
abbrev pub set_request : Setup → Arb → Arb
set_request s hw =
    if is_set s.arbitration_request
    then record hw { local = hdr_sw1; peer = hdr_sw0 }
    else record hw { local = hdr_sw0; peer = hdr_sw1 }

-- The last steps of `i2c_arbitrate`, once the block's device has been looked for.
abbrev pub attach : Setup → Arb → Done × Arb × LockOps
attach s hw = elim s.device [
  | none ↦ (err eprobe_defer, hw, default_ops)
  | some info ↦ elim info [
    | none ↦ (err eprobe_defer, hw, default_ops)
    | some map ↦ (s.action, record hw { info_map = some map }, arb_ops)
  ]
]

-- The fields of the adapters' block that `cisco_i2c_init` sets.
pub record Adapters : Type 0 where
  pub arb : Arb
  pub ver : ℕ
  pub num_adapters : ℕ
  pub lock_ops : List LockOps

abbrev pub hdr_info0_majorver : Field
hdr_info0_majorver = field 5 0

abbrev pub copies : ℕ → LockOps → List LockOps
copies zero ops = []
copies (suc n) ops = ops ∷ copies n ops

-- The number of adapters: that of the nicknames, or one.
abbrev pub adapter_count : Result ℕ → ℕ
adapter_count (ok zero) = 1
adapter_count (ok (suc n)) = suc n
adapter_count (err _) = 1

abbrev pub first_ops : ℕ → LockOps → LockOps
first_ops n default_ops = if ltb 1 n then noarb_ops else default_ops
first_ops n arb_ops = arb_ops
first_ops n noarb_ops = noarb_ops

-- The settings that `_store_u32` can write.
pub data Setting : Type 0 where
  timeout_msecs peer_grant_msecs peer_retry_msecs : Setting

abbrev pub assign : Setting → ℕ → Arb → Arb
assign Setting.timeout_msecs v hw = record hw { timeout_msecs = v }
assign Setting.peer_grant_msecs v hw = record hw { peer_grant_msecs = v }
assign Setting.peer_retry_msecs v hw = record hw { peer_retry_msecs = v }

-- `msecs_to_jiffies` is the kernel's.
module _ (msecs_to_jiffies : ℕ → ℕ) where
  abbrev pub set_jiffies : Arb → Arb
  set_jiffies hw = record hw {
    timeout_jiffies = msecs_to_jiffies hw.timeout_msecs;
    peer_grant_jiffies = msecs_to_jiffies hw.peer_grant_msecs;
    peer_retry_jiffies = msecs_to_jiffies hw.peer_retry_msecs;
  }

  abbrev pub set_times : Setup → Arb → Arb
  set_times s hw =
      let hw' = set_jiffies (record hw {
        timeout_msecs = or_default s.timeout 1000;
        peer_grant_msecs = or_default s.peer_grant 100;
        peer_retry_msecs = or_default s.peer_retry 10;
      }) in
      record hw' { min_wait_msecs = hw'.timeout_msecs }

  -- `i2c_arbitrate`: the status, the state and the lock operations of the first adapter.
  unfoldable pub i2c_arbitrate : Setup → Arb → Done × Arb × LockOps
  i2c_arbitrate s hw =
      if is_set s.multi_master
      then (let hw1 = set_request s hw in
          elim s.arbitration_index [
            | err e ↦ (err e, hw1, default_ops)
            | ok v ↦
                let hw2 = set_times s (record hw1 { index = v }) in
                elim s.block [
                  | none ↦ (err enodev, hw2, default_ops)
                  | some _ ↦ elim s.handle [
                    | none ↦ (err enodev, hw2, default_ops)
                    | some _ ↦ attach s hw2
                  ]
                ]
          ])
      else (ok tt, hw, default_ops)

  -- `cisco_i2c_init`, with the result of `cisco_fpga_mfd_init`; the first adapter decides the lock
  -- operations of the others.
  unfoldable pub i2c_init : Setup → Result ℕ → Done → Arb → M Adapters
  i2c_init s nicknames mfd hw = do
    lift mfd
    data0 ← regmap_read hw.map 0
    let n : ℕ = adapter_count nicknames
    let (e, hw', ops) = i2c_arbitrate s hw
    lift e
    pure (record {
      arb = hw';
      ver = get hdr_info0_majorver data0;
      num_adapters = n;
      lock_ops = copies n (first_ops n ops);
    })

  -- `_store_u32` on one of the three settings, with the number that `sscanf` read when it used up the
  -- buffer: a 32-bit value, after which all three times are converted again.
  unfoldable pub store_u32 : Setting → Option ℕ → ℕ → Arb → Result ℕ × Arb
  store_u32 field none buflen hw = (err enxio, hw)
  store_u32 field (some val) buflen hw = (ok buflen, set_jiffies (assign field (val % 2 ^ 32) hw))
