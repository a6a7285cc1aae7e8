-- ===== src/I2cExt/Access.antt =====
-- One access of the I2C-EXT controller: reset, waiting, error check and retries.
use cisco_8000_kernel_module.Common.{
  ℕ, zero, suc, ◌*◌, bit_or, Bool, true, false, not, ◌&&◌, ◌==◌, if◌then◌else◌,
}
use cisco_8000_kernel_module.Env.{
  M, ok, err, pure, fail, lift, ◌>>=◌, ◌>>◌, attempt, regmap_read, regmap_write, wait, jiffies,
  add64, time_after, out_of_fuel, eagain, efault, ebusy,
}
use cisco_8000_kernel_module.Reg.{get, put}
use cisco_8000_kernel_module.I2cExt.Regs.{
  Hw, cfg_reg, cfg2_reg, int_sts_reg, int_error, int_timeout, int_done, cfg_start_access, cfg_rst,
}

-- `_clear_intr_status`.
unfoldable pub clear_intr_status : Hw → M (Unit {0})
clear_intr_status hw =
    regmap_write hw.map int_sts_reg
      (bit_or (bit_or (put int_error 1) (put int_timeout 1)) (put int_done 1))

-- `_i2c_reset`: the reset bit is set for 33 ms and cleared.
unfoldable pub i2c_reset : Hw → M (Unit {0})
i2c_reset hw = do
  regmap_write hw.map cfg_reg (put cfg_rst 1)
  wait 33000
  e ← attempt (regmap_write hw.map cfg_reg (put cfg_rst 0))
  wait 10
  lift e

abbrev pub started : ℕ → Bool
started val = not (get cfg_start_access val == 0)

-- The loop of `_wait_done`: the last value read of the configuration register.
unfoldable pub poll : ℕ → Hw → ℕ → M ℕ
poll zero hw deadline = out_of_fuel
poll (suc fuel) hw deadline = do
  wait 80
  val ← regmap_read hw.map cfg_reg
  now ← jiffies
  elim (started val && not (time_after now deadline)) [
    | true ↦ poll fuel hw deadline
    | false ↦ pure val
  ]

unfoldable pub poll_started : ℕ → Hw → ℕ → M ℕ
poll_started fuel hw val = elim (started val) [
  | true ↦ do start ← jiffies; poll fuel hw (add64 start hw.timeout)
  | false ↦ pure val
]

-- `_wait_done`.
unfoldable pub wait_done : ℕ → Hw → ℕ → M (Unit {0})
wait_done fuel hw cfg_len = do
  if cfg_len == 0 then pure tt else wait (cfg_len * 10)
  val ← regmap_read hw.map cfg_reg
  last ← poll_started fuel hw val
  if started last then fail ebusy else pure tt

-- `_check_err`.
unfoldable pub check_err : Hw → M (Unit {0})
check_err hw = do
  val ← regmap_read hw.map int_sts_reg
  if get int_timeout val == 0
      then if get int_error val == 0
        then if get int_done val == 0 then fail ebusy else pure tt
        else fail efault
      else fail eagain

-- One round of `_retryable_cfg`: on any failure the controller is reset and its status cleared.
unfoldable pub try_cfg : ℕ → Hw → ℕ → ℕ → M (Unit {0})
try_cfg fuel hw cfg cfg_len = do
  regmap_write hw.map cfg_reg cfg
  wait_done fuel hw cfg_len
  check_err hw

unfoldable pub recover : Hw → M (Unit {0})
recover hw = do _ ← attempt (i2c_reset hw); _ ← attempt (clear_intr_status hw); pure tt

-- The loop of `_retryable_cfg`, with `left` rounds allowed after this one.
unfoldable pub retry : ℕ → ℕ → Hw → ℕ → ℕ → M (Unit {0})
retry fuel zero hw cfg cfg_len = do
  r ← attempt (try_cfg fuel hw cfg cfg_len)
  elim r [ ok _ ↦ pure tt | err e ↦ recover hw >> fail e ]
retry fuel (suc left) hw cfg cfg_len = do
  r ← attempt (try_cfg fuel hw cfg cfg_len)
  elim r [ ok _ ↦ pure tt | err e ↦ recover hw >> retry fuel left hw cfg cfg_len ]

-- `_retryable_cfg`.
unfoldable pub retryable_cfg : ℕ → Hw → ℕ → ℕ → M (Unit {0})
unfolding retry
retryable_cfg fuel hw cfg cfg_len = retry fuel hw.retries hw cfg cfg_len

-- `_write_cfg2_retryable_cfg`.
unfoldable pub write_cfg2_retryable_cfg : ℕ → Hw → ℕ → ℕ → ℕ → M (Unit {0})
write_cfg2_retryable_cfg fuel hw cfg cfg2 cfg_len = do
  regmap_write hw.map cfg2_reg cfg2
  retryable_cfg fuel hw cfg cfg_len
