-- ===== src/I2cSmb/Wait.antt =====
-- The registers, the reset, the wait for the end of a transfer and the recovery of the bus.
use cisco_8000_kernel_module.Common.{
  ◌==◌, if◌then◌else◌, ℕ, zero, suc, bit_and, bit_or, Bool, true, false, not, ◌||◌,
}
use cisco_8000_kernel_module.Env.{
  M, ok, err, pure, fail, ◌>>=◌, ◌>>◌, regmap_read, regmap_write, wait, jiffies, schedule_timeout,
  add64, time_before_eq, out_of_fuel, efault, ebusy, etimedout,
}
use cisco_8000_kernel_module.Reg.{bit}

-- CISCO_FPGA_I2C_TXBUF to CISCO_FPGA_I2C_DEV_CTRL.
abbrev pub txbuf_reg : ℕ
txbuf_reg = 0x20

abbrev pub rxbuf_reg : ℕ
rxbuf_reg = 0x24

abbrev pub csr_reg : ℕ
csr_reg = 0x28

abbrev pub istat_reg : ℕ
istat_reg = 0x30

abbrev pub ext0_reg : ℕ
ext0_reg = 0x50

abbrev pub ext1_reg : ℕ
ext1_reg = 0x54

abbrev pub dev_ctrl_reg : ℕ
dev_ctrl_reg = 0x58

-- What a transfer reads of the controller: the regmap, the version, whether I2C_FUNC_10BIT_ADDR is
-- set, and the adapter's index and timeout in jiffies.
pub record Smb : Type 0 where
  pub map : ℕ
  pub ver : ℕ
  pub ten_bit : Bool
  pub index : ℕ
  pub timeout : ℕ

-- `val & BIT(n)`.
abbrev pub has : ℕ → ℕ → Bool
has val n = not (bit_and val (bit n) == 0)

-- `cisco_fpga_i2c_reset`.
unfoldable pub smb_reset : Smb → M (Unit {0})
smb_reset hw = do
  regmap_write hw.map csr_reg (bit 25)
  wait 100
  regmap_write hw.map csr_reg 0
  regmap_write hw.map ext0_reg 0

-- Where a status is not looked at. The mark of a loop that has used up its fuel is no status, and is
-- passed on.
abbrev pub ignoring : M (Unit {0}) → M (Unit {0})
ignoring m env h =
    let (r, h') = m env h in
    elim r [ ok _ ↦ (ok tt, h') | err e ↦ if e == 0 then (err 0, h') else (ok tt, h') ]

-- `usecs_to_jiffies` is the kernel's.
module _ (usecs_to_jiffies : ℕ → ℕ) where
  -- The loop of `cisco_fpga_i2c_recover_bus`.
  unfoldable pub await_idle : ℕ → Smb → ℕ → M (Unit {0})
  await_idle zero hw deadline = out_of_fuel
  await_idle (suc fuel) hw deadline = do
    val ← regmap_read hw.map csr_reg
    elim (has val 14) [
      | false ↦ pure tt
      | true ↦ do
        schedule_timeout (usecs_to_jiffies 160)
        now ← jiffies
        elim (time_before_eq now deadline) [
          | true ↦ await_idle fuel hw deadline
          | false ↦ fail ebusy
        ]
    ]

  -- `cisco_fpga_i2c_recover_bus`.
  unfoldable pub recover_bus : ℕ → Smb → M (Unit {0})
  recover_bus fuel hw = do
    start ← jiffies
    val ← regmap_read hw.map csr_reg
    regmap_write hw.map csr_reg (bit_or val (bit 26))
    await_idle fuel hw (add64 start hw.timeout)

  -- The tests of `cisco_fpga_i2c_wait_done` once the busy bit is clear. `i2c_recover_bus` of the I2C
  -- core calls the driver's function, and its status is not looked at. The fuel is that of the recovery.
  unfoldable pub judge : ℕ → Smb → ℕ → M (Unit {0})
  judge fuel hw val =
      if has val 31 || has val 30
      then fail efault
      else (if has val 29 then (ignoring (recover_bus fuel hw) >> fail ebusy) else pure tt)

  -- The loop of `cisco_fpga_i2c_wait_done`, with `spare` as the fuel of a recovery.
  unfoldable pub poll_done : ℕ → ℕ → Smb → ℕ → M (Unit {0})
  poll_done spare zero hw deadline = out_of_fuel
  poll_done spare (suc fuel) hw deadline = do
    schedule_timeout (usecs_to_jiffies 100)
    val ← regmap_read hw.map csr_reg
    now ← jiffies
    elim (has val 14) [
      | false ↦ judge spare hw val
      | true ↦ elim (time_before_eq now deadline) [
        | true ↦ poll_done spare fuel hw deadline
        | false ↦ fail etimedout
      ]
    ]

  -- `cisco_fpga_i2c_wait_done`.
  unfoldable pub smb_wait_done : ℕ → Smb → M (Unit {0})
  smb_wait_done fuel hw = do start ← jiffies; poll_done fuel fuel hw (add64 start hw.timeout)
