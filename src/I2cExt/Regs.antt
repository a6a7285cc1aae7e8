-- ===== src/I2cExt/Regs.antt =====
-- The registers of drivers/cisco/i2c-ext.h and the state that a transfer uses.
use cisco_8000_kernel_module.Common.{ℕ, ◌+◌, ◌*◌, List, Bool}
use cisco_8000_kernel_module.Reg.{Field, field}

-- offsetof(struct i2c_ext_regs_v5_t, …).
abbrev pub cfg_reg : ℕ
cfg_reg = 0x20

abbrev pub cfg2_reg : ℕ
cfg2_reg = 0x28

abbrev pub int_sts_reg : ℕ
int_sts_reg = 0x2c

abbrev pub wdata_reg : ℕ → ℕ
wdata_reg index = 0x3c + 4 * index

abbrev pub rdata_base : ℕ
rdata_base = 0x140

abbrev pub rdata_v5_base : ℕ
rdata_v5_base = 0x23c

abbrev pub int_error : Field
int_error = field 3 3

abbrev pub int_timeout : Field
int_timeout = field 2 2

abbrev pub int_done : Field
int_done = field 1 1

abbrev pub cfg_test : Field
cfg_test = field 31 31

abbrev pub cfg_dev_addr : Field
cfg_dev_addr = field 30 24

abbrev pub cfg_reg_addr : Field
cfg_reg_addr = field 23 16

abbrev pub cfg_spd_cnt : Field
cfg_spd_cnt = field 15 13

abbrev pub cfg_dev_sel : Field
cfg_dev_sel = field 9 6

abbrev pub cfg_mode : Field
cfg_mode = field 5 4

abbrev pub cfg_access_type : Field
cfg_access_type = field 3 2

abbrev pub cfg_start_access : Field
cfg_start_access = field 1 1

abbrev pub cfg_rst : Field
cfg_rst = field 0 0

abbrev pub cfg2_rdata_size : Field
cfg2_rdata_size = field 26 16

abbrev pub cfg2_wdata_size : Field
cfg2_wdata_size = field 9 0

-- i2c_ext_cfg_spdCnt__100Kbps, i2c_ext_cfg_mode__i2c, …_accessType__cur_write and …__cur_read.
abbrev pub default_speed : ℕ
default_speed = 5

abbrev pub mode_i2c : ℕ
mode_i2c = 0

abbrev pub access_cur_write : ℕ
access_cur_write = 2

abbrev pub access_cur_read : ℕ
access_cur_read = 3

-- DRIVER_I2C_HW_BUF_SIZE and DRIVER_I2C_HW_BUF_SIZE_v5.
abbrev pub hw_buf_size : ℕ
hw_buf_size = 256

abbrev pub hw_buf_size_v5 : ℕ
hw_buf_size_v5 = 512

-- I2C_M_RD, I2C_M_RECV_LEN and I2C_SMBUS_BLOCK_MAX of the Linux headers.
abbrev pub i2c_m_rd : ℕ
i2c_m_rd = 1

abbrev pub i2c_m_recv_len : ℕ
i2c_m_recv_len = 0x400

abbrev pub i2c_smbus_block_max : ℕ
i2c_smbus_block_max = 32

-- The parts of struct cisco_fpga_i2c and struct i2c_adapter that a transfer reads: the regmap,
-- whether I2C_FUNC_10BIT_ADDR is set, the hardware buffer's size, the offset of `rdata_ptr`, the
-- adapter's index, its timeout in jiffies and its retries.
pub record Hw : Type 0 where
  pub map : ℕ
  pub ten_bit : Bool
  pub bufsize : ℕ
  pub rdata_ptr : ℕ
  pub index : ℕ
  pub timeout : ℕ
  pub retries : ℕ

-- struct i2c_msg; `len` is 16 bits wide, and `buf` holds bytes.
pub record Msg : Type 0 where
  pub addr : ℕ
  pub flags : ℕ
  pub len : ℕ
  pub buf : List ℕ
