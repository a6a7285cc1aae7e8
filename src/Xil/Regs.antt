-- ===== src/Xil/Regs.antt =====
-- The registers and fields of drivers/cisco/xil.h, and which of them are not read without being asked
-- for: msd_xil_regmap.c.
use cisco_8000_kernel_module.Common.{leb, ℕ, Bool, ◌&&◌, ◌||◌}
use cisco_8000_kernel_module.Reg.{Field, field}

-- offsetof(struct xil_regs_t, …).
abbrev pub cfg1 : ℕ
cfg1 = 0x24

abbrev pub cfg5 : ℕ
cfg5 = 0x34

abbrev pub drp_addr : ℕ
drp_addr = 0xa8

abbrev pub status0 : ℕ
status0 = 0xbc

abbrev pub status1 : ℕ
status1 = 0xc0

abbrev pub status2 : ℕ
status2 = 0xc4

abbrev pub scratchram : ℕ
scratchram = 0x100

abbrev pub arbi_regs : ℕ
arbi_regs = 0x500

abbrev pub platform_id : Field
platform_id = field 31 28

abbrev pub fpga_id : Field
fpga_id = field 27 20

abbrev pub board_ver : Field
board_ver = field 15 12

abbrev pub board_type : Field
board_type = field 11 8

abbrev pub gen_conf_outshifts : Field
gen_conf_outshifts = field 8 8

abbrev pub gen_conf_console : Field
gen_conf_console = field 13 13

abbrev pub master_select : Field
master_select = field 10 10

-- enum xil_status0_platform_id.
abbrev pub fixed : ℕ
fixed = 1

abbrev pub distributed : ℕ
distributed = 2

abbrev pub central : ℕ
central = 3

-- `_precious_reg`.
unfoldable pub precious_reg : ℕ → Bool
precious_reg reg = leb arbi_regs reg || (leb drp_addr reg && leb reg status0)
