-- ===== src/Gpio/Regs.antt =====
-- The registers of drivers/cisco/gpio.h and the lookup of a line's pin.
use cisco_8000_kernel_module.Common.{ℕ, ◌+◌, ◌*◌, ◌≡◌, List, leb, length, get_or, if◌then◌else◌}
use cisco_8000_kernel_module.Env.{Result, ok, err, einval}
use cisco_8000_kernel_module.Reg.{Field, field}

-- offsetof(struct gpio_regs_v5_t, …).
abbrev pub sw1 : ℕ
sw1 = 0xc

abbrev pub cfg0 : ℕ
cfg0 = 0x20

-- `io[pin].cfg_stat`, `.set`, `.clr` and `.mem[0]`.
abbrev pub cfg_stat : ℕ → ℕ
cfg_stat pin = 0x40 + 0x20 * pin

abbrev pub set_reg : ℕ → ℕ
set_reg pin = 0x40 + 0x20 * pin + 4

abbrev pub clr_reg : ℕ → ℕ
clr_reg pin = 0x40 + 0x20 * pin + 8

abbrev pub mem0 : ℕ → ℕ
mem0 pin = 0x40 + 0x20 * pin + 0x10

abbrev pub int_type : Field
int_type = field 30 28

abbrev pub dir : Field
dir = field 24 24

abbrev pub int_msi : Field
int_msi = field 23 20

abbrev pub dis_output : Field
dis_output = field 6 6

abbrev pub int_enb : Field
int_enb = field 5 5

abbrev pub out_state : Field
out_state = field 4 4

abbrev pub int_state : Field
int_state = field 1 1

abbrev pub in_state : Field
in_state = field 0 0

-- Bits of the `set` and `clr` registers.
abbrev pub set_out_state : Field
set_out_state = field 4 4

abbrev pub clr_out_state : Field
clr_out_state = field 4 4

abbrev pub clr_int_state : Field
clr_int_state = field 1 1

abbrev pub mem_is_group : Field
mem_is_group = field 31 31

abbrev pub mem_group_id : Field
mem_group_id = field 27 16

abbrev pub mem_group_pin_count : Field
mem_group_pin_count = field 15 8

abbrev pub mem_pin_id : Field
mem_pin_id = field 30 8

abbrev pub mem_pin_instance : Field
mem_pin_instance = field 7 0

-- enum gpio_io_cfg_stat_dir_e, …_disoutput_e, …_intenb_e, …_inState_e and …_outState_e.
abbrev pub dir_input : ℕ
dir_input = 0

abbrev pub dir_output : ℕ
dir_output = 1

abbrev pub output_enable : ℕ
output_enable = 0

abbrev pub output_tristate : ℕ
output_tristate = 1

abbrev pub int_disable : ℕ
int_disable = 0

abbrev pub int_enable : ℕ
int_enable = 1

abbrev pub state_low : ℕ
state_low = 0

abbrev pub state_high : ℕ
state_high = 1

-- enum gpio_io_cfg_stat_intType_e.
abbrev pub type_disabled : ℕ
type_disabled = 0

abbrev pub level_active_high : ℕ
level_active_high = 1

abbrev pub level_active_low : ℕ
level_active_low = 2

abbrev pub positive_edge : ℕ
positive_edge = 3

abbrev pub negative_edge : ℕ
negative_edge = 4

abbrev pub any_edge : ℕ
any_edge = 5

abbrev pub max_gpios : ℕ
max_gpios = 1022

-- struct gpio_adapter_t: the regmap, the parent interrupt's hardware number, and the pin of each line.
pub record Adapter : Type 0 where
  pub map : ℕ
  pub irq : ℕ
  pub ngpio : ℕ
  pub off : List ℕ

-- `off` has `ngpio` entries.
abbrev pub IsAdapter : Adapter → Type 0
IsAdapter p = length p.off ≡ p.ngpio

-- `cisco_fpga_gpio_io`: the pin of line `offset`, or ERR_PTR(-EINVAL).
unfoldable pub gpio_io : Adapter → ℕ → Result ℕ
gpio_io p offset =
    if leb p.ngpio offset
    then err einval
    else let pin = get_or p.off offset 0 in if leb max_gpios pin then err einval else ok pin
