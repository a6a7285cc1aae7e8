-- ===== src/Tests/Registers.antt =====
-- The field accessors at the fields of the GPIO and header registers.
use cisco_8000_kernel_module.Common.{◌≡◌, refl, inr, arith}
use cisco_8000_kernel_module.Reg.{get, replace, get-replace, get-replace_ne}
use cisco_8000_kernel_module.Gpio.Regs.{int_type, dir}

get-replace_example : get int_type (replace int_type 0x8123_4567 13) ≡ 5
get-replace_example = get-replace int_type 0x8123_4567 13 (omega arith)

get-replace_ne_example : get dir (replace int_type 0x8123_4567 13) ≡ get dir 0x8123_4567
get-replace_ne_example =
    get-replace_ne int_type dir 0x8123_4567 13 (omega arith) (omega arith) (inr (omega arith))

get_runs : get int_type 0xd123_4567 ≡ 5
unfolding get
get_runs = refl
