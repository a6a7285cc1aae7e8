-- ===== src/Pseq/Attrs.antt =====
-- The attributes of the power sequencer in drivers/cisco/cisco-fpga-pseq.c, on the registers of
-- drivers/cisco/pseq.h. What `sscanf` reads is a parameter, and a format is the numbers it prints.
use cisco_8000_kernel_module.Common.{
  ltb, ◌==◌, if◌then◌else◌, length, get_or, set, ℕ, bit_or, true, false, Option, none, some, List,
  [], ◌∷◌,
}
use cisco_8000_kernel_module.Env.{bug_on, einval, ok, err}
use cisco_8000_kernel_module.Reg.{Field, field, get, put}
use cisco_8000_kernel_module.Attributes.Parse.{Entry, store_table_entry}
use cisco_8000_kernel_module.Attributes.Attr.{Line, FmtFn, ParseFn, Attr, attr_table, attr_rw2}

-- offsetof(struct pseq_regs_v4_t, …).
abbrev pub intr_cfg0 : ℕ
intr_cfg0 = 0x84

abbrev pub intr_cfg1 : ℕ
intr_cfg1 = 0x88

abbrev pub gen_cfg : ℕ
gen_cfg = 0x8c

abbrev pub gen_stat : ℕ
gen_stat = 0x90

abbrev pub power_en0 : ℕ
power_en0 = 0xa4

abbrev pub power_good0 : ℕ
power_good0 = 0xb4

abbrev pub power_ov0 : ℕ
power_ov0 = 0xc4

abbrev pub intr_cfg0_data : Field
intr_cfg0_data = field 23 0

abbrev pub intr_cfg1_msi : Field
intr_cfg1_msi = field 3 0

abbrev pub ignore_uv : Field
ignore_uv = field 0 0

abbrev pub user_power_on : Field
user_power_on = field 1 1

abbrev pub user_power_off : Field
user_power_off = field 2 2

abbrev pub user_power_cycle : Field
user_power_cycle = field 3 3

abbrev pub ignore_ov : Field
ignore_ov = field 4 4

abbrev pub ignore_device_err : Field
ignore_device_err = field 5 5

abbrev pub ignore_other_err : Field
ignore_other_err = field 6 6

abbrev pub power_down_reason : Field
power_down_reason = field 13 11

abbrev pub power_state : Field
power_state = field 10 9

abbrev pub power_status_led : Field
power_status_led = field 8 0

abbrev decimal : ℕ → Line
decimal n = record { hex = false; number = n }

-- `_interrupt_fmt` and `_interrupt_parse`: the MSI and the cookie.
unfoldable pub interrupt_fmt : FmtFn
interrupt_fmt datas =
    if ltb (length datas) 2
    then err bug_on
    else ok (
        decimal (get intr_cfg1_msi (get_or datas 1 0))
        ∷ decimal (get intr_cfg0_data (get_or datas 0 0))
        ∷ [])

-- What `sscanf` reads with "msi: %i; cookie: %i %n".
pub record Interrupt : Type 0 where
  pub msi : ℕ
  pub cookie : ℕ
  pub consumed : ℕ

unfoldable pub interrupt_parse : (List ℕ → Option Interrupt) → ParseFn
interrupt_parse scan buf datas =
    if ltb (length datas) 2 then (err bug_on, datas) else (elim (scan buf) [
      | none ↦ (err einval, datas)
      | some s ↦ (
        ok s.consumed,
        set (set datas 0 (put intr_cfg0_data s.cookie)) 1 (put intr_cfg1_msi s.msi),
      )
    ])

-- The attribute "interrupt".
unfoldable pub interrupt_attr : (List ℕ → Option Interrupt) → Attr
interrupt_attr scan = attr_rw2 interrupt_fmt (interrupt_parse scan) intr_cfg0 intr_cfg1

abbrev hexadecimal : ℕ → Line
hexadecimal n = record { hex = true; number = n }

-- '1' or '0'.
abbrev flag_of : Field → ℕ → ℕ
flag_of f cfg = if get f cfg == 0 then 0 else 1

-- `_config_fmt`.
unfoldable pub config_fmt : FmtFn
config_fmt datas =
    let cfg : ℕ = get_or datas 0 0 in
    ok (
      hexadecimal cfg
      ∷ decimal (flag_of ignore_other_err cfg)
      ∷ decimal (flag_of ignore_device_err cfg)
      ∷ decimal (flag_of ignore_ov cfg)
      ∷ decimal (flag_of ignore_uv cfg)
      ∷ [])

-- `_config_store_table`: "on", "off", "cycle", "ignore", "other", "device", "ov" and "uv".
unfoldable pub config_store_table : List Entry
config_store_table =
    store_table_entry (111 ∷ 110 ∷ []) (put user_power_on 1)
    ∷ store_table_entry (111 ∷ 102 ∷ 102 ∷ []) (put user_power_off 1)
    ∷ store_table_entry (99 ∷ 121 ∷ 99 ∷ 108 ∷ 101 ∷ []) (put user_power_cycle 1)
    ∷ store_table_entry (105 ∷ 103 ∷ 110 ∷ 111 ∷ 114 ∷ 101 ∷ []) (
        bit_or
          (bit_or (bit_or (put ignore_other_err 1) (put ignore_device_err 1)) (put ignore_ov 1))
          (put ignore_uv 1))
    ∷ store_table_entry (111 ∷ 116 ∷ 104 ∷ 101 ∷ 114 ∷ []) (put ignore_other_err 1)
    ∷ store_table_entry (100 ∷ 101 ∷ 118 ∷ 105 ∷ 99 ∷ 101 ∷ []) (put ignore_device_err 1)
    ∷ store_table_entry (111 ∷ 118 ∷ []) (put ignore_ov 1)
    ∷ store_table_entry (117 ∷ 118 ∷ []) (put ignore_uv 1)
    ∷ []

-- The attribute "config".
unfoldable pub config_attr : Attr
config_attr = attr_table config_fmt config_store_table gen_cfg

-- `_status_fmt`: the raw word, the index of the reason, that of the state, and the LED.
unfoldable pub status_fmt : FmtFn
status_fmt datas =
    let word : ℕ = get_or datas 0 0 in
    ok (
      hexadecimal word
      ∷ decimal (get power_down_reason word)
      ∷ decimal (get power_state word)
      ∷ hexadecimal (get power_status_led word)
      ∷ [])
