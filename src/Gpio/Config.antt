-- ===== src/Gpio/Config.antt =====
-- The store handlers of drivers/cisco/cisco-fpga-gpio-sysfs.c: "config", "set" and "clear".
use cisco_8000_kernel_module.Common.{
  ltb, leb, ◌==◌, if◌then◌else◌, length, get_or, set, ℕ, ◌%◌, ◌^◌, bit_or, Bool, true, false, not,
  ◌&&◌, ◌||◌, Option, none, some, List, [], ◌∷◌,
}
use cisco_8000_kernel_module.Env.{
  M, pure, fail, lift, ◌>>=◌, ◌>>◌, regmap_read, regmap_write, einval,
}
use cisco_8000_kernel_module.Text.{same_string}
use cisco_8000_kernel_module.Reg.{Field, field, reg_mask, reg_get, reg_replace, get, put, replace}
use cisco_8000_kernel_module.Gpio.Regs.{
  cfg_stat, set_reg, clr_reg, mem0, int_type, dir, int_msi, dis_output, int_enb, out_state,
  set_out_state, clr_out_state, clr_int_state, mem_is_group, mem_group_id, mem_group_pin_count,
  mem_pin_id, mem_pin_instance, dir_input, output_tristate, Adapter, gpio_io,
}
use cisco_8000_kernel_module.Gpio.Tokens.{
  token_index, token_int_type, token_fit_sel, token_trigger, token_dir, token_int_msi,
  token_dis_output, token_int_enb, token_out_state, token_group_id, token_pin_count,
  token_group_instance, token_pin_id, token_pin_instance, Kernel, Request, parse_config,
  parse_set_clear,
}

abbrev pub fit_sel : Field
fit_sel = field 27 26

abbrev pub trigger : Field
trigger = field 25 25

abbrev pub mem_group_instance : Field
mem_group_instance = field 7 0

abbrev pub clr_int_enb : Field
clr_int_enb = field 5 5

-- The array `params`: the field of a token.
unfoldable pub param : ℕ → Field
param t =
    get_or
      (field 0 0
        ∷ int_type
        ∷ fit_sel
        ∷ trigger
        ∷ dir
        ∷ int_msi
        ∷ dis_output
        ∷ int_enb
        ∷ out_state
        ∷ field 0 0
        ∷ mem_group_id
        ∷ mem_group_pin_count
        ∷ mem_group_instance
        ∷ mem_pin_id
        ∷ mem_pin_instance
        ∷ [])
      t (field 0 0)

-- Whether the settings about the pin's identity agree with what `mem[0]` says that it is.
unfoldable pub kind_fits : Request → ℕ → Bool
kind_fits r mem =
    let is_group : Bool = not (get mem_is_group mem == 0) in
    let as_pin : Bool = r.seen token_pin_id || r.seen token_pin_instance in
    if r.seen token_group_id || r.seen token_group_instance || r.seen token_pin_count
    then is_group && not as_pin
    else (if as_pin then not is_group else true)

-- The loop over the tokens after `token_error`, which compares with `mem[0]`.
unfoldable pub mem_fits : Request → List ℕ → ℕ → Bool
mem_fits r [] mem = true
mem_fits r (t ∷ ts) mem =
    let rest = mem_fits r ts mem in
    if r.seen t && not (reg_get mem (param t).hi (param t).lo == r.value t) then false else rest

-- The loop over the tokens before `token_error`, which puts the values in the word; `none` is a value
-- out of range.
unfoldable pub put_fields : Request → List ℕ → ℕ → Option ℕ
put_fields r [] word = some word
put_fields r (t ∷ ts) word =
    let f : Field = param t in
    let same = put_fields r ts word in
    let next = put_fields r ts (reg_replace word (r.value t) f.hi f.lo) in
    if r.seen t then (if ltb (reg_mask f.hi f.lo) (r.value t) then none else next) else same

abbrev pub cfg_tokens : List ℕ
cfg_tokens =
    token_int_type ∷ token_fit_sel ∷ token_trigger ∷ token_dir ∷ token_int_msi ∷ token_dis_output
    ∷ token_int_enb ∷ token_out_state ∷ []

abbrev pub mem_tokens : List ℕ
mem_tokens =
    token_group_id ∷ token_pin_count ∷ token_group_instance ∷ token_pin_id ∷ token_pin_instance ∷ []

-- `chip->names`, where NULL is `none`.
abbrev pub Names : Type 0
Names = Option (List (Option (List ℕ)))

-- The name of the line after a successful store; a failed copy leaves NULL.
unfoldable pub rename : Kernel → Request → ℕ → Names → Names
rename k r index names = elim r.name [
  | none ↦ names
  | some name ↦ elim names [
    | none ↦ none
    | some ns ↦
        let given : Names = some (set ns index (if k.can_dup name then some name else none)) in
        elim (get_or ns index none) [
          | none ↦ given
          | some old ↦ if same_string old name then some ns else given
        ]
  ]
]

-- The writes of `config_store`: an input is tri-stated, and its interrupt cleared.
unfoldable pub write_config : Adapter → ℕ → ℕ → M (Unit {0})
write_config p pin word =
    if get dir word == dir_input
    then (regmap_write p.map (clr_reg pin) (bit_or (put clr_int_enb 1) (put clr_int_state 1))
        >> regmap_write p.map (cfg_stat pin) (replace dis_output word output_tristate))
    else regmap_write p.map (cfg_stat pin) word

-- The second half of `config_store`: the length and the names after it.
unfoldable pub apply_config : Kernel → Adapter → Names → Request → ℕ → M (ℕ × Names)
apply_config k p names r buflen =
    let index : ℕ = r.value token_index % 2 ^ 32 in
    if r.seen token_index
    then (if leb p.ngpio index then fail einval else (do
      pin ← lift (gpio_io p index)
      cfg ← regmap_read p.map (cfg_stat pin)
      mem ← regmap_read p.map (mem0 pin)
      if kind_fits r mem && mem_fits r mem_tokens mem
          then (elim (put_fields r cfg_tokens cfg) [
            | none ↦ fail einval
            | some word ↦ write_config p pin word >> pure (buflen, rename k r index names)
          ])
          else fail einval))
    else fail einval

unfoldable pub config_store : Kernel → Adapter → Names → List ℕ → M (ℕ × Names)
config_store k p names buf = do r ← lift (parse_config k buf); apply_config k p names r (length buf)

-- `set_store` and `clear_store`.
unfoldable pub set_store : Kernel → Adapter → List ℕ → M ℕ
set_store k p buf = do
  index ← lift (parse_set_clear k p.ngpio buf)
  pin ← lift (gpio_io p index)
  v ← regmap_read p.map (cfg_stat pin)
  if get dir v == dir_input
      then fail einval
      else regmap_write p.map (set_reg pin) (put set_out_state 1) >> pure (length buf)

unfoldable pub clear_store : Kernel → Adapter → List ℕ → M ℕ
clear_store k p buf = do
  index ← lift (parse_set_clear k p.ngpio buf)
  pin ← lift (gpio_io p index)
  v ← regmap_read p.map (cfg_stat pin)
  if get dir v == dir_input
      then fail einval
      else regmap_write p.map (clr_reg pin) (put clr_out_state 1) >> pure (length buf)
