-- ===== src/Gpio/Descriptor.antt =====
-- `_gpio_parse_descriptor` of drivers/cisco/cisco-fpga-gpio-init.c: "name,group,pin,low,in,1,any-edge"
-- or "name,group,pin,low,out,enable,high". What `sscanf` reads is a parameter.
use cisco_8000_kernel_module.Common.{
  leb, ◌==◌, if◌then◌else◌, length, take, drop, ℕ, suc, Bool, not, Option, none, some, List, [],
  ◌∷◌, map,
}
use cisco_8000_kernel_module.Env.{
  Result, M, pure, fail, lift, ◌>>=◌, ◌>>◌, attempt, regmap_read, regmap_write, enoent, enomem,
  einval, ok, err,
}
use cisco_8000_kernel_module.Text.{same_start, same_string, index_of}
use cisco_8000_kernel_module.Reg.{replace}
use cisco_8000_kernel_module.Gpio.Regs.{
  cfg_stat, int_type, dir, dis_output, int_enb, out_state, dir_input, dir_output, output_enable,
  output_tristate, int_disable, int_enable, state_low, state_high, type_disabled, max_gpios,
}
use cisco_8000_kernel_module.Gpio.Scan.{Element, scan_pins, PinSearch}

-- The strings of the descriptor's grammar.
abbrev pub comma : ℕ
comma = 44

abbrev pub text_in : List ℕ  -- "in,"
text_in = 105 ∷ 110 ∷ 44 ∷ []

abbrev pub text_out : List ℕ  -- "out,"
text_out = 111 ∷ 117 ∷ 116 ∷ 44 ∷ []

abbrev pub text_disable : List ℕ  -- "disable"
text_disable = 100 ∷ 105 ∷ 115 ∷ 97 ∷ 98 ∷ 108 ∷ 101 ∷ []

abbrev pub text_enable : List ℕ  -- "enable"
text_enable = 101 ∷ 110 ∷ 97 ∷ 98 ∷ 108 ∷ 101 ∷ []

abbrev pub text_tristate : List ℕ  -- "tristate"
text_tristate = 116 ∷ 114 ∷ 105 ∷ 115 ∷ 116 ∷ 97 ∷ 116 ∷ 101 ∷ []

abbrev pub text_low : List ℕ  -- "low"
text_low = 108 ∷ 111 ∷ 119 ∷ []

abbrev pub text_high : List ℕ  -- "high"
text_high = 104 ∷ 105 ∷ 103 ∷ 104 ∷ []

-- What `sscanf` stores for "%i,%i,%i,%n" if it reads the three numbers; `seen` only if a comma
-- follows them.
pub record Numbers : Type 0 where
  pub group_id : ℕ
  pub pin_id : ℕ
  pub active_low : ℕ
  pub seen : Option ℕ

-- What it stores for "%d,%n" if it reads the number.
pub record Enable : Type 0 where
  pub int_enb : ℕ
  pub seen : Option ℕ

-- `sscanf` with the two formats; the value of `seen` before it is assigned; and the text that stands
-- beyond the end of a text.
pub record Scanner : Type 0 where
  pub numbers : List ℕ → Option Numbers
  pub enable : List ℕ → Option Enable
  pub unset : ℕ
  pub beyond : List ℕ

-- `d += n`.
abbrev pub advance : Scanner → ℕ → List ℕ → List ℕ
advance k n d = if leb n (length d) then drop n d else k.beyond

abbrev pub seen_or : Option ℕ → ℕ → ℕ
seen_or none n = n
seen_or (some m) n = m

-- The word of an input: of the interrupt types, only "disable" changes the word that is written.
unfoldable pub input_word : Scanner → ℕ → List ℕ → ℕ → Result ℕ
input_word k seen d v = elim (k.enable d) [
  | none ↦ err einval
  | some s ↦
      let v1 : ℕ = replace int_enb v (if s.int_enb == 0 then int_disable else int_enable) in
      let rest : List ℕ = advance k (seen_or s.seen seen) d in
      let v2 : ℕ =
        if same_string rest text_disable then replace int_type v1 type_disabled else v1 in
      ok (replace dir v2 dir_input)
]

-- The word of an output.
unfoldable pub descriptor_output : List ℕ → ℕ → Result ℕ
descriptor_output d v = elim (index_of comma d) [
  | none ↦ err einval
  | some len ↦
      let v1 : ℕ =
        replace dis_output v
          (if same_start len d text_enable then output_enable else output_tristate) in
      let rest : List ℕ = drop (suc len) d in
      let v2 : ℕ = replace out_state v1 (
        if same_string rest text_low
        then state_low
        else (if same_string rest text_high then state_high else state_low)) in
      ok (replace dir v2 dir_output)
]

-- The word that the text after the numbers makes of `v`.
unfoldable pub descriptor_word : Scanner → ℕ → List ℕ → ℕ → Result ℕ
descriptor_word k seen d v =
    if same_start 3 d text_in
    then input_word k seen (drop 3 d) v
    else (if same_start 4 d text_out then descriptor_output (drop 4 d) v else ok v)

-- enum reboot_type_e.
abbrev pub unset_reboot : ℕ
unset_reboot = 0

abbrev pub cold_reboot : ℕ
cold_reboot = 1

abbrev pub fast_reboot : ℕ
fast_reboot = 2

abbrev pub warm_reboot : ℕ
warm_reboot = 3

abbrev pub max_reboot_type : ℕ
max_reboot_type = 4

-- `*namep`.
unfoldable pub name_of : List ℕ → Option (List ℕ)
name_of d = elim (index_of comma d) [ none ↦ none | some len ↦ some (take len d) ]

-- The part of `_gpio_parse_descriptor` after the pin has been found: `d` is the text from the numbers
-- on.
unfoldable pub apply_descriptor : Scanner → ℕ → ℕ → Element → Numbers → List ℕ → M ℕ
apply_descriptor k map reboot elt n d = do
  let seen : ℕ = seen_or n.seen k.unset
  v ← regmap_read map (cfg_stat elt.offset)
  w ← lift (descriptor_word k seen (advance k seen d) v)
  (if reboot == cold_reboot then regmap_write map (cfg_stat elt.offset) w else pure tt)
  pure elt.offset

-- `_gpio_parse_descriptor`.
unfoldable pub parse_descriptor : Scanner → PinSearch → ℕ → ℕ → List Element → List ℕ → M ℕ
parse_descriptor k s map reboot table d = elim (index_of comma d) [
  | none ↦ fail einval
  | some len ↦ elim (k.numbers (drop (suc len) d)) [
    | none ↦ fail einval
    | some n ↦ elim (s.bsearch n.pin_id table) [
      | none ↦ fail enoent
      | some elt ↦ apply_descriptor k map reboot elt n (drop (suc len) d)
    ]
  ]
]

-- The loop that fills `off`: a descriptor that fails is marked by GPIO_MAX_GPIOS.
abbrev pub entry_of : Result ℕ → ℕ
entry_of (ok i) = i
entry_of (err _) = max_gpios

unfoldable pub fill_entries :
    Scanner → PinSearch → ℕ → ℕ → List Element → List (List ℕ) → M (List ℕ)
fill_entries k s map reboot table [] = pure []
fill_entries k s map reboot table (d ∷ ds) = do
  r ← attempt (parse_descriptor k s map reboot table d)
  rest ← fill_entries k s map reboot table ds
  pure (entry_of r ∷ rest)

-- `cisco_fpga_gpio_init`: the table `off` that it fills in. `desc` is the outcome of the two
-- allocations around the property "gpio-descriptors", and of reading it.
unfoldable pub gpio_init :
    Scanner → PinSearch → ℕ → ℕ → Bool → Result (List (List ℕ)) → Bool → M (List ℕ)
gpio_init k s map reboot desc property k_table = if not desc then fail enomem else (elim property [
  | err e ↦ fail e
  | ok ds ↦
      if not k_table
      then fail enomem
      else (scan_pins map >>= λ found. fill_entries k s map reboot (s.sort found) ds)
])
