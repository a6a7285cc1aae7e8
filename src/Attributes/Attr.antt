-- ===== src/Attributes/Attr.antt =====
-- The attribute of drivers/cisco/sysfs.h and its handlers in drivers/cisco/cisco-sysfs.c. Its text is
-- a list of character codes, with `buflen` its length. What a format function prints is a list of
-- lines; their characters are left out.
use cisco_8000_kernel_module.Common.{
  ltb, leb, ◌==◌, if◌then◌else◌, length, get_or, set, ℕ, zero, suc, ◌+◌, ◌*◌, ◌%◌, ◌^◌, bit_and,
  bit_or, Bool, not, ◌||◌, Option, none, some, List, [], ◌∷◌, map,
}
use cisco_8000_kernel_module.Env.{
  Result, M, pure, fail, lift, ◌>>=◌, ◌>>◌, regmap_read, regmap_write, regmap_update_bits, bug_on,
  enxio, einval, ok, err,
}
use cisco_8000_kernel_module.Attributes.Parse.{Entry, parse_table}

-- `CISCO_SYSFS_REG_NOT_PRESENT`.
abbrev pub not_present : ℕ
not_present = 0xffffffff

abbrev pub sysfs_max_data : ℕ
sysfs_max_data = 2

abbrev pub flag_hex : ℕ
flag_hex = 0x0001

abbrev pub flag_64 : ℕ
flag_64 = 0x0002

abbrev pub flag_masked : ℕ
flag_masked = 0x0004

-- A line that is printed: a number in hexadecimal or decimal.
pub record Line : Type 0 where
  pub hex : Bool
  pub number : ℕ

-- The functions of an attribute: a format function gets `data`; a parse function gets the input and
-- `data`, and returns what it has consumed or its status, and `data` after it.
abbrev pub FmtFn : Type 0
FmtFn = List ℕ → Result (List Line)

abbrev pub ParseFn : Type 0
ParseFn = List ℕ → List ℕ → Result ℕ × List ℕ

-- `struct sysfs_ext_attribute`; `none` is a NULL pointer.
pub record Attr : Type 0 where
  pub parse_fn : Option ParseFn
  pub fmt_fn : Option FmtFn
  pub flags : ℕ
  pub store_table : Option (List Entry)
  pub reg : List ℕ
  pub mask : List ℕ

-- `_regmap_read` and `_regmap_write`: the loops over the registers that are present.
unfoldable pub read_present : ℕ → List ℕ → List ℕ → M (List ℕ)
read_present map [] datas = pure datas
read_present map (r ∷ regs) [] = pure []
read_present map (r ∷ regs) (d ∷ datas) = do
  v ← (if r == not_present then pure d else regmap_read map r)
  rest ← read_present map regs datas
  pure (v ∷ rest)

unfoldable pub read_regs : ℕ → List ℕ → List ℕ → M (List ℕ)
read_regs map regs datas =
    if not (length regs == length datas) || ltb (length regs) 1
    then fail einval
    else read_present map regs datas

unfoldable pub write_present : ℕ → List ℕ → List ℕ → List ℕ → M (Unit {0})
write_present map [] masks datas = pure tt
write_present map (r ∷ regs) (m ∷ masks) (d ∷ datas) = do
  _ ← (if r == not_present then pure tt else regmap_update_bits map r m d)
  write_present map regs masks datas
write_present map (r ∷ regs) [] datas = pure tt
write_present map (r ∷ regs) (m ∷ masks) [] = pure tt

unfoldable pub write_regs : ℕ → List ℕ → List ℕ → List ℕ → M (Unit {0})
write_regs map regs masks datas =
    if not (length regs == length datas) || ltb (length regs) 1 || not (length regs == length masks)
    then fail einval
    else write_present map regs masks datas

-- `attr->flags & flag`.
abbrev flagged : ℕ → ℕ → Bool
flagged flags flag = not (bit_and flags flag == 0)

-- The number of a line: two words together, or one, under the mask if the attribute has that flag.
unfoldable pub number64 : Attr → ℕ → List ℕ → ℕ
number64 attr index datas =
    let raw : ℕ = bit_or (get_or datas index 0 * 2 ^ 32 % 2 ^ 64) (get_or datas (index + 1) 0) in
    let mask : ℕ =
      bit_or (get_or attr.mask index 0 * 2 ^ 32 % 2 ^ 64) (get_or attr.mask (index + 1) 0) in
    if flagged attr.flags flag_masked then bit_and raw mask else raw

unfoldable pub number32 : Attr → ℕ → List ℕ → ℕ
number32 attr index datas =
    let raw : ℕ = get_or datas index 0 in
    if flagged attr.flags flag_masked then bit_and raw (get_or attr.mask index 0) else raw

-- The loop of `_sysfs_fmt_raw` from `index` on, with as much fuel as there are words left.
unfoldable pub fmt_from : Attr → ℕ → ℕ → List ℕ → Result (List Line)
fmt_from attr zero index datas = ok []
fmt_from attr (suc fuel) index datas =
    let next = fmt_from attr fuel (index + 1) datas in
    let after = fmt_from attr fuel (index + 2) datas in
    let hex = flagged attr.flags flag_hex in
    if leb (length datas) index
    then ok []
    else (if get_or attr.reg index not_present == not_present
        then next
        else (if flagged attr.flags flag_64
            then (if leb (length datas) (index + 1) then err bug_on else (elim after [
              | err e ↦ err e
              | ok lines ↦ ok (record { hex = hex; number = number64 attr index datas } ∷ lines)
            ]))
            else (elim next [
              | err e ↦ err e
              | ok lines ↦ ok (record { hex = hex; number = number32 attr index datas } ∷ lines)
            ])))

unfoldable pub fmt_raw : Attr → FmtFn
fmt_raw attr datas = fmt_from attr (length datas) 0 datas

-- `_sysfs_parse_raw`; `number` is what `sscanf` reads with "%i %n", the 32 bits of the number and
-- how much it has consumed.
unfoldable pub parse_raw : (List ℕ → Option (ℕ × ℕ)) → Attr → ParseFn
parse_raw number attr buf datas =
    if get_or attr.reg 0 not_present == not_present || length datas == 0
    then (err einval, datas)
    else (elim (number buf) [
      | some (val, consumed) ↦ (ok consumed, set datas 0 val)
      | none ↦ (err einval, datas)
    ])

-- `u32 data[ARRAY_SIZE(attr->reg)] = { 0 }`.
abbrev pub zeros : List ℕ
zeros = 0 ∷ 0 ∷ []

-- `cisco_fpga_sysfs_show`, on the device's regmap or its parent's.
unfoldable pub show : Option ℕ → Attr → M (List Line)
show none attr = fail enxio
show (some map) attr = do
  datas ← read_regs map attr.reg zeros
  lift (elim attr.fmt_fn [ none ↦ fmt_raw attr datas | some fmt ↦ fmt datas ])

-- `cisco_fpga_sysfs_store`.
unfoldable pub store : (List ℕ → Option (ℕ × ℕ)) → Option ℕ → Attr → List ℕ → M ℕ
store number none attr buf = fail enxio
store number (some map) attr buf =
    let parse : ParseFn = elim attr.parse_fn [ none ↦ parse_raw number attr | some f ↦ f ] in
    let (r, datas) = parse buf zeros in
    elim r [
      | err e ↦ fail e
      | ok consumed ↦
          if consumed == length buf
          then write_regs map attr.reg attr.mask datas >> pure consumed
          else fail einval
    ]

-- `cisco_fpga_sysfs_store_table`, with the parser's passes as fuel.
unfoldable pub store_table_attr : (ℕ → Bool) → ℕ → Option ℕ → Attr → List ℕ → M ℕ
store_table_attr is_space fuel none attr buf = fail enxio
store_table_attr is_space fuel (some map) attr buf =
    let reg : ℕ = get_or attr.reg 0 not_present in
    let parse : ParseFn = elim attr.parse_fn [
      | none ↦ parse_table is_space fuel attr.store_table
      | some f ↦ f
    ] in
    let (r, datas) = parse buf zeros in
    if reg == not_present then fail einval else (elim r [
      | err e ↦ fail e
      | ok consumed ↦
          if consumed == length buf
          then regmap_write map reg (get_or datas 0 0) >> pure consumed
          else fail einval
    ])

-- `CISCO_ATTR_U32_RW_F`, and `CISCO_ATTR_RW_TABLE` with its format function.
unfoldable pub attr_u32 : ℕ → ℕ → ℕ → Attr
attr_u32 f reg m = record {
  parse_fn = none;
  fmt_fn = none;
  flags = f;
  store_table = none;
  reg = reg ∷ not_present ∷ [];
  mask = m ∷ 0xffffffff ∷ [];
}

unfoldable pub attr_table : FmtFn → List Entry → ℕ → Attr
attr_table fmt table reg = record {
  parse_fn = none;
  fmt_fn = some fmt;
  flags = 0;
  store_table = some table;
  reg = reg ∷ not_present ∷ [];
  mask = 0xffffffff ∷ 0xffffffff ∷ [];
}

-- `CISCO_ATTR_RW2`, and `CISCO_ATTR_RO` and `CISCO_ATTR_RO2`, which have no parse function.
unfoldable pub attr_rw2 : FmtFn → ParseFn → ℕ → ℕ → Attr
attr_rw2 fmt parse reg0 reg1 = record {
  parse_fn = some parse;
  fmt_fn = some fmt;
  flags = 0;
  store_table = none;
  reg = reg0 ∷ reg1 ∷ [];
  mask = 0xffffffff ∷ 0xffffffff ∷ [];
}
