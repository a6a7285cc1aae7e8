-- ===== src/Msd/Ready.antt =====
-- The attribute "fc_ready" of drivers/cisco/cisco-fpga-msd.c: a text of eight digits for the low bits of
-- a register. A text is a list of character codes.
use cisco_8000_kernel_module.Common.{
  ◌==◌, if◌then◌else◌, get_or, set, length, ℕ, zero, suc, bit_and, bit_or, not, ◌||◌, Option, none,
  some, List, [], ◌∷◌, ◌++◌,
}
use cisco_8000_kernel_module.Env.{M, pure, fail, ◌>>=◌, enxio, einval, ok, err}
use cisco_8000_kernel_module.Reg.{bit}
use cisco_8000_kernel_module.Attributes.Attr.{
  not_present, flag_masked, ParseFn, Attr, read_regs, zeros, store,
}

-- The offset of `cfg5` in `struct msd_regs_v5_t`.
abbrev pub msd_cfg5 : ℕ
msd_cfg5 = 0x34

abbrev pub digit_0 : ℕ
digit_0 = 48

abbrev pub digit_1 : ℕ
digit_1 = 49

abbrev pub newline : ℕ
newline = 10

-- The digit for a bit, and those of `n` bits from `index` on.
abbrev pub digit_at : ℕ → ℕ → ℕ
digit_at ready index = if bit_and ready (bit index) == 0 then digit_0 else digit_1

abbrev pub digits_from : ℕ → ℕ → ℕ → List ℕ
digits_from ready index zero = []
digits_from ready index (suc n) = digit_at ready index ∷ digits_from ready (suc index) n

-- `_fc_ready_fmt`; a page has room for its text.
unfoldable pub fc_ready_fmt : List ℕ → List ℕ
fc_ready_fmt datas = digits_from (get_or datas 0 0) 0 8 ++ newline ∷ []

-- The loop of `_fc_ready_parse` over the indicators from `index` on, with the value so far.
unfoldable pub ready_word : ℕ → ℕ → List ℕ → Option ℕ
ready_word index v [] = some v
ready_word index v (c ∷ indicator) =
    let rest =
      ready_word (suc index) (if c == digit_1 then bit_or v (bit index) else v) indicator in
    if c == digit_1 || c == digit_0 then rest else none

-- `scan` is what `sscanf` reads with " %c%c%c%c%c%c%c%c %n": the eight characters and how much it has
-- consumed.
module _ (scan : List ℕ → Option (List ℕ × ℕ)) where
  -- `_fc_ready_parse`.
  unfoldable pub fc_ready_parse : ParseFn
  fc_ready_parse buf datas = elim (scan buf) [
    | none ↦ (err einval, datas)
    | some (indicator, consumed) ↦
        if not (consumed == length buf)
        then (err einval, datas)
        else (elim (ready_word 0 0 indicator) [
          | none ↦ (err einval, datas)
          | some v ↦ (ok consumed, set datas 0 v)
        ])
  ]

  -- `fc_ready` for its store handler; what it prints is the text of `fc_ready_show`.
  abbrev pub fc_ready : Attr
  fc_ready = record {
    parse_fn = some fc_ready_parse;
    fmt_fn = none;
    flags = flag_masked;
    store_table = none;
    reg = msd_cfg5 ∷ not_present ∷ [];
    mask = 0xff ∷ 0xffffffff ∷ [];
  }

  -- `cisco_fpga_sysfs_store` of `fc_ready`; no text of a number is read there.
  unfoldable pub fc_ready_store : Option ℕ → List ℕ → M ℕ
  fc_ready_store map buf = store (λ _. none) map fc_ready buf

-- `cisco_fpga_sysfs_show` of `fc_ready`.
unfoldable pub fc_ready_show : Option ℕ → M (List ℕ)
fc_ready_show none = fail enxio
fc_ready_show (some map) = do
  datas ← read_regs map (msd_cfg5 ∷ not_present ∷ []) zeros
  pure (fc_ready_fmt datas)
