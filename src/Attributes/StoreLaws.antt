-- ===== src/Attributes/StoreLaws.antt =====
-- What a store leaves in the registers, and what a show after it prints.
use mathlib.Core.Path.{subst⁻¹}
use cisco_8000_kernel_module.Common.{
  ◌==◌, if◌then◌else◌, length, ℕ, ◌^◌, ◌<◌, bit_and, bit_or, ◌≡◌, refl, ap, ◌∙◌, ◌≢◌, Bool, true,
  not, Option, none, some, List, [], ◌∷◌, map, arith,
}
use cisco_8000_kernel_module.Env.{History, Result, Env, einval, write, update_bits, ok, err}
use cisco_8000_kernel_module.Env.Contents.{contents, Memory}
use cisco_8000_kernel_module.Bits.{
  testbit-bit_and, testbit-bit_or, eq_of_testbit, testbit-complement,
}
use cisco_8000_kernel_module.Reg.{not32}
use cisco_8000_kernel_module.Attributes.Parse.{Entry, parse_table}
use cisco_8000_kernel_module.Attributes.Words.{words, AreNamed}
use cisco_8000_kernel_module.Attributes.ParseLaws.{selection, Selects, parse_table-selection}
use cisco_8000_kernel_module.Attributes.Attr.{
  not_present, flag_hex, flag_64, flag_masked, Line, FmtFn, read_present, read_regs, write_present,
  write_regs, number32, fmt_from, fmt_raw, parse_raw, zeros, show, store, store_table_attr,
  attr_u32, attr_table,
}

-- The bits under a mask after an update are those of the value.
bit_and-update :
    (old m v : ℕ)
    → m < 2 ^ 32
    → bit_and (bit_or (bit_and old (not32 m)) (bit_and v m)) m ≡ bit_and v m
bit_and-update old m v p = eq_of_testbit _ _ (λ i. ground (
  arith,
  testbit-bit_and (bit_or (bit_and old (not32 m)) (bit_and v m)) m i,
  testbit-bit_or (bit_and old (not32 m)) (bit_and v m) i,
  testbit-bit_and old (not32 m) i,
  testbit-bit_and v m i,
  testbit-complement m 32 i p,
))

-- A store that succeeds, followed by a show that prints one line.
abbrev pub StoresShows : ℕ → Line → Result ℕ × History → (History → Result (List Line)) → Type 0
StoresShows n line (r, h) printed = (r ≡ ok n) × (printed h ≡ ok (line ∷ []))

abbrev pub line_of : ℕ → ℕ → Line
line_of f x = record { hex = not (bit_and f flag_hex == 0); number = x }

-- A show of an attribute of one register.
show_u32 :
    (map f reg m x : ℕ) (env : Env) (h : History)
    → env.read_answer h map reg ≡ ok x
    → bit_and f flag_64 ≡ 0
    → reg ≢ not_present
    → (show (some map) (attr_u32 f reg m) env h).0
      ≡ ok (line_of f (if bit_and f flag_masked == 0 then x else bit_and x m) ∷ [])
unfolding show attr_u32 read_regs read_present fmt_raw fmt_from number32
show_u32 map f reg m x env h e wide present = ground arith

-- What the attribute then shows: the register's new word, or only what is under the mask.
abbrev pub shown : ℕ → ℕ → ℕ → ℕ → ℕ
shown f old m v =
    if bit_and f flag_masked == 0 then bit_or (bit_and old (not32 m)) (bit_and v m) else bit_and v m

-- Storing a number in an attribute of one register and showing it again, while the registers keep
-- what is written: the store succeeds if the number takes up the whole input, and the show prints one
-- line, the number cut to the mask if the attribute has that flag, and otherwise what the register
-- held, with the number under the mask.
pub show-store :
    (number : List ℕ → Option (ℕ × ℕ)) (held : ℕ → ℕ) (map f reg m v : ℕ) (buf : List ℕ) (env : Env)
    (h : History)
    → Memory held map env
    → bit_and f flag_64 ≡ 0
    → reg ≢ not_present
    → m < 2 ^ 32
    → number buf ≡ some (v, length buf)
    → StoresShows
        (length buf)
        (line_of f (shown f (contents held map h reg) m v))
        (store number (some map) (attr_u32 f reg m) buf env h)
        (λ h1. (show (some map) (attr_u32 f reg m) env h1).0)
unfolding store attr_u32 write_regs write_present parse_raw
show-store number held map f reg m v buf env h mem wide present mask parsed =
    let h1 : History = update_bits map reg m v ∷ h in
    let old : ℕ = contents held map h reg in
    let new : ℕ = bit_or (bit_and old (not32 m)) (bit_and v m) in
    let stored : store number (some map) (attr_u32 f reg m) buf env h ≡ (ok (length buf), h1) =
      ground (arith, mem.updates h reg m v) in
    let now : contents held map h1 reg ≡ new = ground arith in
    let line : Line = line_of f (shown f old m v) in
    let printed : History → Result (List Line) =
      λ h2. (show (some map) (attr_u32 f reg m) env h2).0 in
    subst⁻¹ (λ t. StoresShows (length buf) line t printed) stored
      (
        refl,
        show_u32 map f reg m new env h1 (mem.recalls h1 reg ∙ ap ok now) wide present
            ∙ ap (λ t. ok (line_of f t ∷ [])) (ground (arith, bit_and-update old m v mask)),
      )

-- What a store through a table comes to: either the words select a value, which becomes the
-- register's, with nothing else changed; or the input is refused, and no request is made.
abbrev pub StoresSelected :
    (ℕ → ℕ) → ℕ → ℕ → Option (ℕ × ℕ) → ℕ → History → Result ℕ × History → Type 0
StoresSelected held map reg none n h r = r ≡ (err einval, h)
StoresSelected held map reg (some (v, m)) n h (r, h') =
    (r ≡ ok n)
    × (contents held map h' reg ≡ v)
    × ((other : ℕ) → other ≢ reg → contents held map h' other ≡ contents held map h other)

store_selected :
    (is_space : ℕ → Bool) (fuel : ℕ) (fmt : FmtFn) (table : List Entry) (held : ℕ → ℕ) (map reg : ℕ)
    (buf : List ℕ) (env : Env) (h : History) (o : Option (ℕ × ℕ))
    → Memory held map env
    → reg ≢ not_present
    → Selects o (length buf) zeros (parse_table is_space fuel (some table) buf zeros)
    → StoresSelected held map reg o
        (length buf)
        h
        (store_table_attr is_space fuel (some map) (attr_table fmt table reg) buf env h)
unfolding store_table_attr attr_table
store_selected is_space fuel fmt table held map reg buf env h none mem present s = ground (arith, s)
store_selected is_space fuel fmt table held map reg buf env h (some (v, m)) mem present s =
    let step : store_table_attr is_space fuel (some map) (attr_table fmt table reg) buf env h
        ≡ (ok (length buf), write map reg v ∷ h) =
      ground (arith, s, mem.stores h reg v) in
    subst⁻¹ (StoresSelected held map reg (some (v, m)) (length buf) h) step
      (refl, ground arith, λ other ne. ground arith)

-- A store in an attribute with a table, while writes succeed: if every word of the input is a name of
-- the table, the register is overwritten with the value that the words select, and no other one
-- changes; if some word is none, the input is refused with -EINVAL before any request.
pub store_table_attr-selection :
    (is_space : ℕ → Bool) (fuel : ℕ) (fmt : FmtFn) (table : List Entry) (held : ℕ → ℕ) (map reg : ℕ)
    (buf : List ℕ) (env : Env) (h : History)
    → Memory held map env
    → AreNamed is_space table
    → 0 < length table
    → length buf < fuel
    → reg ≢ not_present
    → StoresSelected held map reg
        (selection table (words is_space true buf) 0 0)
        (length buf)
        h
        (store_table_attr is_space fuel (some map) (attr_table fmt table reg) buf env h)
store_table_attr-selection is_space fuel fmt table held map reg buf env h mem named some_entry
      enough present =
    store_selected is_space fuel fmt table held map reg buf env h
      (selection table (words is_space true buf) 0 0) mem present
      (parse_table-selection is_space fuel table buf zeros named enough some_entry (omega arith))
