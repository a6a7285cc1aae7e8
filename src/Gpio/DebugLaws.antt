-- ===== src/Gpio/DebugLaws.antt =====
-- The words that `cisco_fpga_gpio_dbg_show` shows are those that the attribute "config" reads.
use Prim.Native.String.{String}
use native.Mathlib.Nat.{mod-lt}
use cisco_8000_kernel_module.Bits.{pow_pos}
use cisco_8000_kernel_module.Common.{
  leb, ◌==◌, if◌then◌else◌, ==_iff, Bool-cases, get_or, ℕ, zero, suc, ◌+◌, ◌-◌, ◌/◌, ◌^◌, ◌<◌, ◌≡◌,
  refl, ap, ◌∙◌, ◌≢◌, inl, inr, false, ◌||◌, Option, none, some, List, [], ◌∷◌, arith,
}
use cisco_8000_kernel_module.Env.{einval, ok, err}
use cisco_8000_kernel_module.Text.{codes, same_string}
use cisco_8000_kernel_module.Reg.{Field, IsField, get, get_lem}
use cisco_8000_kernel_module.Gpio.Regs.{
  int_type, dir, dis_output, int_enb, out_state, in_state, dir_input,
}
use cisco_8000_kernel_module.Gpio.Tokens.{
  token_index, token_int_type, token_fit_sel, token_trigger, token_dir, token_dis_output,
  token_int_enb, token_out_state, token_name, Table, int_types, fit_sels, triggers, dirs,
  dis_outputs, int_enbs, out_states, table_of, Kernel, is_number, byp_word, read_arg, assigns,
}
use cisco_8000_kernel_module.Gpio.Config.{fit_sel, trigger}
use cisco_8000_kernel_module.Gpio.Debug.{
  int_type_labels, fit_sel_labels, trigger_labels, dir_labels, dis_output_labels, int_enb_labels,
  state_labels, label, shown_of,
}

-- The first entry of a table whose pattern is the text, as `match_token` finds it for patterns without
-- a conversion.
unfoldable pub found_in : Table → List ℕ → Option ℕ
found_in [] text = none
found_in ((v, s) ∷ table) text =
    let rest = found_in table text in if same_string (codes s) text then some v else rest

-- The token that was matched.
abbrev pub matched : Option (ℕ × List ℕ) → Option ℕ
matched none = none
matched (some (v, _)) = some v

-- `match_token` on the tables of words: those of the tokens other than the first.
abbrev pub MatchesWords : Kernel → Type 0
MatchesWords k =
    (t : ℕ) (table : Table) (arg : List ℕ)
    → t ≢ token_index
    → table_of t ≡ some table
    → matched (k.match_token table arg) ≡ found_in table arg

-- The word at a value finds the value again.
abbrev Finds : Table → List String → ℕ → Type 0
Finds table labels x = found_in table (codes (get_or labels x "")) ≡ some x

two-Finds :
    (table : Table) (labels : List String)
    → Finds table labels 0
    → Finds table labels 1
    → (x : ℕ) → x < 2
    → Finds table labels x
two-Finds table labels f0 f1 zero p = f0
two-Finds table labels f0 f1 (suc zero) p = f1
two-Finds table labels f0 f1 (suc (suc x)) p = absurd (omega arith)

fit_sel-Finds : (x : ℕ) → x < 4 → Finds fit_sels fit_sel_labels x
unfolding found_in same_string
fit_sel-Finds zero p = refl
fit_sel-Finds (suc zero) p = refl
fit_sel-Finds (suc (suc zero)) p = refl
fit_sel-Finds (suc (suc (suc zero))) p = refl
fit_sel-Finds (suc (suc (suc (suc x)))) p = absurd (omega arith)

-- The words of the interrupt types 6 and 7 are not in the table.
int_type-found_in :
    (x : ℕ)
    → x < 8
    → found_in int_types (codes (get_or int_type_labels x "")) ≡ (if leb 6 x then none else some x)
unfolding found_in same_string
int_type-found_in zero p = refl
int_type-found_in (suc zero) p = refl
int_type-found_in (suc (suc zero)) p = refl
int_type-found_in (suc (suc (suc zero))) p = refl
int_type-found_in (suc (suc (suc (suc zero)))) p = refl
int_type-found_in (suc (suc (suc (suc (suc zero))))) p = refl
int_type-found_in (suc (suc (suc (suc (suc (suc zero)))))) p = refl
int_type-found_in (suc (suc (suc (suc (suc (suc (suc zero))))))) p = refl
int_type-found_in (suc (suc (suc (suc (suc (suc (suc (suc x)))))))) p = absurd (omega arith)

get-lt : (f : Field) (v n : ℕ) → IsField f → 2 ^ (f.hi - f.lo + 1) ≡ n → get f v < n
get-lt f v n h e = omega (
  arith,
  get_lem f v h,
  mod-lt (v / 2 ^ f.lo) {m = 2 ^ (f.hi - f.lo + 1)} (pow_pos (f.hi - f.lo + 1)),
)

-- An argument that is a word of a token's table is read as the word's value.
read_arg_word :
    (k : Kernel) (t : ℕ) (table : Table) (arg : List ℕ) (x : ℕ)
    → MatchesWords k
    → (is_number t || t == token_name) ≡ false
    → table_of t ≡ some table
    → found_in table arg ≡ some x
    → read_arg k t arg ≡ ok (assigns t x, byp_word k arg)
unfolding read_arg is_number
read_arg_word k t table arg x m kind tab e = ground (arith, m t table arg)

read_arg_other :
    (k : Kernel) (t : ℕ) (table : Table) (arg : List ℕ)
    → MatchesWords k
    → (is_number t || t == token_name) ≡ false
    → table_of t ≡ some table
    → found_in table arg ≡ none
    → read_arg k t arg ≡ err einval
unfolding read_arg is_number
read_arg_other k t table arg m kind tab e = ground (arith, m t table arg)

-- A text is read as this value of a token.
abbrev pub Reads : Kernel → ℕ → List ℕ → ℕ → Type 0
Reads k t arg x = read_arg k t arg ≡ ok (assigns t x, byp_word k arg)

-- The output mode is shown of outputs, and of no input.
abbrev pub ReadsOutput : Kernel → ℕ → Option (List ℕ) → Type 0
ReadsOutput k v none = get dir v ≡ dir_input
ReadsOutput k v (some arg) =
    (get dir v ≢ dir_input) × Reads k token_dis_output arg (get dis_output v)

module _ (k : Kernel) (m : MatchesWords k) where
  two-Reads :
      (t : ℕ) (table : Table) (labels : List String) (f : Field) (v : ℕ)
      → (is_number t || t == token_name) ≡ false
      → table_of t ≡ some table
      → Finds table labels 0
      → Finds table labels 1
      → IsField f
      → f.hi - f.lo + 1 ≡ 1
      → Reads k t (label labels f v) (get f v)
  two-Reads t table labels f v kind tab f0 f1 h one =
      read_arg_word k t table (label labels f v) (get f v) m kind tab
        (two-Finds table labels f0 f1 (get f v) (get-lt f v 2 h (ap (λ n. 2 ^ n) one)))

  flag-Reads :
      (v : ℕ)
      → Reads k token_dir (label dir_labels dir v) (get dir v)
        × Reads k token_trigger (label trigger_labels trigger v) (get trigger v)
        × Reads k token_int_enb (label int_enb_labels int_enb v) (get int_enb v)
        × Reads k token_dis_output (label dis_output_labels dis_output v) (get dis_output v)
  unfolding is_number table_of found_in same_string
  flag-Reads v = (
    two-Reads token_dir dirs dir_labels dir v refl refl refl refl (omega arith) refl,
    two-Reads token_trigger triggers trigger_labels trigger v refl refl refl refl (omega arith)
        refl,
    two-Reads token_int_enb int_enbs int_enb_labels int_enb v refl refl refl refl (omega arith)
        refl,
    two-Reads token_dis_output dis_outputs dis_output_labels dis_output v refl refl refl refl
        (omega arith) refl,
  )

  state-Reads :
      (f : Field) (v : ℕ)
      → IsField f
      → f.hi - f.lo + 1 ≡ 1
      → Reads k token_out_state (label state_labels f v) (get f v)
  unfolding is_number table_of found_in same_string
  state-Reads f v h one =
      two-Reads token_out_state out_states state_labels f v refl refl refl refl h one

  fit_sel-Reads : (v : ℕ) → Reads k token_fit_sel (label fit_sel_labels fit_sel v) (get fit_sel v)
  unfolding is_number table_of
  fit_sel-Reads v =
      read_arg_word k token_fit_sel fit_sels (label fit_sel_labels fit_sel v) (get fit_sel v) m refl
        refl (fit_sel-Finds (get fit_sel v) (get-lt fit_sel v 4 (omega arith) (omega arith)))

  int_type-Reads :
      (v : ℕ)
      → let arg : List ℕ = label int_type_labels int_type v in
        read_arg k token_int_type arg ≡ (
          if leb 6 (get int_type v)
          then err einval
          else ok (assigns token_int_type (get int_type v), byp_word k arg))
  unfolding is_number table_of
  int_type-Reads v =
      let x : ℕ = get int_type v in
      let arg : List ℕ = label int_type_labels int_type v in
      let found = int_type-found_in x (get-lt int_type v 8 (omega arith) (omega arith)) in
      elim (Bool-cases (leb 6 x)) [
        | inl big ↦
            rw big (read_arg_other k token_int_type int_types arg m refl refl (found ∙ rw big refl))
        | inr small ↦
            rw small
              (read_arg_word k token_int_type int_types arg x m refl refl (found ∙ rw small refl))
      ]

-- The words that `cisco_fpga_gpio_dbg_show` shows of a line are read by the attribute "config" as the
-- values of the fields that they stand for, where `match_token` finds the entry that is the text:
-- the direction, the fault insertion, its trigger, the interrupt's switch and its type, the output
-- mode, which is shown of outputs only, and the state, which for an input is that of the input. Only
-- the words for the interrupt types 6 and 7 are refused.
pub read_arg-shown_of :
    (k : Kernel) (i off : ℕ) (name : Option (List ℕ)) (v intr mem : ℕ)
    → MatchesWords k
    → let s = shown_of i off name v intr mem in
      Reads k token_dir s.direction (get dir v)
      × Reads k token_fit_sel s.fault (get fit_sel v)
      × Reads k token_trigger s.fault_trigger (get trigger v)
      × Reads k token_int_enb s.interrupt (get int_enb v)
      × Reads k token_out_state s.state
          (if get dir v == dir_input then get in_state v else get out_state v)
      × ReadsOutput k v s.output
      × (read_arg k token_int_type s.interrupt_type ≡ (
          if leb 6 (get int_type v)
          then err einval
          else ok (assigns token_int_type (get int_type v), byp_word k s.interrupt_type)))
unfolding shown_of
read_arg-shown_of k i off name v intr mem m =
    let flags = flag-Reads k m v in
    (
      flags.0,
      fit_sel-Reads k m v,
      flags.1,
      flags.2,
      elim (Bool-cases (get dir v == dir_input)) [
        | inl input ↦ rw input (state-Reads k m in_state v (omega arith) refl)
        | inr output ↦ rw output (state-Reads k m out_state v (omega arith) refl)
      ],
      elim (Bool-cases (get dir v == dir_input)) [
        | inl input ↦ rw input ((==_iff (get dir v) dir_input).0 input)
        | inr output ↦ rw output (ground arith, flags.3)
      ],
      int_type-Reads k m v,
    )
