-- ===== src/Tests/Settings.antt =====
-- The attributes of the GPIO lines.
use Prim.Native.String.{String}
use mathlib.Core.Path.{subst}
use mathlib.Core.List.{Permᴰ}
use cisco_8000_kernel_module.Common.{
  leb, ◌==◌, if◌then◌else◌, length, drop, All, ℕ, zero, suc, ◌+◌, ◌-◌, ◌*◌, ◌≡◌, refl, ◌⊎◌, true,
  false, Option, none, some, List, [], ◌∷◌, arith,
}
use cisco_8000_kernel_module.Env.{History, Result, einval, read, ok, err}
use cisco_8000_kernel_module.Text.{codes, same_start, same_string, index_of}
use cisco_8000_kernel_module.Reg.{get}
use cisco_8000_kernel_module.Gpio.Regs.{
  cfg_stat, int_type, dir, int_enb, out_state, in_state, dir_input, Adapter, gpio_io,
}
use cisco_8000_kernel_module.Gpio.Pins.{gpio_set}
use cisco_8000_kernel_module.Gpio.Tokens.{
  token_index, token_int_type, token_fit_sel, token_trigger, token_dir, token_int_enb,
  token_out_state, Table, int_types, fit_sels, triggers, dirs, dis_outputs, int_enbs, out_states,
  table_of, Kernel, skip_while, is_digit, byp_num, Request, no_request, updated, applied, is_number,
  byp_word, read_arg, parse_piece, parse_pieces, parse_config, parse_set_clear, assigns,
}
use cisco_8000_kernel_module.Gpio.Config.{fit_sel, trigger, config_store, set_store, clear_store}
use cisco_8000_kernel_module.Gpio.Debug.{shown_of}
use cisco_8000_kernel_module.Gpio.DebugLaws.{
  found_in, matched, MatchesWords, Reads, ReadsOutput, read_arg-shown_of,
}
use cisco_8000_kernel_module.Gpio.ParseLaws.{parse_pieces-perm}
use cisco_8000_kernel_module.Gpio.Changes.{Outcome}
use cisco_8000_kernel_module.Gpio.ConfigRuns.{config_store-Outcome, length_of, set_store-gpio_set}
use cisco_8000_kernel_module.Tests.Machines.{steady}

-- A pattern matches up to its "%", or as a whole.
abbrev conversion : String → Option ℕ
conversion s = index_of 37 (codes s)

unfoldable match_words : Table → List ℕ → Option (ℕ × List ℕ)
match_words [] arg = none
match_words ((v, s) ∷ table) arg =
    let rest = match_words table arg in
    elim (conversion s) [
      | some n ↦ if same_start n (codes s) arg then some (v, drop n arg) else rest
      | none ↦ if same_string (codes s) arg then some (v, []) else rest
    ]

-- Decimal digits.
abbrev digits : ℕ → List ℕ → Result ℕ
digits n [] = ok n
digits n (c ∷ cs) =
    let rest = digits (n * 10 + (c - 48)) cs in if is_digit c then rest else err einval

abbrev kernel : Kernel
kernel = record {
  is_space = λ c. c == 32;
  match_token = match_words;
  kstrtoul = λ p. digits 0 p;
  can_dup = λ p. true;
}

match_words_lem :
    (table : Table) (arg : List ℕ)
    → All (λ e. conversion e.1 ≡ none) table
    → matched (match_words table arg) ≡ found_in table arg
unfolding match_words found_in
match_words_lem [] arg a = refl
match_words_lem ((v, s) ∷ table) arg a = ground (arith, a.0, match_words_lem table arg a.1)

match_table :
    (tab table : Table) (arg : List ℕ)
    → All (λ e. conversion e.1 ≡ none) tab
    → ◌≡◌ {A = Option Table} (some tab) (some table)
    → matched (match_words table arg) ≡ found_in table arg
match_table tab table arg a e =
    let same : tab ≡ table = cc in
    subst (λ x. matched (match_words x arg) ≡ found_in x arg) same (match_words_lem tab arg a)

kernel-MatchesWords : MatchesWords kernel
unfolding table_of index_of
kernel-MatchesWords zero table arg ne e = absurd (ne refl)
kernel-MatchesWords (suc zero) table arg ne e =
    match_table int_types table arg (refl, (refl, (refl, (refl, (refl, (refl, tt)))))) e
kernel-MatchesWords (suc (suc zero)) table arg ne e =
    match_table fit_sels table arg (refl, (refl, (refl, (refl, tt)))) e
kernel-MatchesWords (suc (suc (suc zero))) table arg ne e =
    match_table triggers table arg (refl, (refl, tt)) e
kernel-MatchesWords (suc (suc (suc (suc zero)))) table arg ne e =
    match_table dirs table arg (refl, (refl, tt)) e
kernel-MatchesWords (suc (suc (suc (suc (suc zero))))) table arg ne e = absurd (cc e)
kernel-MatchesWords (suc (suc (suc (suc (suc (suc zero)))))) table arg ne e =
    match_table dis_outputs table arg (refl, (refl, tt)) e
kernel-MatchesWords (suc (suc (suc (suc (suc (suc (suc zero))))))) table arg ne e =
    match_table int_enbs table arg (refl, (refl, tt)) e
kernel-MatchesWords (suc (suc (suc (suc (suc (suc (suc (suc zero)))))))) table arg ne e =
    match_table out_states table arg (refl, (refl, tt)) e
kernel-MatchesWords (suc (suc (suc (suc (suc (suc (suc (suc (suc t))))))))) table arg ne e =
    absurd (cc e)

abbrev lines : Adapter
lines = record { map = 2; irq = 0; ngpio = 3; off = 0 ∷ 5 ∷ 7 ∷ [] }

set_one : parse_set_clear kernel 3 (codes "index:1") ≡ ok 1
unfolding parse_set_clear skip_while same_start byp_num
set_one = refl

set_example :
    let h1 : History = read 2 (cfg_stat 5) ∷ [] in
    (set_store kernel lines (codes "index:1") (steady 0x1000000) [] ≡ (
      if get dir 0x1000000 == dir_input
      then (err einval, h1)
      else (length_of 7 (ok tt), (gpio_set lines 1 1 (steady 0x1000000) h1).1)))
    × (clear_store kernel lines (codes "index:1") (steady 0x1000000) [] ≡ (
        if get dir 0x1000000 == dir_input
        then (err einval, h1)
        else (length_of 7 (ok tt), (gpio_set lines 1 0 (steady 0x1000000) h1).1)))
unfolding gpio_io
set_example =
    set_store-gpio_set kernel lines (codes "index:1") 1 5 0x1000000 (steady 0x1000000) [] set_one
      refl refl

-- "index:1, dir:input, state:high"
abbrev settings : List ℕ
settings = codes "index:1, dir:input, state:high"

config_store_example :
    ((e : ℕ) × (parse_config kernel settings ≡ err e)
      × (config_store kernel lines none settings (steady 0x1000000) [] ≡ (err e, [])))
    ⊎ ((r : Request) × (parse_config kernel settings ≡ ok r)
        × Outcome kernel lines none r
            (length settings)
            (steady 0x1000000)
            []
            (config_store kernel lines none settings (steady 0x1000000) []))
config_store_example = config_store-Outcome kernel lines none settings (steady 0x1000000) []

read_arg-shown_of_example :
    let s = shown_of 1 5 none 0x51000000 0 0 in
    Reads kernel token_dir s.direction (get dir 0x51000000)
    × Reads kernel token_fit_sel s.fault (get fit_sel 0x51000000)
    × Reads kernel token_trigger s.fault_trigger (get trigger 0x51000000)
    × Reads kernel token_int_enb s.interrupt (get int_enb 0x51000000)
    × Reads kernel token_out_state s.state (
        if get dir 0x51000000 == dir_input
        then get in_state 0x51000000
        else get out_state 0x51000000)
    × ReadsOutput kernel 0x51000000 s.output
    × (read_arg kernel token_int_type s.interrupt_type ≡ (
        if leb 6 (get int_type 0x51000000)
        then err einval
        else ok
            (assigns token_int_type (get int_type 0x51000000), byp_word kernel s.interrupt_type)))
read_arg-shown_of_example = read_arg-shown_of kernel 1 5 none 0x51000000 0 0 kernel-MatchesWords

abbrev one : List ℕ
one = codes "dir:output"

abbrev two : List ℕ
two = codes " index:2"

abbrev asked_of : Request
asked_of = record {
  seen = updated (updated (λ t. false) token_dir true) token_index true;
  value = updated (updated (λ t. 0) token_dir 1) token_index 2;
  name = none;
}

in_order : parse_pieces kernel no_request (one ∷ two ∷ []) ≡ ok asked_of
unfolding parse_pieces parse_piece skip_while match_words index_of same_start read_arg is_number
    table_of same_string applied byp_num
in_order = refl

parse_pieces_example : parse_pieces kernel no_request (two ∷ one ∷ []) ≡ ok asked_of
parse_pieces_example =
    parse_pieces-perm kernel (one ∷ two ∷ []) (two ∷ one ∷ []) no_request asked_of
      (Permᴰ.swap refl refl) in_order
