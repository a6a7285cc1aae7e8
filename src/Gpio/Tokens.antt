-- ===== src/Gpio/Tokens.antt =====
-- The settings that the attribute "config" of drivers/cisco/cisco-fpga-gpio-sysfs.c reads from its
-- text. A text is a list of character codes, which ends at its end or at a NUL.
use Prim.Native.String.{String}
use cisco_8000_kernel_module.Common.{
  leb, ◌==◌, if◌then◌else◌, get_or, take, drop, ℕ, bit_or, Bool, true, false, not, ◌&&◌, ◌||◌,
  Option, none, some, List, [], ◌∷◌,
}
use cisco_8000_kernel_module.Env.{Result, enomem, einval, ok, err}
use cisco_8000_kernel_module.Text.{codes, index_of, same_start}

-- TOKEN_index and so on.
abbrev pub token_index : ℕ
token_index = 0

abbrev pub token_int_type : ℕ
token_int_type = 1

abbrev pub token_fit_sel : ℕ
token_fit_sel = 2

abbrev pub token_trigger : ℕ
token_trigger = 3

abbrev pub token_dir : ℕ
token_dir = 4

abbrev pub token_int_msi : ℕ
token_int_msi = 5

abbrev pub token_dis_output : ℕ
token_dis_output = 6

abbrev pub token_int_enb : ℕ
token_int_enb = 7

abbrev pub token_out_state : ℕ
token_out_state = 8

abbrev pub token_error : ℕ
token_error = 9

abbrev pub token_group_id : ℕ
token_group_id = 10

abbrev pub token_pin_count : ℕ
token_pin_count = 11

abbrev pub token_group_instance : ℕ
token_group_instance = 12

abbrev pub token_pin_id : ℕ
token_pin_id = 13

abbrev pub token_pin_instance : ℕ
token_pin_instance = 14

abbrev pub token_name : ℕ
token_name = 15

-- A `struct match_token` table without the entry that ends it.
abbrev pub Table : Type 0
Table = List (ℕ × String)

-- `_tokens`.
abbrev pub tokens : Table
tokens =
    (token_index, "index:%u")
    ∷ (token_int_type, "intType:%s")
    ∷ (token_fit_sel, "fitSel:%s")
    ∷ (token_trigger, "trigger:%s")
    ∷ (token_dir, "dir:%s")
    ∷ (token_int_msi, "intMSI:%s")
    ∷ (token_dis_output, "output:%s")
    ∷ (token_int_enb, "intEnb:%s")
    ∷ (token_out_state, "state:%s")
    ∷ (token_group_id, "group:%u")
    ∷ (token_pin_count, "pin_count:%u")
    ∷ (token_pin_instance, "pin_instance:%u")
    ∷ (token_group_instance, "group_instance:%u")
    ∷ (token_pin_id, "pin_id:%u")
    ∷ (token_name, "name:%s")
    ∷ []

abbrev pub int_types : Table
int_types =
    (0, "disable")
    ∷ (1, "level-high")
    ∷ (2, "level-low")
    ∷ (3, "positive-edge")
    ∷ (4, "negative-edge")
    ∷ (5, "any-edge")
    ∷ []

abbrev pub fit_sels : Table
fit_sels = (0, "disable") ∷ (1, "invert") ∷ (2, "stuck-1") ∷ (3, "stuck-0") ∷ []

abbrev pub triggers : Table
triggers = (0, "clear-fault") ∷ (1, "insert-fault") ∷ []

abbrev pub dirs : Table
dirs = (0, "input") ∷ (1, "output") ∷ []

abbrev pub dis_outputs : Table
dis_outputs = (0, "enable") ∷ (1, "tristate") ∷ []

abbrev pub int_enbs : Table
int_enbs = (0, "disable") ∷ (1, "enable") ∷ []

abbrev pub out_states : Table
out_states = (0, "low") ∷ (1, "high") ∷ []

-- The array `tokens`, of tables by token.
unfoldable pub table_of : ℕ → Option Table
table_of t =
    get_or
      (some tokens
        ∷ some int_types
        ∷ some fit_sels
        ∷ some triggers
        ∷ some dirs
        ∷ none
        ∷ some dis_outputs
        ∷ some int_enbs
        ∷ some out_states
        ∷ [])
      t none

-- The functions of the kernel that the store handlers call: `isspace`, `match_token` with the token
-- and the text of its argument or nothing for the entry that ends the table, `kstrtoul` with base
-- 0, and whether a copy of a text can be allocated.
pub record Kernel : Type 0 where
  pub is_space : ℕ → Bool
  pub match_token : Table → List ℕ → Option (ℕ × List ℕ)
  pub kstrtoul : List ℕ → Result ℕ
  pub can_dup : List ℕ → Bool

-- The text from the first character on that fails a test.
unfoldable pub skip_while : (ℕ → Bool) → List ℕ → List ℕ
skip_while test [] = []
skip_while test (c ∷ cs) = let rest = skip_while test cs in if test c then rest else c ∷ cs

-- `isdigit`, `isxdigit`, and the digits of an octal number.
abbrev pub is_digit : ℕ → Bool
is_digit c = leb 48 c && leb c 57

abbrev pub is_xdigit : ℕ → Bool
is_xdigit c = is_digit c || (leb 65 c && leb c 70) || (leb 97 c && leb c 102)

abbrev pub is_octal : ℕ → Bool
is_octal c = leb 48 c && leb c 55

-- `!*p`.
abbrev pub at_end : List ℕ → Bool
at_end p = get_or p 0 0 == 0

-- `_byp_num`; `_tolower` sets bit 5.
unfoldable pub byp_num : List ℕ → List ℕ
byp_num p =
    if get_or p 0 0 == 48
    then (if bit_or (get_or p 1 0) 0x20 == 120
        then skip_while is_xdigit (drop 2 p)
        else skip_while is_octal p)
    else skip_while is_digit p

-- `strsep` with "," and "\n" as delimiters, until it returns NULL.
unfoldable pub pieces : List ℕ → List (List ℕ)
pieces [] = [] ∷ []
pieces (c ∷ cs) =
    let rest = pieces cs in
    if c == 0
    then [] ∷ []
    else (if c == 44 || c == 10
        then [] ∷ rest
        else (elim rest [ [] ↦ (c ∷ []) ∷ [] | p ∷ ps ↦ (c ∷ p) ∷ ps ]))

-- `mask`, `value` and `name`.
pub record Request : Type 0 where
  pub seen : ℕ → Bool
  pub value : ℕ → ℕ
  pub name : Option (List ℕ)

abbrev pub no_request : Request
no_request = record { seen = λ t. false; value = λ t. 0; name = none }

abbrev pub updated {ℓ} : {A : Type ℓ} → (ℕ → A) → ℕ → A → ℕ → A
updated f t a i = if i == t then a else f i

-- What one setting says: the value of a token, or the name.
pub data Argument : Type 0 where
  assigns : ℕ → ℕ → Argument
  renames : List ℕ → Argument

-- `set_bit(token, &mask)`, and the setting.
unfoldable pub applied : ℕ → Argument → Request → Request
applied t s r = elim s [
  | assigns u v ↦ record {
    seen = updated r.seen t true;
    value = updated r.value u v;
    name = r.name;
  }
  | renames text ↦ record { seen = updated r.seen t true; value = r.value; name = some text }
]

-- The tokens whose argument is a number.
unfoldable pub is_number : ℕ → Bool
is_number t =
    t == token_index
    || t == token_int_msi
    || t == token_group_id
    || t == token_group_instance
    || t == token_pin_count
    || t == token_pin_id
    || t == token_pin_instance

module _ (k : Kernel) where
  open k use {is_space, match_token, kstrtoul, can_dup}

  -- `_byp`, and the loop to the end of a word.
  abbrev pub byp : List ℕ → List ℕ
  byp p = skip_while is_space p

  abbrev pub byp_word : List ℕ → List ℕ
  byp_word p = skip_while (λ c. not (c == 0 || is_space c)) p

  -- What a setting's argument says, and the text after it.
  unfoldable pub read_arg : ℕ → List ℕ → Result (Argument × List ℕ)
  read_arg t arg =
      if is_number t
      then (elim (kstrtoul arg) [ err e ↦ err e | ok l ↦ ok (assigns t l, byp_num arg) ])
      else (if t == token_name
          then (if can_dup arg
              then ok (
                renames (elim (index_of 32 arg) [ none ↦ arg | some i ↦ take i arg ]),
                byp_word arg,
              )
              else err enomem)
          else (elim (table_of t) [
            | none ↦ err einval
            | some table ↦ elim (match_token table arg) [
              | none ↦ err einval
              | some (v, _) ↦ ok (assigns t v, byp_word arg)
            ]
          ]))

  -- The body of the loop of `config_store` on one piece of the text.
  unfoldable pub parse_piece : Request → List ℕ → Result Request
  parse_piece r piece =
      let p : List ℕ = byp piece in
      if at_end p then ok r else (elim (match_token tokens p) [
        | none ↦ err einval
        | some (t, arg) ↦
            if r.seen t
            then err einval
            else (if can_dup arg
                then (elim (read_arg t (byp arg)) [
                  | err e ↦ err e
                  | ok (s, rest) ↦ if at_end (byp rest) then ok (applied t s r) else err einval
                ])
                else err enomem)
      ])

  unfoldable pub parse_pieces : Request → List (List ℕ) → Result Request
  parse_pieces r [] = ok r
  parse_pieces r (p ∷ ps) = elim (parse_piece r p) [ err e ↦ err e | ok r1 ↦ parse_pieces r1 ps ]

  -- The first half of `config_store`, up to the end of its first loop.
  unfoldable pub parse_config : List ℕ → Result Request
  parse_config buf = if can_dup buf then parse_pieces no_request (pieces buf) else err enomem

  -- `_parse_set_clear`, with `chip.ngpio`.
  unfoldable pub parse_set_clear : ℕ → List ℕ → Result ℕ
  parse_set_clear ngpio buf =
      let p : List ℕ = byp buf in
      if same_start 6 p (codes "index:")
      then (let arg : List ℕ = byp (drop 6 p) in
          elim (kstrtoul arg) [
            | err e ↦ err einval
            | ok v ↦
                if leb ngpio v
                then err einval
                else (if at_end (byp (byp_num arg)) then ok v else err einval)
          ])
      else err einval
