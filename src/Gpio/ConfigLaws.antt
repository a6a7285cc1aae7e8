-- ===== src/Gpio/ConfigLaws.antt =====
-- What the attribute "config" makes of a line's register.

use native.Mathlib.Nat.{mod-eq_of_lt}
use cisco_8000_kernel_module.Bits.{pow_pos}
use cisco_8000_kernel_module.Common.{
  ltb, ◌==◌, if◌then◌else◌, Bool-cases, All, ℕ, none, ◌+◌, ◌-◌, ◌^◌, ◌≤◌, ◌≡◌, refl, ap, ◌∙◌, ◌≢◌,
  ◌⊎◌, inl, inr, true, false, ◌&&◌, some, List, [], ◌∷◌, arith,
}
use cisco_8000_kernel_module.Reg.{
  field, reg_mask_lem, Field, IsField, reg_mask, get, replace, fit, get-replace, Disjoint,
  get-replace_ne,
}
use cisco_8000_kernel_module.Gpio.Regs.{dir, dis_output, dir_input, output_tristate}
use cisco_8000_kernel_module.Gpio.Tokens.{
  token_int_type, token_fit_sel, token_trigger, token_dir, token_int_msi, token_dis_output,
  token_int_enb, token_out_state, Request,
}
use cisco_8000_kernel_module.Gpio.Config.{param, put_fields, cfg_tokens}

-- The value that a token's field is to have: what the request says, or what the word has.
abbrev pub wanted : Request → ℕ → ℕ → ℕ
wanted r word t = if r.seen t then r.value t else get (param t) word

-- Tokens whose fields are fields, and share no bit.
abbrev pub AreFields : List ℕ → Type 0
AreFields [] = Unit
AreFields (t ∷ ts) = IsField (param t) × All (λ u. Disjoint (param t) (param u)) ts × AreFields ts

cfg_tokens-AreFields : AreFields cfg_tokens
unfolding param
cfg_tokens-AreFields = omega arith

-- One round of the loop.
put_fields-cases :
    (r : Request) (t : ℕ) (ts : List ℕ) (word w : ℕ)
    → put_fields r (t ∷ ts) word ≡ some w
    → ((r.seen t ≡ false) × (put_fields r ts word ≡ some w))
      ⊎ ((r.seen t ≡ true)
          × (r.value t ≤ reg_mask (param t).hi (param t).lo)
          × (put_fields r ts (replace (param t) word (r.value t)) ≡ some w))
unfolding put_fields replace
put_fields-cases r t ts word w e = elim (Bool-cases (r.seen t)) [
  | inl s ↦ inr (s, ground arith, ground arith)
  | inr s ↦ inl (s, ground arith)
]

-- A field that none of the tokens' fields shares a bit with is as it was.
get-put_fields_ne :
    (r : Request) (ts : List ℕ) (word w : ℕ) (f : Field)
    → put_fields r ts word ≡ some w
    → AreFields ts
    → IsField f
    → All (λ t. Disjoint (param t) f) ts
    → get f w ≡ get f word
get-put_fields_ne r [] word w f e a hf d = ap (get f) (unfold put_fields in ground arith)
get-put_fields_ne r (t ∷ ts) word w f e a hf d = elim (put_fields-cases r t ts word w e) [
  | inl (_, e') ↦ get-put_fields_ne r ts word w f e' a.2 hf d.1
  | inr (_, _, e') ↦
      get-put_fields_ne r ts (replace (param t) word (r.value t)) w f e' a.2 hf d.1
      ∙ get-replace_ne (param t) f word (r.value t) a.0 hf d.0
]

Disjoint-symm : (f g : Field) → Disjoint f g → Disjoint g f
Disjoint-symm f g (inl p) = inr p
Disjoint-symm f g (inr p) = inl p

All-Disjoint-symm :
    (t : ℕ) (us : List ℕ)
    → All (λ u. Disjoint (param t) (param u)) us
    → All (λ u. Disjoint (param u) (param t)) us
All-Disjoint-symm t [] d = tt
All-Disjoint-symm t (u ∷ us) d = (Disjoint-symm (param t) (param u) d.0, All-Disjoint-symm t us d.1)

-- Writing one field does not change what is wanted of the others.
wanted-replace :
    (r : Request) (t : ℕ) (us : List ℕ) (word w : ℕ)
    → IsField (param t)
    → AreFields us
    → All (λ u. Disjoint (param t) (param u)) us
    → All (λ u. get (param u) w ≡ wanted r (replace (param t) word (r.value t)) u) us
    → All (λ u. get (param u) w ≡ wanted r word u) us
wanted-replace r t [] word w f a d same = tt
wanted-replace r t (u ∷ us) word w f a d same =
    let kept : get (param u) (replace (param t) word (r.value t)) ≡ get (param u) word =
      get-replace_ne (param t) (param u) word (r.value t) f a.0 d.0 in
    (
      same.0 ∙ ap (λ x. if r.seen u then r.value u else x) kept,
      wanted-replace r t us word w f a.2 d.1 same.1,
    )

fit_small : (f : Field) (d : ℕ) → IsField f → d ≤ reg_mask f.hi f.lo → fit f d ≡ d
fit_small f d h p =
    let n : ℕ = f.hi - f.lo + 1 in
    mod-eq_of_lt {n = d} {m = 2 ^ n} (omega (arith, reg_mask_lem f h, pow_pos n))

-- The loop gives each named field its value and leaves the others.
get-put_fields :
    (r : Request) (ts : List ℕ) (word w : ℕ)
    → put_fields r ts word ≡ some w
    → AreFields ts
    → All (λ t. get (param t) w ≡ wanted r word t) ts
get-put_fields r [] word w e a = tt
get-put_fields r (t ∷ ts) word w e a =
    let f : Field = param t in
    let apart : All (λ u. Disjoint (param u) f) ts = All-Disjoint-symm t ts a.1 in
    elim (put_fields-cases r t ts word w e) [
      | inl (s, e') ↦ (
        get-put_fields_ne r ts word w f e' a.2 a.0 apart ∙ rw s refl,
        get-put_fields r ts word w e' a.2,
      )
      | inr (s, small, e') ↦
          let word' : ℕ = replace f word (r.value t) in
          (
            get-put_fields_ne r ts word' w f e' a.2 a.0 apart
                ∙ get-replace f word (r.value t) a.0
                ∙ fit_small f (r.value t) a.0 small
                ∙ rw s refl,
            wanted-replace r t ts word w a.0 a.2 a.1 (get-put_fields r ts word' w e' a.2),
          )
    ]

-- The word that is written: an input's output is off.
abbrev pub forced : ℕ → ℕ
forced word = if get dir word == dir_input then replace dis_output word output_tristate else word

-- The fields of a line's register `cfg_stat`, as drivers/cisco/gpio.h lists them, each with its token.
abbrev pub cfg_fields : List (ℕ × Field)
cfg_fields =
    (token_int_type, field 30 28)
    ∷ (token_fit_sel, field 27 26)
    ∷ (token_trigger, field 25 25)
    ∷ (token_dir, field 24 24)
    ∷ (token_int_msi, field 23 20)
    ∷ (token_dis_output, field 6 6)
    ∷ (token_int_enb, field 5 5)
    ∷ (token_out_state, field 4 4)
    ∷ []

-- A value that the request gives is too large for its field.
abbrev pub TooLarge : Request → List (ℕ × Field) → Type 0
TooLarge r [] = ⊥
TooLarge r (p ∷ ps) =
    ((r.seen p.0 ≡ true) × (2 ^ (p.1.hi - p.1.lo + 1) ≤ r.value p.0)) ⊎ TooLarge r ps

abbrev with_fields : List ℕ → List (ℕ × Field)
with_fields [] = []
with_fields (t ∷ ts) = (t, param t) ∷ with_fields ts

put_fields-none :
    (r : Request) (ts : List ℕ) (word : ℕ)
    → put_fields r ts word ≡ none
    → AreFields ts
    → TooLarge r (with_fields ts)
unfolding put_fields replace
put_fields-none r [] word e a = ground arith
put_fields-none r (t ∷ ts) word e a =
    let f : Field = param t in
    elim (Bool-cases (r.seen t)) [
      | inr unseen ↦ inr (put_fields-none r ts word (ground arith) a.2)
      | inl seen ↦ elim (Bool-cases (ltb (reg_mask f.hi f.lo) (r.value t))) [
        | inr small ↦ inr (put_fields-none r ts (replace f word (r.value t)) (ground arith) a.2)
        | inl large ↦ inl (seen, ground (arith, reg_mask_lem f a.0, pow_pos (f.hi - f.lo + 1)))
      ]
    ]

pub put_fields-TooLarge :
    (r : Request) (word : ℕ) → put_fields r cfg_tokens word ≡ none → TooLarge r cfg_fields
unfolding param
put_fields-TooLarge r word e = put_fields-none r cfg_tokens word e cfg_tokens-AreFields

-- What the register of a line becomes: each field that the request names has its value, each other one
-- is as it was read, except that the output of an input is off.
pub record IsConfigured (r : Request) (cfg w : ℕ) : Type 0 where
  pub fields :
      All
        (λ p. get p.1 w ≡ (
          if p.0 == token_dis_output && get (field 24 24) w == 0
          then 1
          else (if r.seen p.0 then r.value p.0 else get p.1 cfg)))
        cfg_fields
  pub frame : (f : Field) → IsField f → All (λ p. Disjoint p.1 f) cfg_fields → get f w ≡ get f cfg

pub get-forced_ne :
    (word : ℕ) (f : Field) → IsField f → Disjoint dis_output f → get f (forced word) ≡ get f word
get-forced_ne word f hf d =
    ground (arith, get-replace_ne dis_output f word output_tristate (omega arith) hf d)

get-forced_self :
    (word : ℕ)
    → get dis_output (forced word)
      ≡ (if get dir (forced word) == dir_input then output_tristate else get dis_output word)
get-forced_self word = ground (
  arith,
  get-forced_ne word dir (omega arith) (inl (omega arith)),
  get-replace dis_output word output_tristate (omega arith),
)

get-forced :
    (word x t : ℕ)
    → IsField (param t)
    → (t ≡ token_dis_output) ⊎ ((t ≢ token_dis_output) × Disjoint dis_output (param t))
    → get (param t) word ≡ x
    → get (param t) (forced word)
      ≡ (if t == token_dis_output && get dir (forced word) == dir_input then output_tristate else x)
unfolding param
get-forced word x t f (inl e) same =
    let field_of : param t ≡ dis_output = ap param e in
    ground (
      arith,
      get-forced_self word,
      ap (λ g. get g word) field_of,
      ap (λ g. get g (forced word)) field_of,
    )
get-forced word x t f (inr (ne, d)) same = ground (arith, get-forced_ne word (param t) f d)

-- The token of the output mode, or one whose field is another.
abbrev IsSide : ℕ → Type 0
IsSide t =
    IsField (param t)
    × ((t ≡ token_dis_output) ⊎ ((t ≢ token_dis_output) × Disjoint dis_output (param t)))

cfg_tokens-IsSide : All IsSide cfg_tokens
unfolding param
cfg_tokens-IsSide = grind arith

fields-forced :
    (r : Request) (cfg word : ℕ) (ts : List ℕ)
    → All IsSide ts
    → All (λ t. get (param t) word ≡ wanted r cfg t) ts
    → All
        (λ t. get (param t) (forced word) ≡ (
          if t == token_dis_output && get dir (forced word) == dir_input
          then output_tristate
          else wanted r cfg t))
        ts
fields-forced r cfg word [] s a = tt
fields-forced r cfg word (t ∷ ts) s a =
    (get-forced word (wanted r cfg t) t s.0.0 s.0.1 a.0, fields-forced r cfg word ts s.1 a.1)

pub put_fields-IsConfigured :
    (r : Request) (cfg word : ℕ)
    → put_fields r cfg_tokens cfg ≡ some word
    → IsConfigured r cfg (forced word)
unfolding param
put_fields-IsConfigured r cfg word e = record {
  fields =
      fields-forced r cfg word cfg_tokens cfg_tokens-IsSide
        (get-put_fields r cfg_tokens cfg word e cfg_tokens-AreFields);
  frame = λ f hf d.
      get-forced_ne word f hf d.1.1.1.1.1.0
      ∙ get-put_fields_ne r cfg_tokens cfg word f e cfg_tokens-AreFields hf d;
}
