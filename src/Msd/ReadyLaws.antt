-- ===== src/Msd/ReadyLaws.antt =====
-- What a store to "fc_ready" leaves in the register, and what a show after it prints.
use mathlib.Core.Path.{subst, subst⁻¹}
use cisco_8000_kernel_module.Common.{
  ltb, ◌==◌, if◌then◌else◌, ==_iff, Bool-cases, Option-cases, length, ℕ, zero, suc, ◌+◌, ◌^◌, ◌≤◌,
  ◌<◌, bit_and, bit_or, ◌≡◌, refl, ap, ◌∙◌, ◌≢◌, inl, inr, Bool, true, false, ◌&&◌, ◌||◌, Option,
  none, some, List, [], ◌∷◌, ◌++◌, map, arith,
}
use cisco_8000_kernel_module.Env.{History, Result, Env, einval, update_bits, ok, err}
use cisco_8000_kernel_module.Env.Contents.{contents, Memory}
use cisco_8000_kernel_module.Bits.{
  testbit, testbit-bit_and, testbit-bit_or, eq_of_testbit, testbit-zero, pow_pos,
  testbit-complement, testbit-mask, testbit-pow,
}
use cisco_8000_kernel_module.Reg.{not32, bit}
use cisco_8000_kernel_module.Attributes.Attr.{
  read_present, read_regs, write_present, write_regs, store,
}
use cisco_8000_kernel_module.Msd.Ready.{
  msd_cfg5, digit_0, digit_1, newline, digit_at, digits_from, fc_ready_fmt, ready_word,
  fc_ready_parse, fc_ready_store, fc_ready_show,
}

-- A test of one bit.
bit_and-pow : (a k : ℕ) → bit_and a (2 ^ k) ≡ (if testbit a k then 2 ^ k else 0)
bit_and-pow a k = eq_of_testbit _ _ (λ i. elim (Bool-cases (i == k)) [
  | inl same ↦
      let e : i ≡ k = (==_iff i k).0 same in
      ground (arith, testbit-bit_and a (2 ^ k) i, testbit-pow k i, testbit-zero i, ap (testbit a) e)
  | inr other ↦ ground (arith, testbit-bit_and a (2 ^ k) i, testbit-pow k i, testbit-zero i)
])

digit_at-testbit : (a k : ℕ) → digit_at a k ≡ (if testbit a k then digit_1 else digit_0)
digit_at-testbit a k = ground (arith, bit_and-pow a k, pow_pos k)

abbrev pub are_digits : List ℕ → Bool
are_digits [] = true
are_digits (c ∷ cs) = (c == digit_1 || c == digit_0) && are_digits cs

-- The value so far has no bit from `index` on; then the loop succeeds exactly on digits, and its value
-- has their bits from `index` on and the old ones below.
abbrev pub Spells : ℕ → ℕ → List ℕ → Option ℕ → Type 0
Spells index v cs none = are_digits cs ≡ false
Spells index v cs (some w) =
    (are_digits cs ≡ true)
    × ((i : ℕ) → i < index → testbit w i ≡ testbit v i)
    × (digits_from w index (length cs) ≡ cs)

ready_word-Spells :
    (index v : ℕ) (cs : List ℕ)
    → ((i : ℕ) → index ≤ i → testbit v i ≡ false)
    → Spells index v cs (ready_word index v cs)
unfolding ready_word
ready_word-Spells index v [] clear = (refl, (λ i p. refl), refl)
ready_word-Spells index v (c ∷ cs) clear = elim (Bool-cases (c == digit_1 || c == digit_0)) [
  | inr neither ↦ let step : run ≡ none = ground arith in subst⁻¹ spells step (ground arith)
  | inl digit ↦
      let step : run ≡ ready_word (suc index) next cs = ground arith in
      subst⁻¹ spells step (
        extended (ready_word (suc index) next cs) digit
          (ready_word-Spells (suc index) next cs higher))
]
  where
    run : Option ℕ
    run = ready_word index v (c ∷ cs)

    spells : Option ℕ → Type 0
    spells = Spells index v (c ∷ cs)

    next : ℕ
    next = if c == digit_1 then bit_or v (bit index) else v

    next_bit : (i : ℕ) → testbit next i ≡ (testbit v i || (c == digit_1 && i == index))
    next_bit i = ground (arith, testbit-bit_or v (2 ^ index) i, testbit-pow index i)

    higher : (i : ℕ) → suc index ≤ i → testbit next i ≡ false
    higher i p = ground (arith, next_bit i, clear i (omega arith))

    extended :
        (o : Option ℕ)
        → (c == digit_1 || c == digit_0) ≡ true
        → Spells (suc index) next cs o
        → spells o
    extended none digit s = ground arith
    extended (some w) digit (all, kept, spelt) = (
      ground arith,
      (λ i p. ground (arith, kept i (omega arith), next_bit i)),
      rw (head_digit w digit (kept index (omega arith)), spelt) refl,
    )
      where
        head_digit :
            (w : ℕ)
            → (c == digit_1 || c == digit_0) ≡ true
            → testbit w index ≡ testbit next index
            → digit_at w index ≡ c
        head_digit w digit same =
            ground (arith, digit_at-testbit w index, next_bit index, clear index (omega arith))

digits_from-agree :
    (a b index n : ℕ)
    → ((i : ℕ) → index ≤ i → i < index + n → testbit a i ≡ testbit b i)
    → digits_from a index n ≡ digits_from b index n
digits_from-agree a b index zero same = refl
digits_from-agree a b index (suc n) same =
    let first : digit_at a index ≡ digit_at b index = ground (
      arith,
      digit_at-testbit a index,
      digit_at-testbit b index,
      same index (omega arith) (omega arith),
    ) in
    let rest = digits_from-agree a b (suc index) n (λ i p q. same i (omega arith) (omega arith)) in
    rw (first, rest) refl

-- The word after an update of the low eight bits.
abbrev updated_low : ℕ → ℕ → ℕ
updated_low old w = bit_or (bit_and old (not32 0xff)) (bit_and w 0xff)

testbit-updated_low :
    (old w i : ℕ) → i < 32 → testbit (updated_low old w) i ≡ testbit (if ltb i 8 then w else old) i
testbit-updated_low old w i p = ground (
  arith,
  testbit-bit_or (bit_and old (not32 0xff)) (bit_and w 0xff) i,
  testbit-bit_and old (not32 0xff) i,
  testbit-bit_and w 0xff i,
  testbit-complement 0xff 32 i (omega arith),
  testbit-mask 8 i,
)

-- `sscanf` reports success only with all its eight characters.
abbrev pub GivesEight : (List ℕ → Option (List ℕ × ℕ)) → Type 0
GivesEight scan = (buf cs : List ℕ) (n : ℕ) → scan buf ≡ some (cs, n) → length cs ≡ 8

-- The digits of an input that is read as a whole.
abbrev pub accepted : Option (List ℕ × ℕ) → ℕ → Option (List ℕ)
accepted none buflen = none
accepted (some (cs, n)) buflen = if n == buflen && are_digits cs then some cs else none

abbrev pub StoresReady :
    (ℕ → ℕ) → ℕ → Env → ℕ → Option (List ℕ) → History → Result ℕ × History → Type 0
StoresReady held map env n none h r = r ≡ (err einval, h)
StoresReady held map env n (some cs) h (r, h') =
    (r ≡ ok n)
    × ((fc_ready_show (some map) env h').0 ≡ ok (cs ++ newline ∷ []))
    × ((i : ℕ)
        → 8 ≤ i
        → i < 32
        → testbit (contents held map h' msd_cfg5) i ≡ testbit (contents held map h msd_cfg5) i)
    × ((other : ℕ) → other ≢ msd_cfg5 → contents held map h' other ≡ contents held map h other)

show_ready :
    (map x : ℕ) (env : Env) (h : History)
    → env.read_answer h map msd_cfg5 ≡ ok x
    → (fc_ready_show (some map) env h).0 ≡ ok (digits_from x 0 8 ++ newline ∷ [])
unfolding fc_ready_show fc_ready_fmt read_regs read_present
show_ready map x env h e = ground arith

-- A store to "fc_ready" and a show after it, while the registers keep what is written and `sscanf`
-- gives its eight characters or none: an input that is read as a whole and has eight digits 0 or 1
-- is stored, the show prints these digits again, and the register's upper 24 bits and the other
-- registers are as before; every other input is refused with -EINVAL before any request.
pub fc_ready_show-store :
    (scan : List ℕ → Option (List ℕ × ℕ)) (held : ℕ → ℕ) (map : ℕ) (buf : List ℕ) (env : Env)
    (h : History)
    → Memory held map env
    → GivesEight scan
    → StoresReady held map env
        (length buf)
        (accepted (scan buf) (length buf))
        h
        (fc_ready_store scan (some map) buf env h)
unfolding fc_ready_store fc_ready_parse store write_regs write_present
fc_ready_show-store scan held map buf env h mem eight = elim (Option-cases (scan buf)) [
  | inl e ↦ ground arith
  | inr ((cs, n), e) ↦ elim (Bool-cases (n == length buf)) [
    | inr part ↦ ground arith
    | inl whole ↦
        judged cs n e whole (ready_word 0 0 cs) refl
          (ready_word-Spells 0 0 cs (λ i p. testbit-zero i))
  ]
]
  where
    stores : Option (List ℕ) → Result ℕ × History → Type 0
    stores o = StoresReady held map env (length buf) o h

    run : Result ℕ × History
    run = fc_ready_store scan (some map) buf env h

    judged :
        (cs : List ℕ) (n : ℕ)
        → scan buf ≡ some (cs, n)
        → (n == length buf) ≡ true
        → (o : Option ℕ) → ready_word 0 0 cs ≡ o
        → Spells 0 0 cs o
        → stores (accepted (scan buf) (length buf)) run
    judged cs n e whole none f s =
        let no_word : accepted (scan buf) (length buf) ≡ none = ground arith in
        let step : run ≡ (err einval, h) = ground arith in rw (no_word, step) refl
    judged cs n e whole (some w) f (all, kept, spelt) =
        let digits : accepted (scan buf) (length buf) ≡ some cs = ground arith in
        let step : run ≡ (ok (length buf), h1 w) = ground (arith, mem.updates h msd_cfg5 0xff w) in
        subst⁻¹ (λ o. stores o run) digits
          (subst⁻¹ (stores (some cs)) step (
            refl,
            show_ready map (new w) env (h1 w) (mem.recalls (h1 w) msd_cfg5 ∙ ap ok (now w))
                ∙ ap (λ t. ok (t ++ newline ∷ [])) (printed cs w (eight buf cs n e) spelt),
            (λ i p q.
                ground (arith, now w, testbit-updated_low (contents held map h msd_cfg5) w i q)),
            λ other ne. ground arith,
          ))
      where
        h1 : ℕ → History
        h1 w = update_bits map msd_cfg5 0xff w ∷ h

        new : ℕ → ℕ
        new w = updated_low (contents held map h msd_cfg5) w

        now : (w : ℕ) → contents held map (h1 w) msd_cfg5 ≡ new w
        now w = ground arith

        printed :
            (cs : List ℕ) (w : ℕ)
            → length cs ≡ 8
            → digits_from w 0 (length cs) ≡ cs
            → digits_from (new w) 0 8 ≡ cs
        printed cs w len spelt =
            digits_from-agree (new w) w 0 8 (λ i p q.
              ground (arith, testbit-updated_low (contents held map h msd_cfg5) w i (omega arith)))
            ∙ subst (λ m. digits_from w 0 m ≡ cs) len spelt
