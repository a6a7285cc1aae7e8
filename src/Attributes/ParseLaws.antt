-- ===== src/Attributes/ParseLaws.antt =====
-- `_sysfs_parse_table` computes what the words of its input select.
use mathlib.Core.Path.{subst⁻¹}
use cisco_8000_kernel_module.Common.{
  Option-cases, length, set, drop, List-cases, ℕ, zero, suc, ◌+◌, ◌-◌, ◌≤◌, ◌<◌, bit_and, bit_or,
  ◌≡◌, refl, sym, ap, ◌∙◌, inl, inr, Bool, true, false, Option, none, some, List, [], ◌∷◌, arith,
}
use cisco_8000_kernel_module.Env.{Result, einval, ok, err}
use cisco_8000_kernel_module.Reg.{not32}
use cisco_8000_kernel_module.Attributes.Parse.{Entry, Parsed, skip, parse_from, parse_table}
use cisco_8000_kernel_module.Attributes.Words.{
  entry_named, first_word, after_word, words, AreNamed, words-skip, skip-head, length-skip,
  drop-after_word, find_entry-entry_named, entry_named-same_word, length-same_word,
  length-first_word, words-first_word, first_word-cons,
}

-- What the words select: the later one wins where two name the same bits.
unfoldable pub selection : List Entry → List (List ℕ) → ℕ → ℕ → Option (ℕ × ℕ)
selection table [] value mask = some (value, mask)
selection table (w ∷ ws) value mask = elim (entry_named w table) [
  | none ↦ none
  | some e ↦ selection table ws (bit_or (bit_and value (not32 e.mask)) e.value) (bit_or mask e.mask)
]

-- The loop's result next to what the words select.
abbrev Agrees : Option (ℕ × ℕ) → ℕ → Parsed → Type 0
Agrees (some (v, m)) n p = p ≡ record { consumed = ok n; value = v; mask = m }
Agrees none n p = p.consumed ≡ err einval

-- The result of the parser next to what the words select.
abbrev pub Selects : Option (ℕ × ℕ) → ℕ → List ℕ → Result ℕ × List ℕ → Type 0
Selects (some (v, m)) n datas r = r ≡ (ok n, set (set datas 0 v) 1 m)
Selects none n datas r = r.0 ≡ err einval

selects :
    (o : Option (ℕ × ℕ)) (n : ℕ) (datas : List ℕ) (p : Parsed)
    → Agrees o n p
    → Selects o n datas (p.consumed, set (set datas 0 p.value) 1 p.mask)
selects none n datas p a = a
selects (some (v, m)) n datas p a = ap (λ t. (t.consumed, set (set datas 0 t.value) 1 t.mask)) a

module _ (is_space : ℕ → Bool) where
  agree :
      {o o' : Option (ℕ × ℕ)} {n n' : ℕ} {p p' : Parsed}
      → o ≡ o'
      → n ≡ n'
      → p ≡ p'
      → Agrees o' n' p'
      → Agrees o n p
  agree {o} {o'} {n} {n'} {p} {p'} a b c x =
      subst⁻¹ (λ t. Agrees t n p) a (subst⁻¹ (λ t. Agrees o' t p) b (subst⁻¹ (Agrees o' n') c x))

  parse_from-Agrees :
      (fuel : ℕ) (table : List Entry) (buf : List ℕ) (consumed value mask : ℕ)
      → AreNamed is_space table
      → length buf < fuel
      → Agrees
          (selection table (words is_space true buf) value mask)
          (consumed + length buf)
          (parse_from is_space fuel table buf consumed value mask)
  unfolding parse_from selection words
  parse_from-Agrees zero table buf consumed value mask n f = absurd (omega arith)
  parse_from-Agrees (suc fuel) table buf consumed value mask n f =
      elim (List-cases (skip is_space buf)) [
        | inl e ↦
            agree {o' = some (value, mask)} {n' = consumed + length buf}
              {p' = record { consumed = ok (consumed + length buf); value = value; mask = mask }}
              (ap (λ t. selection table t value mask)
                (sym (words-skip is_space buf) ∙ ap (words is_space true) e))
              refl (ground arith) refl
        | inr (c, cs, e) ↦
            let s : is_space c ≡ false = skip-head is_space buf c cs e in
            let split : words is_space true buf
                ≡ first_word is_space (c ∷ cs)
                  ∷ words is_space true (after_word is_space (c ∷ cs)) =
              sym (words-skip is_space buf)
              ∙ ap (words is_space true) e
              ∙ words-first_word is_space c cs s in
            let found = find_entry-entry_named is_space (c ∷ cs) table n in
            let sel = ap (λ t. selection table t value mask) split in
            elim (Option-cases (entry_named (first_word is_space (c ∷ cs)) table)) [
              | inl u ↦
                  agree {o' = none} {n' = consumed + length buf}
                    {p' = record { consumed = err einval; value = value; mask = mask }}
                    (sel ∙ ground arith) refl (ground arith) refl
              | inr (d, u) ↦
                  let t =
                    entry_named-same_word is_space (first_word is_space (c ∷ cs)) table d n u in
                  let rest : drop d.match_len (c ∷ cs) ≡ after_word is_space (c ∷ cs) =
                    ap (λ k. drop k (c ∷ cs)) t.1 ∙ drop-after_word is_space (c ∷ cs) d.match t.0 in
                  let count : length (after_word is_space (c ∷ cs)) + d.match_len
                      ≡ length (c ∷ cs) =
                    omega (
                      arith,
                      t.1,
                      length-same_word is_space d.match (first_word is_space (c ∷ cs)) t.0,
                      length-first_word is_space (c ∷ cs),
                    ) in
                  let here : length (c ∷ cs) ≤ length buf =
                    omega (arith, ap length e, length-skip is_space buf) in
                  let passed : ℕ = consumed + (length buf - length (c ∷ cs)) + d.match_len in
                  agree (sel ∙ ground arith) (omega arith) (ground arith) (
                    parse_from-Agrees fuel table (after_word is_space (c ∷ cs)) passed
                      (bit_or (bit_and value (not32 d.mask)) d.value) (bit_or mask d.mask) n
                      (omega (
                        arith,
                        t.1,
                        length-same_word is_space d.match (first_word is_space (c ∷ cs)) t.0,
                        first_word-cons is_space c cs s,
                      )))
            ]
      ]

  -- With a table whose names have no space or NUL in them, `_sysfs_parse_table` splits the input into
  -- words and looks each of them up: if every word is a name, it consumes the whole input and stores
  -- the value and the mask that the words select, a later word before an earlier one; if some word is
  -- none, it returns -EINVAL. As many passes as the input has characters, and one more, are enough.
  pub parse_table-selection :
      (fuel : ℕ) (table : List Entry) (buf datas : List ℕ)
      → AreNamed is_space table
      → length buf < fuel
      → 0 < length table
      → 2 ≤ length datas
      → Selects
          (selection table (words is_space true buf) 0 0)
          (length buf)
          datas
          (parse_table is_space fuel (some table) buf datas)
  unfolding parse_table
  parse_table-selection fuel table buf datas n f t d =
      let p : Parsed = parse_from is_space fuel table buf 0 0 0 in
      let o : Option (ℕ × ℕ) = selection table (words is_space true buf) 0 0 in
      let step : parse_table is_space fuel (some table) buf datas
          ≡ (p.consumed, set (set datas 0 p.value) 1 p.mask) =
        ground arith in
      subst⁻¹ (Selects o (length buf) datas) step (
        selects o (length buf) datas p
          (agree refl (omega arith) refl (parse_from-Agrees fuel table buf 0 0 0 n f)))
