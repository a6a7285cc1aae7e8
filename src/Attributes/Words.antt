-- ===== src/Attributes/Words.antt =====
-- The words of an input text, and the entries of a table that they name.
use mathlib.Core.Path.{subst}
use cisco_8000_kernel_module.Text.{same_start}
use cisco_8000_kernel_module.Common.{
  leb, ◌==◌, if◌then◌else◌, ==_iff, Bool-cases, length, get_or, drop, ℕ, ◌+◌, ◌≤◌, ◌≡◌, refl, ap,
  ◌≢◌, inl, inr, Bool, true, false, ◌&&◌, ◌||◌, Option, none, some, List, [], ◌∷◌, arith,
}
use cisco_8000_kernel_module.Attributes.Parse.{Entry, skip, stands, find_entry}

-- Equality of texts.
unfoldable pub same_word : List ℕ → List ℕ → Bool
same_word [] [] = true
same_word [] (y ∷ t) = false
same_word (x ∷ s) [] = false
same_word (x ∷ s) (y ∷ t) = x == y && same_word s t

-- The entry with this name.
unfoldable pub entry_named : List ℕ → List Entry → Option Entry
entry_named w [] = none
entry_named w (e ∷ table) =
    let rest = entry_named w table in if same_word e.match w then some e else rest

module _ (is_space : ℕ → Bool) where
  -- The text up to the first space, and what is left from there.
  unfoldable pub first_word : List ℕ → List ℕ
  first_word [] = []
  first_word (c ∷ cs) = let rest = first_word cs in if is_space c then [] else c ∷ rest

  unfoldable pub after_word : List ℕ → List ℕ
  after_word [] = []
  after_word (c ∷ cs) = let rest = after_word cs in if is_space c then c ∷ cs else rest

  -- The words of a text; the flag says whether a word may start here.
  unfoldable pub words : Bool → List ℕ → List (List ℕ)
  words start [] = []
  words start (c ∷ cs) =
      let fresh = words true cs in
      let same = words false cs in
      if is_space c then fresh else (if start then (c ∷ first_word cs) ∷ same else same)

  -- A name has no space and no NUL in it.
  unfoldable pub IsName : List ℕ → Type 0
  IsName [] = Unit {0}
  IsName (c ∷ cs) = (is_space c ≡ false) × (c ≢ 0) × IsName cs

  unfoldable pub AreNamed : List Entry → Type 0
  AreNamed [] = Unit {0}
  AreNamed (e ∷ table) = (e.match_len ≡ length e.match) × IsName e.match × AreNamed table

  pub words-skip : (buf : List ℕ) → words true (skip is_space buf) ≡ words true buf
  unfolding words skip
  words-skip [] = refl
  words-skip (c ∷ cs) = ground (arith, words-skip cs)

  -- What is left starts with a space or is empty, so a word may start there or not alike.
  words-after_word : (buf : List ℕ) → words true (after_word buf) ≡ words false buf
  unfolding words after_word
  words-after_word [] = refl
  words-after_word (c ∷ cs) = ground (arith, words-after_word cs)

  pub skip-head :
      (buf : List ℕ) (c : ℕ) (cs : List ℕ) → skip is_space buf ≡ c ∷ cs → is_space c ≡ false
  unfolding skip
  skip-head [] c cs h = ground arith
  skip-head (b ∷ buf) c cs h = elim (Bool-cases (is_space b)) [
    | inl s ↦ skip-head buf c cs (ground arith)
    | inr s ↦ ground arith
  ]

  pub length-skip : (buf : List ℕ) → length (skip is_space buf) ≤ length buf
  unfolding skip
  length-skip [] = omega arith
  length-skip (c ∷ cs) = ground (arith, length-skip cs)

  -- A name stands here and ends here exactly if it is the first word.
  stands-first_word :
      (buf name : List ℕ)
      → IsName name
      → (leb (length name) (length buf)
          && same_start (length name) buf name
          && (length buf == length name || is_space (get_or buf (length name) 0)))
        ≡ same_word name (first_word buf)
  unfolding same_start same_word first_word IsName
  stands-first_word [] [] n = refl
  stands-first_word [] (y ∷ name) n = ground arith
  stands-first_word (c ∷ cs) [] n = ground arith
  stands-first_word (c ∷ cs) (y ∷ name) n = elim (Bool-cases (c == y)) [
    | inl e ↦
        ground (arith, stands-first_word cs name n.2, ap is_space ((==_iff c y).0 e), n.0, n.1)
    | inr e ↦ ground (arith, n.0, n.1)
  ]

  pub drop-after_word :
      (buf name : List ℕ)
      → same_word name (first_word buf) ≡ true
      → drop (length name) buf ≡ after_word buf
  unfolding same_word first_word after_word
  drop-after_word [] [] h = refl
  drop-after_word [] (y ∷ name) h = ground arith
  drop-after_word (c ∷ cs) [] h = ground arith
  drop-after_word (c ∷ cs) (y ∷ name) h = ground (arith, drop-after_word cs name)

  stands-named :
      (e : Entry) (buf : List ℕ)
      → e.match_len ≡ length e.match
      → stands is_space buf e ≡ (
          leb (length e.match) (length buf)
          && same_start (length e.match) buf e.match
          && (length buf == length e.match || is_space (get_or buf (length e.match) 0)))
  unfolding stands
  stands-named e buf h = rw h

  pub find_entry-entry_named :
      (buf : List ℕ) (table : List Entry)
      → AreNamed table
      → find_entry is_space buf table ≡ entry_named (first_word buf) table
  unfolding find_entry entry_named stands AreNamed
  find_entry-entry_named buf [] n = refl
  find_entry-entry_named buf (e ∷ table) n = ground (
    arith,
    find_entry-entry_named buf table n.2,
    stands-first_word buf e.match n.1,
    stands-named e buf n.0,
  )

  pub entry_named-same_word :
      (w : List ℕ) (table : List Entry) (e : Entry)
      → AreNamed table
      → entry_named w table ≡ some e
      → (same_word e.match w ≡ true) × (e.match_len ≡ length e.match)
  unfolding entry_named AreNamed
  entry_named-same_word w [] e n h = ground arith
  entry_named-same_word w (d ∷ table) e n h = elim (Bool-cases (same_word d.match w)) [
    | inl s ↦
        let same : d ≡ e = ground arith in
        subst (λ t. (same_word t.match w ≡ true) × (t.match_len ≡ length t.match)) same (s, n.0)
    | inr s ↦ entry_named-same_word w table e n.2 (ground arith)
  ]

  pub length-same_word : (name w : List ℕ) → same_word name w ≡ true → length name ≡ length w
  unfolding same_word
  length-same_word [] [] h = refl
  length-same_word [] (y ∷ w) h = ground arith
  length-same_word (x ∷ name) [] h = ground arith
  length-same_word (x ∷ name) (y ∷ w) h = ground (arith, length-same_word name w)

  pub length-first_word :
      (buf : List ℕ) → length (first_word buf) + length (after_word buf) ≡ length buf
  unfolding first_word after_word
  length-first_word [] = refl
  length-first_word (c ∷ cs) = ground (arith, length-first_word cs)

  pub words-first_word :
      (c : ℕ) (cs : List ℕ)
      → is_space c ≡ false
      → words true (c ∷ cs) ≡ first_word (c ∷ cs) ∷ words true (after_word (c ∷ cs))
  unfolding words first_word after_word
  words-first_word c cs s = ground (arith, words-after_word cs)

  pub first_word-cons :
      (c : ℕ) (cs : List ℕ) → is_space c ≡ false → 1 ≤ length (first_word (c ∷ cs))
  unfolding first_word
  first_word-cons c cs s = ground arith
