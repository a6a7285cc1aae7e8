-- ===== src/Text.antt =====
-- The functions of linux/string.h on texts: a text is the list of its character codes, which a NUL
-- follows.
use Prim.Native.Char.{code}
use Prim.Native.String.{String}
use cisco_8000_kernel_module.Common.{
  ◌==◌, if◌then◌else◌, ℕ, zero, suc, Bool, true, ◌&&◌, ◌||◌, Option, none, some, List, [], ◌∷◌,
}

-- The character codes of a literal of the source.
abbrev pub codes : String → List ℕ
codes String.[] = []
codes (String.◌∷◌ c s) = code c ∷ codes s

-- `!strncmp(s, t, n)`, where a text is followed by NUL.
unfoldable pub same_start : ℕ → List ℕ → List ℕ → Bool
same_start zero s t = true
same_start (suc n) [] [] = true
same_start (suc n) [] (y ∷ t) = y == 0
same_start (suc n) (x ∷ s) [] = x == 0
same_start (suc n) (x ∷ s) (y ∷ t) = x == y && (x == 0 || same_start n s t)

-- `!strcmp(s, t)`.
unfoldable pub same_string : List ℕ → List ℕ → Bool
same_string [] [] = true
same_string [] (y ∷ t) = y == 0
same_string (x ∷ s) [] = x == 0
same_string (x ∷ s) (y ∷ t) = x == y && (x == 0 || same_string s t)

-- `strchr(s, c) - s`.
unfoldable pub index_of : ℕ → List ℕ → Option ℕ
index_of c [] = none
index_of c (x ∷ s) =
    let rest : Option ℕ = elim (index_of c s) [ none ↦ none | some i ↦ some (suc i) ] in
    if x == c then some 0 else rest
