-- ===== src/Xil/TextLaws.antt =====
-- The texts in the scratch memory: what `_scratch_store_str` leaves and `_scratch_show_str` prints.
use mathlib.Core.Path.{subst⁻¹}
use cisco_8000_kernel_module.Common.{
  length, take, drop, All, ℕ, zero, suc, ◌+◌, ◌*◌, ◌/◌, ◌%◌, ◌^◌, ◌≤◌, ◌<◌, min, max, ◌≡◌, refl, ap,
  ◌∙◌, ◌≢◌, true, some, List, [], ◌∷◌, ◌++◌, map, arith,
}
use cisco_8000_kernel_module.Env.{History, Result, Env, read, write, ok}
use cisco_8000_kernel_module.Env.Contents.{contents, Memory}
use cisco_8000_kernel_module.Text.{index_of}
use cisco_8000_kernel_module.Xil.Scratch.{
  ScratchAttr, word_bytes, bytes_word, read_str, until_nul, words_for, show_str, strncpy, cut_line,
  write_str, store_str,
}

-- The history after the writes of a text's words.
abbrev pub writes : ℕ → ℕ → ℕ → List ℕ → History → History
writes map zero off bytes h = h
writes map (suc left) off bytes h =
    writes map left (off + 4) (drop 4 bytes) (write map off (bytes_word bytes) ∷ h)

-- The bytes of the words from `off` on, and a text padded to whole words.
abbrev pub memory_bytes : (ℕ → ℕ) → ℕ → ℕ → List ℕ
memory_bytes c zero off = []
memory_bytes c (suc left) off = word_bytes (c off) ++ memory_bytes c left (off + 4)

abbrev pub padded : ℕ → List ℕ → List ℕ
padded zero bytes = []
padded (suc left) bytes = word_bytes (bytes_word bytes) ++ padded left (drop 4 bytes)

pub write_str-writes :
    (held : ℕ → ℕ) (map left off : ℕ) (bytes : List ℕ) (env : Env) (h : History)
    → Memory held map env
    → write_str map left off bytes env h ≡ (ok tt, writes map left off bytes h)
unfolding write_str
write_str-writes held map zero off bytes env h m = refl
write_str-writes held map (suc left) off bytes env h m =
    let w : ℕ = bytes_word bytes in
    let rest =
      write_str-writes held map left (off + 4) (drop 4 bytes) env (write map off w ∷ h) m in
    ground (arith, m.stores h off w, rest)

contents-writes :
    (held : ℕ → ℕ) (map left off : ℕ) (bytes : List ℕ) (h : History) (reg : ℕ)
    → reg < off
    → contents held map (writes map left off bytes h) reg ≡ contents held map h reg
contents-writes held map zero off bytes h reg p = refl
contents-writes held map (suc left) off bytes h reg p =
    let w : ℕ = bytes_word bytes in
    let rest =
      contents-writes held map left (off + 4) (drop 4 bytes) (write map off w ∷ h) reg
        (omega arith) in
    rest ∙ ground arith

pub read_str-memory_bytes :
    (held : ℕ → ℕ) (map left off : ℕ) (env : Env) (h : History)
    → Memory held map env
    → (read_str map left off env h).0 ≡ ok (memory_bytes (contents held map h) left off)
unfolding read_str
read_str-memory_bytes held map zero off env h m = refl
read_str-memory_bytes held map (suc left) off env h m =
    let rest = read_str-memory_bytes held map left (off + 4) env (read map off ∷ h) m in
    ground (arith, m.recalls h off, rest)

memory_bytes-writes :
    (held : ℕ → ℕ) (map left off : ℕ) (bytes : List ℕ) (h : History)
    → memory_bytes (contents held map (writes map left off bytes h)) left off ≡ padded left bytes
memory_bytes-writes held map zero off bytes h = refl
memory_bytes-writes held map (suc left) off bytes h =
    let w : ℕ = bytes_word bytes in
    let h1 : History = write map off w ∷ h in
    let rest = memory_bytes-writes held map left (off + 4) (drop 4 bytes) h1 in
    let first : contents held map (writes map left (off + 4) (drop 4 bytes) h1) off ≡ w =
      contents-writes held map left (off + 4) (drop 4 bytes) h1 off (omega arith) ∙ ground arith in
    rw (first, rest) refl

word_bytes-word :
    (a b c d : ℕ)
    → a < 2 ^ 8
    → b < 2 ^ 8
    → c < 2 ^ 8
    → d < 2 ^ 8
    → word_bytes (a + b * 2 ^ 8 + c * 2 ^ 16 + d * 2 ^ 24) ≡ a ∷ b ∷ c ∷ d ∷ []
word_bytes-word a b c d p q r s =
    let w : ℕ = a + b * 2 ^ 8 + c * 2 ^ 16 + d * 2 ^ 24 in
    let e0 : w % 2 ^ 8 ≡ a = omega arith in
    let e1 : w / 2 ^ 8 % 2 ^ 8 ≡ b = omega arith in
    let e2 : w / 2 ^ 16 % 2 ^ 8 ≡ c = omega arith in
    let e3 : w / 2 ^ 24 % 2 ^ 8 ≡ d = omega arith in rw (e0, e1, e2, e3) refl

-- The padding is behind the NUL at which the text ends.
until_nul-padded :
    (left : ℕ) (bytes : List ℕ)
    → All (λ c. c < 2 ^ 8) bytes
    → length bytes ≤ 4 * left
    → until_nul (padded left bytes) ≡ until_nul bytes
unfolding until_nul
until_nul-padded zero [] all p = refl
until_nul-padded zero (a ∷ bytes) all p = ground arith
until_nul-padded (suc left) [] all p = refl
until_nul-padded (suc left) (a ∷ []) all p =
    ap (λ t. until_nul (t ++ padded left []))
      (word_bytes-word a 0 0 0 all.0 (omega arith) (omega arith) (omega arith))
    ∙ ground arith
until_nul-padded (suc left) (a ∷ b ∷ []) all p =
    ap (λ t. until_nul (t ++ padded left []))
      (word_bytes-word a b 0 0 all.0 all.1.0 (omega arith) (omega arith))
    ∙ ground arith
until_nul-padded (suc left) (a ∷ b ∷ c ∷ []) all p =
    ap (λ t. until_nul (t ++ padded left []))
      (word_bytes-word a b c 0 all.0 all.1.0 all.1.1.0 (omega arith))
    ∙ ground arith
until_nul-padded (suc left) (a ∷ b ∷ c ∷ d ∷ bytes) all p =
    let rest = until_nul-padded left bytes all.1.1.1.1 (omega arith) in
    ap (λ t. until_nul (t ++ padded left bytes))
      (word_bytes-word a b c d all.0 all.1.0 all.1.1.0 all.1.1.1.0)
    ∙ ground (arith, rest)

-- The characters of a line.
abbrev pub IsLineChar : ℕ → Type 0
IsLineChar c = (c < 2 ^ 8) × (c ≢ 0) × (c ≢ 10)

bytes_of_line : (text : List ℕ) → All IsLineChar text → All (λ c. c < 2 ^ 8) text
bytes_of_line [] all = tt
bytes_of_line (c ∷ text) all = (all.0.0, bytes_of_line text all.1)

until_nul_line : (text : List ℕ) → All IsLineChar text → until_nul text ≡ text
unfolding until_nul
until_nul_line [] all = refl
until_nul_line (c ∷ text) all = ground (arith, all.0.1, until_nul_line text all.1)

strncpy_line :
    (text : List ℕ)
    → All IsLineChar text
    → strncpy (suc (length text)) (text ++ 10 ∷ []) ≡ text ++ 10 ∷ []
unfolding strncpy
strncpy_line [] all = refl
strncpy_line (c ∷ text) all = ground (arith, all.0.1, strncpy_line text all.1)

index_of_line :
    (text : List ℕ) → All IsLineChar text → index_of 10 (text ++ 10 ∷ []) ≡ some (length text)
unfolding index_of
index_of_line [] all = refl
index_of_line (c ∷ text) all = ground (arith, all.0.2, index_of_line text all.1)

take_line : (text : List ℕ) → take (length text) (text ++ 10 ∷ []) ≡ text
take_line [] = refl
take_line (c ∷ text) = ap (λ t. c ∷ t) (take_line text)

length_line : (text : List ℕ) → length (text ++ 10 ∷ []) ≡ suc (length text)
length_line [] = refl
length_line (c ∷ text) = ap suc (length_line text)

cut_line_lem :
    (len : ℕ) (text : List ℕ)
    → All IsLineChar text
    → length text < len
    → cut_line len (text ++ 10 ∷ []) ≡ (text, suc (length text))
unfolding cut_line
cut_line_lem len text all p =
    let n : min (suc (length text)) len ≡ suc (length text) = omega arith in
    ground
      (arith, length_line text, n, strncpy_line text all, index_of_line text all, take_line text)

-- A store that returns its length, and a show after it that prints the text.
abbrev pub StoresText : ℕ → List ℕ → Result ℕ × History → (History → Result (List ℕ)) → Type 0
StoresText n text (r, h) printed = (r ≡ ok n) × (printed h ≡ ok text)

-- A line that is shorter than the scratch memory of its attribute, stored while the registers keep
-- what is written, is reported as stored with its newline, and is shown again as it was. The
-- attribute has fewer than 4095 bytes, and the line no NUL.
pub show_str-store_str :
    (held : ℕ → ℕ) (map : ℕ) (a : ScratchAttr) (text : List ℕ) (env : Env) (h : History)
    → Memory held map env
    → All IsLineChar text
    → length text < a.len
    → a.len < 4095
    → StoresText
        (suc (length text))
        text
        (store_str (some map) a true (text ++ 10 ∷ []) env h)
        (λ h1. (show_str (some map) a env h1).0)
unfolding store_str show_str
show_str-store_str held map a text env h m all p q =
    let n : ℕ = words_for a.len in
    let h1 : History = writes map n a.reg_offset text h in
    let stored : store_str (some map) a true (text ++ 10 ∷ []) env h
        ≡ (ok (suc (length text)), h1) =
      ground (
        arith,
        cut_line_lem a.len text all p,
        length_line text,
        write_str-writes held map n a.reg_offset text env h m,
      ) in
    let rounds : max 1 n ≡ n = omega arith in
    let kept : until_nul (memory_bytes (contents held map h1) n a.reg_offset) ≡ text =
      ap until_nul (memory_bytes-writes held map n a.reg_offset text h)
      ∙ until_nul-padded n text (bytes_of_line text all) (omega arith)
      ∙ until_nul_line text all in
    let shown : (show_str (some map) a env h1).0 ≡ ok text =
      ground (arith, rounds, read_str-memory_bytes held map n a.reg_offset env h1 m, kept) in
    subst⁻¹ (λ t. StoresText (suc (length text)) text t (λ h2. (show_str (some map) a env h2).0))
      stored (refl, shown)
