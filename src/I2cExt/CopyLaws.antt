-- ===== src/I2cExt/CopyLaws.antt =====
-- What the copy loops of `_i2c_xfer` put on the bus, and what they make of the answers.
use cisco_8000_kernel_module.Common.{
  length, take, drop, length-drop, ◌*◌, ℕ, zero, suc, ◌+◌, ◌-◌, ◌/◌, ◌%◌, ◌^◌, ◌≤◌, ◌<◌, min, ◌≡◌,
  refl, ap, ◌≢◌, ◌⊎◌, List, [], ◌∷◌, map, arith,
}
use native.Mathlib.Decide.{ℕ_discrete}
use cisco_8000_kernel_module.Env.{History, Env, write, ok}
use cisco_8000_kernel_module.I2cExt.Regs.{wdata_reg, Hw}
use cisco_8000_kernel_module.I2cExt.Xfer.{sub16, word_of, cp_len, Copy, write_words}

-- A chunk and the rest of its message move in step: the chunk ends at a word's boundary or with
-- the message.
pub record InStep (s : Copy) : Type 0 where
  pub within : s.cfg_len ≤ s.len
  pub short : s.len < 2 ^ 16
  pub aligned : (s.cfg_len % 4 ≡ 0) ⊎ (s.cfg_len ≡ s.len)

-- Bytes as the digits of a number to the base 256, the first byte the lowest.
abbrev pub digits : List ℕ → ℕ
digits [] = 0
digits (b ∷ bs) = b + 256 * digits bs

-- A byte sequence packed four to a word, and the writes of words from `index` on, the latest first.
unfoldable pub words : List ℕ → List ℕ
words (b0 ∷ b1 ∷ b2 ∷ b3 ∷ bs) = digits (b0 ∷ b1 ∷ b2 ∷ b3 ∷ []) ∷ words bs
words (b0 ∷ b1 ∷ b2 ∷ []) = digits (b0 ∷ b1 ∷ b2 ∷ []) ∷ []
words (b0 ∷ b1 ∷ []) = digits (b0 ∷ b1 ∷ []) ∷ []
words (b0 ∷ []) = digits (b0 ∷ []) ∷ []
words [] = []

-- The union that the driver fills holds these digits.
word_of-digits : (bs : List ℕ) → length bs ≤ 4 → word_of bs ≡ digits bs
word_of-digits [] p = refl
word_of-digits (b0 ∷ []) p = omega arith
word_of-digits (b0 ∷ b1 ∷ []) p = omega arith
word_of-digits (b0 ∷ b1 ∷ b2 ∷ []) p = omega arith
word_of-digits (b0 ∷ b1 ∷ b2 ∷ b3 ∷ []) p = omega arith
word_of-digits (b0 ∷ b1 ∷ b2 ∷ b3 ∷ b4 ∷ bs) p = absurd (omega arith)

length-take_le {ℓ} : {A : Type ℓ} (n : ℕ) (xs : List A) → length (take n xs) ≤ n
length-take_le zero xs = omega arith
length-take_le (suc n) [] = omega arith
length-take_le (suc n) (x ∷ xs) = omega (arith, length-take_le n xs)

word_of-take : (n : ℕ) (bs : List ℕ) → n ≤ 4 → word_of (take n bs) ≡ digits (take n bs)
word_of-take n bs p = word_of-digits (take n bs) (omega (arith, length-take_le n bs))

unfoldable pub sends : ℕ → ℕ → List ℕ → History → History
sends map index [] h = h
sends map index (w ∷ ws) h = sends map (index + 1) ws (write map (wdata_reg index) w ∷ h)

-- One word takes four bytes, or what is left of a chunk that ends with its message: never more than
-- fit into `data`.
pub cp_len_lem :
    (s : Copy)
    → InStep s
    → s.len ≢ 0
    → s.cfg_len ≢ 0
    → (cp_len s.len s.cfg_len ≡ min 4 s.cfg_len)
      × (sub16 s.len (cp_len s.len s.cfg_len) ≡ s.len - min 4 s.cfg_len)
      × (sub16 s.cfg_len (cp_len s.len s.cfg_len) ≡ s.cfg_len - min 4 s.cfg_len)
cp_len_lem s v hl hc = ground arith

words_nil : words [] ≡ []
unfolding words
words_nil = refl

words-take :
    (n : ℕ) (bs : List ℕ)
    → n ≢ 0
    → n ≤ length bs
    → words (take n bs)
      ≡ digits (take (min 4 n) bs) ∷ words (take (n - min 4 n) (drop (min 4 n) bs))
unfolding words
words-take zero bs ne h = absurd (ne refl)
words-take (suc n) [] ne h = absurd (omega arith)
words-take (suc zero) (b0 ∷ bs) ne h = refl
words-take (suc (suc n)) (b0 ∷ []) ne h = absurd (omega arith)
words-take (suc (suc zero)) (b0 ∷ b1 ∷ bs) ne h = refl
words-take (suc (suc (suc n))) (b0 ∷ b1 ∷ []) ne h = absurd (omega arith)
words-take (suc (suc (suc zero))) (b0 ∷ b1 ∷ b2 ∷ bs) ne h = refl
words-take (suc (suc (suc (suc n)))) (b0 ∷ b1 ∷ b2 ∷ []) ne h = absurd (omega arith)
words-take (suc (suc (suc (suc n)))) (b0 ∷ b1 ∷ b2 ∷ b3 ∷ bs) ne h =
    let e : min 4 (suc (suc (suc (suc n)))) ≡ 4 = omega arith in
    let f : suc (suc (suc (suc n))) - 4 ≡ n = omega arith in rw (e, f)

drop-drop {ℓ} : {A : Type ℓ} (m n : ℕ) (xs : List A) → drop m (drop n xs) ≡ drop (n + m) xs
drop-drop m zero xs = let e : 0 + m ≡ m = omega arith in rw e
drop-drop zero (suc n) [] = let e : suc n + 0 ≡ suc n = omega arith in rw e
drop-drop (suc m) (suc n) [] = let e : suc n + suc m ≡ suc (n + suc m) = omega arith in rw e
drop-drop m (suc n) (x ∷ xs) =
    let e : suc n + m ≡ suc (n + m) = omega arith in rw e (drop-drop m n xs)

-- Every data write succeeds.
abbrev pub Accepts : Env → Type 0
Accepts env = (h : History) (map reg v : ℕ) → env.write_answer h map reg v ≡ ok tt

-- The variables after a chunk has been moved.
abbrev pub moved : Copy → Copy
moved s = record {
  len = s.len - s.cfg_len;
  cfg_len = 0;
  index = s.index + (s.cfg_len + 3) / 4;
  buf = drop s.cfg_len s.buf;
}

step-InStep :
    (s : Copy) (bs : List ℕ)
    → InStep s
    → s.len ≢ 0
    → s.cfg_len ≢ 0
    → InStep (record {
      len = s.len - min 4 s.cfg_len;
      cfg_len = s.cfg_len - min 4 s.cfg_len;
      index = s.index + 1;
      buf = bs;
    })
step-InStep s bs v hl hc = ground arith

-- What is left after the first word of a chunk.
abbrev next : Copy → Copy
next s = record {
  len = s.len - min 4 s.cfg_len;
  cfg_len = s.cfg_len - min 4 s.cfg_len;
  index = s.index + 1;
  buf = drop (min 4 s.cfg_len) s.buf;
}

moved_zero : (s : Copy) → s.cfg_len ≡ 0 → moved s ≡ s
moved_zero s e = ground (arith, ap (λ n. drop n s.buf) e)

moved-next : (s : Copy) → s.cfg_len ≢ 0 → s.cfg_len ≤ s.len → moved (next s) ≡ moved s
moved-next s ne h = ground (
  arith,
  drop-drop (s.cfg_len - min 4 s.cfg_len) (min 4 s.cfg_len) s.buf,
  ap (λ n. drop n s.buf) (min_sub s.cfg_len),
)
  where
    min_sub : (n : ℕ) → min 4 n + (n - min 4 n) ≡ n
    min_sub n = omega arith

take-next :
    (s : Copy)
    → s.cfg_len ≢ 0
    → s.cfg_len ≤ length s.buf
    → words (take s.cfg_len s.buf)
      ≡ digits (take (min 4 s.cfg_len) s.buf) ∷ words (take (next s).cfg_len (next s).buf)
take-next s ne h = words-take s.cfg_len s.buf ne h

-- While every write of data succeeds, the copy loop of a write sends the bytes of its chunk, in order
-- and packed four to a word with the first byte the lowest, to consecutive words of the buffer, and ends
-- with the chunk used up and the message that much shorter. The message fits 16 bits and its buffer, the
-- chunk ends at a word's boundary or with the message, and there is fuel for each byte of it.
pub write_words_lem :
    (fuel : ℕ) (hw : Hw) (s : Copy) (env : Env) (h : History)
    → InStep s
    → s.len ≤ length s.buf
    → s.cfg_len ≤ fuel
    → Accepts env
    → write_words fuel hw s env h
      ≡ (ok (moved s), sends hw.map s.index (words (take s.cfg_len s.buf)) h)
unfolding write_words sends
write_words_lem zero hw s env h v b f a =
    let e : s.cfg_len ≡ 0 = omega arith in
    ground (arith, moved_zero s e, ap (λ n. words (take n s.buf)) e, words_nil)
write_words_lem (suc fuel) hw s env h v b f a = elim (ℕ_discrete s.cfg_len 0) [
  | yes e ↦ ground (arith, moved_zero s e, ap (λ n. words (take n s.buf)) e, words_nil)
  | no ne ↦ ground (
    arith,
    cp_len_lem s v (omega arith) ne,
    a h hw.map (wdata_reg s.index) (word_of (take (cp_len s.len s.cfg_len) s.buf)),
    take-next s ne (omega arith),
    moved-next s ne v.within,
    word_of-take (min 4 s.cfg_len) s.buf (omega arith),
    write_words_lem fuel hw (next s) env
        (write hw.map (wdata_reg s.index) (word_of (take (min 4 s.cfg_len) s.buf)) ∷ h)
        (step-InStep s (next s).buf v (omega arith) ne)
        (omega (arith, length-drop (min 4 s.cfg_len) s.buf)) (omega arith) a,
  )
]
