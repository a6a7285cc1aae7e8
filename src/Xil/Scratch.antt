-- ===== src/Xil/Scratch.antt =====
-- The attributes over the scratch memory in drivers/cisco/msd_xil_sysfs.c, which the MSD and the XIL
-- block share. What `sscanf` reads from a text is a parameter.
use cisco_8000_kernel_module.Common.{
  ltb, leb, ◌==◌, if◌then◌else◌, length, get_or, take, drop, ℕ, zero, suc, ◌+◌, ◌-◌, ◌*◌, ◌/◌, ◌%◌,
  ◌^◌, min, max, bit_and, bit_or, ◌⊎◌, inl, inr, Bool, not, ◌&&◌, Option, none, some, List, [], ◌∷◌,
  ◌++◌, map,
}
use cisco_8000_kernel_module.Env.{
  M, pure, fail, ◌>>=◌, ◌>>◌, attempt, regmap_read, regmap_write, bug_on, enxio, eagain, enomem,
  einval,
}
use cisco_8000_kernel_module.Text.{same_start, index_of}
use cisco_8000_kernel_module.Reg.{shl32, shr32, bit}
use cisco_8000_kernel_module.Xil.Config.{bypass}

abbrev pub erange : ℕ
erange = 34

-- `struct scratchram_attribute`: the register, the length, and the names of values, where NULL is
-- `none`; without names `map` is NULL.
pub record ScratchAttr : Type 0 where
  pub reg_offset : ℕ
  pub len : ℕ
  pub names : Option (List (Option (List ℕ)))

module _ (is_space : ℕ → Bool) where
  -- The tests of the loop on one name, and the text after it.
  unfoldable pub name_fits : ℕ → List ℕ → List ℕ → Bool
  name_fits buflen buf name =
      leb (length name) buflen
      && same_start (length name) buf name
      && not (ltb (length name) buflen && not (is_space (get_or buf (length name) 0)))

  -- The loop over the names from index `i` on: the index of the name that stands alone in the text,
  -- which ends at a NUL, and how much of the buffer is left there.
  unfoldable pub named_from : ℕ → List ℕ → ℕ → List (Option (List ℕ)) → Option (ℕ × ℕ)
  named_from buflen buf i [] = none
  named_from buflen buf i (none ∷ names) = named_from buflen buf (suc i) names
  named_from buflen buf i (some name ∷ names) =
      let rest : Option (ℕ × ℕ) = named_from buflen buf (suc i) names in
      let after : List ℕ = bypass is_space (drop (length name) buf) in
      if name_fits buflen buf name
      then (if get_or after 0 0 == 0 then some (i, length after) else none)
      else rest

  -- `_scratch_store_bit`: a command is written only over 0.
  unfoldable pub store_bit : Option ℕ → ScratchAttr → List ℕ → M ℕ
  store_bit none a buf = fail enxio
  store_bit (some map) a buf = elim a.names [
    | none ↦ fail einval
    | some names ↦ elim (named_from (length buf) (bypass is_space buf) 0 names) [
      | none ↦ fail einval
      | some i ↦ do
        v ← regmap_read map a.reg_offset
        if v == 0
            then regmap_write map a.reg_offset (bit i.0) >> pure (length buf - i.1)
            else fail eagain
    ]
  ]

  -- `_scratch_store_u32`; `scan` is what `sscanf` reads, the number and how much it has consumed.
  unfoldable pub store_scratch : Option ℕ → ScratchAttr → Option (ℕ × ℕ) → List ℕ → M ℕ
  store_scratch none a scan buf = fail enxio
  store_scratch (some map) a scan buf = elim a.names [
    | some names ↦ elim (named_from (length buf) (bypass is_space buf) 0 names) [
      | none ↦ fail einval
      | some i ↦ regmap_write map a.reg_offset i.0 >> pure (length buf - i.1)
    ]
    | none ↦ elim scan [
      | none ↦ fail einval
      | some p ↦
          if p.1 == length buf then regmap_write map a.reg_offset p.0 >> pure p.1 else fail einval
    ]
  ]

-- What `_scratch_show_u32` prints: a name, or the number.
unfoldable pub show_scratch : Option ℕ → ScratchAttr → M (List ℕ ⊎ ℕ)
show_scratch none a = fail enxio
show_scratch (some map) a = do
  v ← regmap_read map a.reg_offset
  pure (elim a.names [
    | none ↦ inr v
    | some names ↦
        if ltb v a.len
        then (elim (get_or names v none) [ none ↦ inr v | some s ↦ inl s ])
        else inr v
  ])

-- `_scratch_show_hw_ver`: the two numbers that it prints.
unfoldable pub show_hw_ver : Option ℕ → ScratchAttr → M (ℕ × ℕ)
show_hw_ver none a = fail enxio
show_hw_ver (some map) a = do v ← regmap_read map a.reg_offset; pure (shr32 v 16, bit_and v 0xffff)

-- What `sscanf` reads with "%u.%u %n" and with "%u %n".
pub record VersionScan : Type 0 where
  pub both : Option (ℕ × ℕ × ℕ)
  pub major : Option (ℕ × ℕ)

-- The version that the text gives, if one of the two formats uses it up.
unfoldable pub version_of : VersionScan → ℕ → Option (ℕ × ℕ)
version_of s buflen =
    let short : Option (ℕ × ℕ) = elim s.major [
      | none ↦ none
      | some p ↦ if p.1 == buflen then some (p.0, 0) else none
    ] in
    elim s.both [ none ↦ short | some p ↦ if p.2 == buflen then some (p.0, p.1) else short ]

-- `_scratch_store_hw_ver`.
unfoldable pub store_hw_ver : Option ℕ → ScratchAttr → VersionScan → ℕ → M ℕ
store_hw_ver none a s buflen = fail enxio
store_hw_ver (some map) a s buflen = elim (version_of s buflen) [
  | none ↦ fail einval
  | some v ↦
      if ltb v.0 0x10000 && ltb v.1 0x10000
      then regmap_write map a.reg_offset (bit_or (shl32 v.0 16) v.1) >> pure buflen
      else fail erange
]

-- `memcpy` of four bytes to and from a word of a little-endian machine.
abbrev pub word_bytes : ℕ → List ℕ
word_bytes v = v % 2 ^ 8 ∷ v / 2 ^ 8 % 2 ^ 8 ∷ v / 2 ^ 16 % 2 ^ 8 ∷ v / 2 ^ 24 % 2 ^ 8 ∷ []

abbrev pub bytes_word : List ℕ → ℕ
bytes_word b = get_or b 0 0 + get_or b 1 0 * 2 ^ 8 + get_or b 2 0 * 2 ^ 16 + get_or b 3 0 * 2 ^ 24

-- The loop of `_scratch_show_str`, with `left` words to go.
unfoldable pub read_str : ℕ → ℕ → ℕ → M (List ℕ)
read_str map zero off = pure []
read_str map (suc left) off = do
  v ← regmap_read map off
  rest ← read_str map left (off + 4)
  pure (word_bytes v ++ rest)

-- The text up to the NUL.
unfoldable pub until_nul : List ℕ → List ℕ
until_nul [] = []
until_nul (c ∷ cs) = let rest = until_nul cs in if c == 0 then [] else c ∷ rest

-- The number of words that hold `len` bytes; one at least is read.
abbrev pub words_for : ℕ → ℕ
words_for len = (len + 3) / 4

-- `_scratch_show_str`: the text that it prints, without the newline.
unfoldable pub show_str : Option ℕ → ScratchAttr → M (List ℕ)
show_str none a = fail enxio
show_str (some map) a =
    if leb 4095 a.len
    then fail bug_on
    else (read_str map (max 1 (words_for a.len)) a.reg_offset >>= λ bytes. pure (until_nul bytes))

-- `strncpy` into memory that is zero, of `n` bytes.
unfoldable pub strncpy : ℕ → List ℕ → List ℕ
strncpy zero s = []
strncpy (suc n) [] = 0 ∷ strncpy n []
strncpy (suc n) (c ∷ s) =
    let zeroed = strncpy n [] in let rest = strncpy n s in if c == 0 then 0 ∷ zeroed else c ∷ rest

-- The bytes to store, and how much of the input they take up.
unfoldable pub cut_line : ℕ → List ℕ → List ℕ × ℕ
cut_line len buf =
    let n : ℕ = min (length buf) len in
    let bufp : List ℕ = strncpy n buf in
    elim (index_of 10 bufp) [ none ↦ (bufp, n) | some i ↦ (take i bufp, suc i) ]

-- The loop that writes the words of `bytes`, padded with zeros; it ends at the first failure.
unfoldable pub write_str : ℕ → ℕ → ℕ → List ℕ → M (Unit {0})
write_str map zero off bytes = pure tt
write_str map (suc left) off bytes =
    regmap_write map off (bytes_word bytes) >> write_str map left (off + 4) (drop 4 bytes)

-- `_scratch_store_str`: `allocated` is the outcome of the allocation. The status of the writes is
-- overwritten by the length of the input.
unfoldable pub store_str : Option ℕ → ScratchAttr → Bool → List ℕ → M ℕ
store_str none a allocated buf = fail enxio
store_str (some map) a allocated buf =
    if allocated
    then (let (bytes, consumed) = cut_line a.len buf in
        if consumed == length buf
        then (attempt (write_str map (words_for a.len) a.reg_offset bytes) >>= λ _.
            pure (length buf))
        else fail einval)
    else fail enomem
