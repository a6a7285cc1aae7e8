-- ===== src/Attributes/Parse.antt =====
-- `_sysfs_parse_table` of drivers/cisco/cisco-sysfs.c: a list of names, each of them an entry of the
-- attribute's table. Text is a list of character codes. The characters that the loop has left are
-- the list's, so that `buflen` is its length; `is_space` is `isspace` of linux/ctype.h.
use cisco_8000_kernel_module.Common.{
  ltb, leb, ◌==◌, if◌then◌else◌, length, get_or, set, drop, ℕ, zero, suc, ◌+◌, ◌-◌, bit_and, bit_or,
  Bool, ◌&&◌, ◌||◌, Option, none, some, List, [], ◌∷◌,
}
use cisco_8000_kernel_module.Env.{Result, einval, ok, err}
use cisco_8000_kernel_module.Text.{same_start}
use cisco_8000_kernel_module.Reg.{not32}

-- `struct sysfs_ext_attribute_bit_store_table`.
pub record Entry : Type 0 where
  pub match : List ℕ
  pub match_len : ℕ
  pub mask : ℕ
  pub value : ℕ

-- `STORE_TABLE_ENTRY`.
abbrev pub store_table_entry : List ℕ → ℕ → Entry
store_table_entry str v = record { match = str; match_len = length str; mask = v; value = v }

-- What the loop over the input carries.
pub record Parsed : Type 0 where
  pub consumed : Result ℕ
  pub value : ℕ
  pub mask : ℕ

module _ (is_space : ℕ → Bool) where
  -- The `while` that passes over white space.
  unfoldable pub skip : List ℕ → List ℕ
  skip [] = []
  skip (c ∷ cs) = let rest = skip cs in if is_space c then rest else c ∷ cs

  -- The two tests of the inner loop: the entry's name stands here, and ends here.
  unfoldable pub stands : List ℕ → Entry → Bool
  stands buf e =
      leb e.match_len (length buf)
      && same_start e.match_len buf e.match
      && (length buf == e.match_len || is_space (get_or buf e.match_len 0))

  unfoldable pub find_entry : List ℕ → List Entry → Option Entry
  find_entry buf [] = none
  find_entry buf (e ∷ table) =
      let rest = find_entry buf table in if stands buf e then some e else rest

  -- The loop. One unit of fuel is one pass; err 0 marks fuel that has run out.
  unfoldable pub parse_from : ℕ → List Entry → List ℕ → ℕ → ℕ → ℕ → Parsed
  parse_from zero table buf consumed value mask = record {
    consumed = err 0;
    value = value;
    mask = mask;
  }
  parse_from (suc fuel) table buf consumed value mask =
      let here : List ℕ = skip buf in
      let passed : ℕ = consumed + (length buf - length here) in
      elim here [
        | [] ↦ record { consumed = ok passed; value = value; mask = mask }
        | c ∷ cs ↦ elim (find_entry (c ∷ cs) table) [
          | none ↦ record { consumed = err einval; value = value; mask = mask }
          | some e ↦
              parse_from fuel table (drop e.match_len (c ∷ cs)) (passed + e.match_len)
                (bit_or (bit_and value (not32 e.mask)) e.value) (bit_or mask e.mask)
        ]
      ]

  -- `_sysfs_parse_table`, with what it stores in `data[0]` and `data[1]`. A table is NULL or has an
  -- array's dimension.
  unfoldable pub parse_table : ℕ → Option (List Entry) → List ℕ → List ℕ → Result ℕ × List ℕ
  parse_table fuel none buf datas = (err einval, datas)
  parse_table fuel (some table) buf datas =
      if length table == 0 || ltb (length datas) 2
      then (err einval, datas)
      else (let p : Parsed = parse_from fuel table buf 0 0 0 in
          (p.consumed, set (set datas 0 p.value) 1 p.mask))
