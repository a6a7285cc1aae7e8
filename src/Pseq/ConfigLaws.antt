-- ===== src/Pseq/ConfigLaws.antt =====
-- Commands that are stored in the power sequencer's attribute "config".
use cisco_8000_kernel_module.Common.{
  length, All, ℕ, suc, ◌^◌, if◌then◌else◌, Option, none, sym, ◌∙◌, ap, bit_and, bit_or, ◌≤◌, ◌<◌,
  ◌≡◌, ◌≢◌, Bool, true, false, some, List, [], ◌∷◌, map, arith,
}
use cisco_8000_kernel_module.Env.{History, Env, Result, einval, ok, err}
use cisco_8000_kernel_module.Env.Contents.{Memory, contents}
use cisco_8000_kernel_module.Attributes.Parse.{Entry}
use cisco_8000_kernel_module.Attributes.Words.{same_word, entry_named, words, IsName, AreNamed}
use cisco_8000_kernel_module.Bits.{
  testbit, testbit-zero, testbit-bit_and, testbit-bit_or, testbit_of_lt, testbit-complement,
  bit_or_comm, eq_of_testbit,
}
use cisco_8000_kernel_module.Reg.{not32, put}
use mathlib.Core.Path.{subst, subst⁻¹}
use cisco_8000_kernel_module.Attributes.ParseLaws.{selection}
use cisco_8000_kernel_module.Attributes.Attr.{store_table_attr}
use cisco_8000_kernel_module.Attributes.StoreLaws.{StoresSelected, store_table_attr-selection}
use cisco_8000_kernel_module.Pseq.Attrs.{gen_cfg, config_fmt, config_store_table, config_attr}

-- No letter from a to z is white space.
abbrev pub SparesLetters : (ℕ → Bool) → Type 0
SparesLetters is_space = (c : ℕ) → 97 ≤ c → c ≤ 122 → is_space c ≡ false

-- A name of letters from a to z.
abbrev Letters : List ℕ → Type 0
Letters = All (λ c. (97 ≤ c) × (c ≤ 122))

Letters-IsName :
    (is_space : ℕ → Bool) (name : List ℕ)
    → SparesLetters is_space
    → Letters name
    → IsName is_space name
unfolding IsName
Letters-IsName is_space [] s l = tt
Letters-IsName is_space (c ∷ cs) s l =
    (s c l.0.0 l.0.1, (λ e. absurd (omega (arith, e, l.0))), Letters-IsName is_space cs s l.1)

-- An entry of `STORE_TABLE_ENTRY` with such a name.
abbrev IsLettered : Entry → Type 0
IsLettered e = (e.match_len ≡ length e.match) × Letters e.match

IsLettered-AreNamed :
    (is_space : ℕ → Bool) (table : List Entry)
    → SparesLetters is_space
    → All IsLettered table
    → AreNamed is_space table
unfolding AreNamed
IsLettered-AreNamed is_space [] s a = tt
IsLettered-AreNamed is_space (e ∷ table) s a =
    (a.0.0, Letters-IsName is_space e.match s a.0.1, IsLettered-AreNamed is_space table s a.1)

config_store_table-IsLettered : All IsLettered config_store_table
unfolding config_store_table
config_store_table-IsLettered = omega arith

length-config_store_table : 0 < length config_store_table
unfolding config_store_table
length-config_store_table = omega arith

-- The commands of "config" and the bits of the register 0x8c that each of them sets.
abbrev pub command_bits : List ℕ → Option ℕ
command_bits word =
    -- "on" sets bit 1, "off" bit 2 and "cycle" bit 3.
    if same_word (111 ∷ 110 ∷ []) word
    then some 0x2
    else if same_word (111 ∷ 102 ∷ 102 ∷ []) word
    then some 0x4
    else if same_word (99 ∷ 121 ∷ 99 ∷ 108 ∷ 101 ∷ []) word
    then some 0x8
    -- "ignore" sets the bits of "other", "device", "ov" and "uv".
    else if same_word (105 ∷ 103 ∷ 110 ∷ 111 ∷ 114 ∷ 101 ∷ []) word
    then some 0x71
    else if same_word (111 ∷ 116 ∷ 104 ∷ 101 ∷ 114 ∷ []) word
    then some 0x40
    else if same_word (100 ∷ 101 ∷ 118 ∷ 105 ∷ 99 ∷ 101 ∷ []) word
    then some 0x20
    else if same_word (111 ∷ 118 ∷ []) word
    then some 0x10
    else if same_word (117 ∷ 118 ∷ []) word
    then some 0x1
    else none

-- The bits of all the words, if each of them is a command.
abbrev pub commanded : List (List ℕ) → Option ℕ
commanded [] = some 0
commanded (w ∷ ws) = elim (command_bits w) [
  | none ↦ none
  | some b ↦ elim (commanded ws) [ none ↦ none | some c ↦ some (bit_or b c) ]
]

-- The table's entry for a word next to the word's bits.
abbrev Matches : Option Entry → Option ℕ → Type 0
Matches none none = Unit
Matches none (some b) = ⊥
Matches (some e) none = ⊥
Matches (some e) (some b) = (e.mask ≡ b) × (e.value ≡ b) × (b < 2 ^ 7)

entry_named-Matches : (w : List ℕ) → Matches (entry_named w config_store_table) (command_bits w)
unfolding entry_named config_store_table put
entry_named-Matches w = ground arith

-- No bit from 32 on.
abbrev IsWord : ℕ → Type 0
IsWord v = (i : ℕ) → 32 ≤ i → testbit v i ≡ false

bit_or-IsWord : (v b : ℕ) → IsWord v → b < 2 ^ 7 → IsWord (bit_or v b)
bit_or-IsWord v b h p i q =
    ground (arith, testbit-bit_or v b i, h i q, testbit_of_lt b 7 i p (omega arith))

-- A command's bits are set, and nothing is taken away.
overlay : (v b : ℕ) → IsWord v → b < 2 ^ 7 → bit_or (bit_and v (not32 b)) b ≡ bit_or v b
overlay v b h p = eq_of_testbit _ _ (λ i. ground (
  arith,
  testbit-bit_or (bit_and v (not32 b)) b i,
  testbit-bit_and v (not32 b) i,
  testbit-bit_or v b i,
  testbit-complement b 32 i (omega arith),
  h i,
))

bit_or_assoc : (a b c : ℕ) → bit_or (bit_or a b) c ≡ bit_or a (bit_or b c)
bit_or_assoc a b c = eq_of_testbit _ _ (λ i. ground (
  arith,
  testbit-bit_or (bit_or a b) c i,
  testbit-bit_or a b i,
  testbit-bit_or a (bit_or b c) i,
  testbit-bit_or b c i,
))

bit_or-zero : (a : ℕ) → bit_or a 0 ≡ a
bit_or-zero a = eq_of_testbit _ _ (λ i. ground (arith, testbit-bit_or a 0 i, testbit-zero i))

-- What the table's entries select next to the commands' bits.
abbrev Selected : Option (ℕ × ℕ) → Option ℕ → ℕ → Type 0
Selected none none v = Unit
Selected none (some c) v = ⊥
Selected (some p) none v = ⊥
Selected (some p) (some c) v = p.0 ≡ bit_or v c

Selected-bit_or :
    (o : Option (ℕ × ℕ)) (c : Option ℕ) (v b : ℕ)
    → Selected o c (bit_or v b)
    → Selected o (elim c [ none ↦ none | some d ↦ some (bit_or b d) ]) v
Selected-bit_or none none v b s = tt
Selected-bit_or none (some d) v b s = s
Selected-bit_or (some q) none v b s = s
Selected-bit_or (some q) (some d) v b s = s ∙ bit_or_assoc v b d

Selected-step :
    (oe : Option Entry) (ob : Option ℕ) (ws : List (List ℕ)) (v m : ℕ)
    → Matches oe ob
    → IsWord v
    → ((v' m' : ℕ) → IsWord v' → Selected (selection config_store_table ws v' m') (commanded ws) v')
    → Selected
        (elim oe [
          | none ↦ none
          | some e ↦
              selection config_store_table ws
                (bit_or (bit_and v (not32 e.mask)) e.value)
                (bit_or m e.mask)
        ])
        (elim ob [
          | none ↦ none
          | some b ↦ elim (commanded ws) [ none ↦ none | some d ↦ some (bit_or b d) ]
        ])
        v
Selected-step none none ws v m a h rest = tt
Selected-step none (some b) ws v m a h rest = absurd a
Selected-step (some e) none ws v m a h rest = absurd a
Selected-step (some e) (some b) ws v m a h rest =
    let v' : ℕ = bit_or (bit_and v (not32 e.mask)) e.value in
    let same : v' ≡ bit_or v b =
      ap (λ x. bit_or (bit_and v (not32 x)) e.value) a.0
      ∙ ap (bit_or (bit_and v (not32 b))) a.1
      ∙ overlay v b h a.2 in
    let o : Option (ℕ × ℕ) = selection config_store_table ws v' (bit_or m e.mask) in
    Selected-bit_or o (commanded ws) v b (
      subst (Selected o (commanded ws)) same
        (rest v' (bit_or m e.mask) (subst⁻¹ IsWord same (bit_or-IsWord v b h a.2))))

selection-Selected :
    (ws : List (List ℕ)) (v m : ℕ)
    → IsWord v
    → Selected (selection config_store_table ws v m) (commanded ws) v
unfolding selection
selection-Selected [] v m h = sym (bit_or-zero v)
selection-Selected (w ∷ ws) v m h =
    Selected-step (entry_named w config_store_table) (command_bits w) ws v m (entry_named-Matches w)
      h (λ v' m' h'. selection-Selected ws v' m' h')

-- A run that stores the commanded bits in the register 0x8c and returns the length, and changes no other
-- register; or that is refused before a request.
abbrev pub StoresCommands : (ℕ → ℕ) → ℕ → Option ℕ → ℕ → History → Result ℕ × History → Type 0
StoresCommands held map none n h r = r ≡ (err einval, h)
StoresCommands held map (some b) n h (r, h') =
    (r ≡ ok n)
    × (contents held map h' 0x8c ≡ b)
    × ((other : ℕ) → other ≢ 0x8c → contents held map h' other ≡ contents held map h other)

StoresSelected-StoresCommands :
    (held : ℕ → ℕ) (map n : ℕ) (h : History) (run : Result ℕ × History) (o : Option (ℕ × ℕ))
    (c : Option ℕ)
    → Selected o c 0
    → StoresSelected held map gen_cfg o n h run
    → StoresCommands held map c n h run
StoresSelected-StoresCommands held map n h run none none a s = s
StoresSelected-StoresCommands held map n h run none (some b) a s = absurd a
StoresSelected-StoresCommands held map n h run (some q) none a s = absurd a
StoresSelected-StoresCommands held map n h (r, h') (some q) (some b) a s =
    (s.0, s.1 ∙ a ∙ bit_or_comm 0 b ∙ bit_or-zero b, s.2)

-- Storing in "config" on a map that holds what is written and reads back: if every word of the input is
-- one of the commands "on", "off", "cycle", "ignore", "other", "device", "ov" and "uv", the register
-- 0x8c is overwritten with the bits that the words set, all together, and no other register changes;
-- any other word refuses the input with -EINVAL before a request. No letter from a to z is white space.
-- As many passes as the input has characters, and one more, are enough.
pub config_attr-selection :
    (is_space : ℕ → Bool) (held : ℕ → ℕ) (map : ℕ) (buf : List ℕ) (env : Env) (h : History)
    → Memory held map env
    → SparesLetters is_space
    → StoresCommands held map
        (commanded (words is_space true buf))
        (length buf)
        h
        (store_table_attr is_space (suc (length buf)) (some map) config_attr buf env h)
unfolding config_attr
config_attr-selection is_space held map buf env h mem s =
    let ws : List (List ℕ) = words is_space true buf in
    StoresSelected-StoresCommands held map (length buf) h
      (store_table_attr is_space (suc (length buf)) (some map) config_attr buf env h)
      (selection config_store_table ws 0 0) (commanded ws)
      (selection-Selected ws 0 0 (λ i p. testbit-zero i))
      (store_table_attr-selection is_space (suc (length buf)) config_fmt config_store_table held map
        gen_cfg buf env h mem
        (IsLettered-AreNamed is_space config_store_table s config_store_table-IsLettered)
        length-config_store_table (omega arith) (λ e. absurd (omega (arith, e))))
