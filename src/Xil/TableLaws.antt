-- ===== src/Xil/TableLaws.antt =====
-- The attributes over the scratch memory do not disturb one another.
use mathlib.Core.Path.{subst}
use cisco_8000_kernel_module.Common.{
  length, get_elem?, drop, All, ℕ, zero, suc, ◌+◌, ◌*◌, ◌≤◌, ◌<◌, max, ◌≡◌, refl, ap, ◌∙◌, ◌≢◌, ◌⊎◌,
  inl, inr, Bool, Option, some, List, [], ◌∷◌, map, arith,
}
use cisco_8000_kernel_module.Env.{History, Env, write}
use cisco_8000_kernel_module.Env.Contents.{contents, Memory}
use cisco_8000_kernel_module.Xil.Scratch.{
  ScratchAttr, store_bit, store_scratch, show_scratch, show_hw_ver, VersionScan, store_hw_ver,
  bytes_word, words_for, show_str, cut_line, store_str,
}
use cisco_8000_kernel_module.Xil.TextLaws.{
  write_str-writes, read_str-memory_bytes, writes, memory_bytes,
}
use cisco_8000_kernel_module.Xil.Tables.{
  Handlers, Slot, scratch_attrs, show_bit, Input, show_slot, store_slot, by_bit, by_word, by_hw_ver,
  by_str,
}

-- The bytes of registers that a slot's handlers reach: a text has a word at least.
abbrev pub size : Slot → ℕ
size e = elim e.handlers [ by_str ↦ 4 * max 1 (words_for e.attr.len) | _ ↦ 4 ]

abbrev pub Clear : Slot → Slot → Type 0
Clear e f =
    (e.attr.reg_offset + size e ≤ f.attr.reg_offset)
    ⊎ (f.attr.reg_offset + size f ≤ e.attr.reg_offset)

abbrev pub Apart : List Slot → Type 0
Apart [] = Unit
Apart (e ∷ es) = All (Clear e) es × Apart es

scratch_attrs-Apart : Apart scratch_attrs
scratch_attrs-Apart = omega arith

Clear-symm : (e f : Slot) → Clear e f → Clear f e
Clear-symm e f (inl p) = inr p
Clear-symm e f (inr p) = inl p

All-elem :
    (P : Slot → Type 0) (es : List Slot) (i : ℕ) (f : Slot)
    → All P es
    → get_elem? es i ≡ some f
    → P f
All-elem P [] i f a q = ground arith
All-elem P (e ∷ es) zero f a q = subst P (ground arith) a.0
All-elem P (e ∷ es) (suc i) f a q = All-elem P es i f a.1 q

Apart-Clear :
    (es : List Slot)
    → Apart es
    → (i j : ℕ) (e f : Slot) → get_elem? es i ≡ some e
    → get_elem? es j ≡ some f
    → i ≢ j
    → Clear e f
Apart-Clear [] a i j e f p q ne = absurd (cc)
Apart-Clear (g ∷ es) a zero zero e f p q ne = absurd (ne refl)
Apart-Clear (g ∷ es) a zero (suc j) e f p q ne =
    subst (λ t. Clear t f) {x = g} {y = e} (cc) (All-elem (Clear g) es j f a.0 q)
Apart-Clear (g ∷ es) a (suc i) zero e f p q ne =
    subst (λ t. Clear e t) {x = g} {y = f} (cc) (Clear-symm g e (All-elem (Clear g) es i e a.0 p))
Apart-Clear (g ∷ es) a (suc i) (suc j) e f p q ne =
    Apart-Clear es a.1 i j e f p q (λ r. ne (ap suc r))

-- A register is outside a range.
abbrev pub Outside : ℕ → ℕ → ℕ → Type 0
Outside reg off n = (reg < off) ⊎ (off + n ≤ reg)

contents-writes-Outside :
    (held : ℕ → ℕ) (map left off : ℕ) (bytes : List ℕ) (h : History) (reg : ℕ)
    → Outside reg off (4 * left)
    → contents held map (writes map left off bytes h) reg ≡ contents held map h reg
contents-writes-Outside held map zero off bytes h reg p = refl
contents-writes-Outside held map (suc left) off bytes h reg p =
    let w : ℕ = bytes_word bytes in
    let rest =
      contents-writes-Outside held map left (off + 4) (drop 4 bytes) (write map off w ∷ h) reg in
    let here : contents held map (write map off w ∷ h) reg ≡ contents held map h reg =
      ground arith in
    rest (ground arith) ∙ here

module _ (held : ℕ → ℕ) (map : ℕ) (env : Env) (m : Memory held map env) where
  contents-store_bit :
      (is_space : ℕ → Bool) (a : ScratchAttr) (buf : List ℕ) (h : History) (reg : ℕ)
      → Outside reg a.reg_offset 4
      → contents held map (store_bit is_space (some map) a buf env h).1 reg
        ≡ contents held map h reg
  unfolding store_bit
  contents-store_bit is_space a buf h reg p = ground arith

  contents-store_scratch :
      (is_space : ℕ → Bool) (a : ScratchAttr) (scan : Option (ℕ × ℕ)) (buf : List ℕ) (h : History)
      (reg : ℕ)
      → Outside reg a.reg_offset 4
      → contents held map (store_scratch is_space (some map) a scan buf env h).1 reg
        ≡ contents held map h reg
  unfolding store_scratch
  contents-store_scratch is_space a scan buf h reg p = ground arith

  contents-store_hw_ver :
      (a : ScratchAttr) (s : VersionScan) (n : ℕ) (h : History) (reg : ℕ)
      → Outside reg a.reg_offset 4
      → contents held map (store_hw_ver (some map) a s n env h).1 reg ≡ contents held map h reg
  unfolding store_hw_ver
  contents-store_hw_ver a s n h reg p = ground arith

  contents-store_str :
      (a : ScratchAttr) (allocated : Bool) (buf : List ℕ) (h : History) (reg : ℕ)
      → Outside reg a.reg_offset (4 * words_for a.len)
      → contents held map (store_str (some map) a allocated buf env h).1 reg
        ≡ contents held map h reg
  unfolding store_str
  contents-store_str a allocated buf h reg p =
      let bytes : List ℕ = (cut_line a.len buf).0 in
      let n : ℕ = words_for a.len in
      ground (
        arith,
        write_str-writes held map n a.reg_offset bytes env h m,
        contents-writes-Outside held map n a.reg_offset bytes h reg p,
      )

  contents-store_by :
      (is_space : ℕ → Bool) (k : Handlers) (a : ScratchAttr) (i : Input) (h : History) (reg : ℕ)
      → let e : Slot = record { attr = a; handlers = k } in
        Outside reg a.reg_offset (size e)
        → contents held map (store_slot is_space (some map) e i env h).1 reg
          ≡ contents held map h reg
  unfolding store_slot
  contents-store_by is_space by_bit a i h reg p = contents-store_bit is_space a i.buf h reg p
  contents-store_by is_space by_word a i h reg p =
      contents-store_scratch is_space a i.number i.buf h reg p
  contents-store_by is_space by_hw_ver a i h reg p =
      contents-store_hw_ver a i.versions (length i.buf) h reg p
  contents-store_by is_space by_str a i h reg p =
      contents-store_str a i.allocated i.buf h reg (ground arith)

  -- A store changes only the registers of its slot.
  contents-store_slot :
      (is_space : ℕ → Bool) (e : Slot) (i : Input) (h : History) (reg : ℕ)
      → Outside reg e.attr.reg_offset (size e)
      → contents held map (store_slot is_space (some map) e i env h).1 reg ≡ contents held map h reg
  contents-store_slot is_space e i h reg p = contents-store_by is_space e.handlers e.attr i h reg p

  memory_bytes_eq :
      (h h' : History) (left off : ℕ)
      → ((reg : ℕ)
          → off ≤ reg
          → reg < off + 4 * left
          → contents held map h reg ≡ contents held map h' reg)
      → memory_bytes (contents held map h) left off ≡ memory_bytes (contents held map h') left off
  memory_bytes_eq h h' zero off same = refl
  memory_bytes_eq h h' (suc left) off same =
      let rest =
        memory_bytes_eq h h' left (off + 4) (λ reg p q. same reg (omega arith) (omega arith)) in
      rw (same off (omega arith) (omega arith), rest) refl

  abbrev Same : ℕ → ℕ → History → History → Type 0
  Same off n h h' =
      (reg : ℕ) → off ≤ reg → reg < off + n → contents held map h reg ≡ contents held map h' reg

  show_by_eq :
      (k : Handlers) (a : ScratchAttr) (h h' : History)
      → let e : Slot = record { attr = a; handlers = k } in
        Same a.reg_offset (size e) h h'
        → (show_slot (some map) e env h).0 ≡ (show_slot (some map) e env h').0
  unfolding show_slot show_scratch show_hw_ver show_str show_bit
  show_by_eq by_bit a h h' same = refl
  show_by_eq by_word a h h' same = ground (
    arith,
    m.recalls h a.reg_offset,
    m.recalls h' a.reg_offset,
    same a.reg_offset (omega arith) (omega arith),
  )
  show_by_eq by_hw_ver a h h' same = ground (
    arith,
    m.recalls h a.reg_offset,
    m.recalls h' a.reg_offset,
    same a.reg_offset (omega arith) (omega arith),
  )
  show_by_eq by_str a h h' same =
      let n : ℕ = max 1 (words_for a.len) in
      ground (
        arith,
        read_str-memory_bytes held map n a.reg_offset env h m,
        read_str-memory_bytes held map n a.reg_offset env h' m,
        memory_bytes_eq h h' n a.reg_offset same,
      )

-- Of the attributes over the scratch memory and the command register, a store through one leaves what
-- every other one shows as it was, whatever the input, while the registers keep what is written.
pub show_slot-store_slot_ne :
    (held : ℕ → ℕ) (map : ℕ) (env : Env) (is_space : ℕ → Bool) (i j : ℕ) (e f : Slot)
    (input : Input) (h : History)
    → Memory held map env
    → get_elem? scratch_attrs i ≡ some e
    → get_elem? scratch_attrs j ≡ some f
    → i ≢ j
    → (show_slot (some map) f env (store_slot is_space (some map) e input env h).1).0
      ≡ (show_slot (some map) f env h).0
show_slot-store_slot_ne held map env is_space i j e f input h m p q ne =
    let clear : Clear e f = Apart-Clear scratch_attrs scratch_attrs-Apart i j e f p q ne in
    show_by_eq held map env m f.handlers f.attr _ h
      (λ reg a b. contents-store_slot held map env m is_space e input h reg (ground arith))
