-- ===== src/Header/Laws.antt =====
-- The scratch register's commands, bit by bit.
use mathlib.Core.Path.{subst, subst⁻¹}
use cisco_8000_kernel_module.Common.{
  ℕ, ◌+◌, ◌*◌, ◌/◌, ◌%◌, ◌^◌, ◌≤◌, ◌<◌, bit_or, ◌≡◌, refl, sym, ap, ◌∙◌, ◌≢◌, Bool, none, some, ◌∷◌,
  map, arith,
}
use cisco_8000_kernel_module.Env.{History, Result, Env, read, write, ok}
use cisco_8000_kernel_module.Env.Contents.{contents, Memory}
use cisco_8000_kernel_module.Bits.{testbit, testbit-mod, bit_or-add, bit_or_comm}
use cisco_8000_kernel_module.Header.Scratch.{
  sw0_reg, read_u64, write_u64, Scans, Locals, scan_plain, scan_operators, scan_mask, scan_bits,
  combine, scratch_store,
}
use cisco_8000_kernel_module.Header.Commands.{
  Command, effect, IsCommand, scanned, scratch_value, chosen, chosen-consumed, combined,
  testbit-combine, combine-effect, set_bit,
}

read_u64-value :
    (hi lo : ℕ) → hi < 2 ^ 32 → lo < 2 ^ 32 → bit_or (hi * 2 ^ 32 % 2 ^ 64) lo ≡ hi * 2 ^ 32 + lo
read_u64-value hi lo p q =
    let e : hi * 2 ^ 32 % 2 ^ 64 ≡ hi * 2 ^ 32 = omega arith in
    rw (e, bit_or_comm (hi * 2 ^ 32) lo)
      (omega (arith, bit_or-add lo hi 32 (omega arith) (omega arith)))

write_u64-value :
    (w i : ℕ) → i < 64 → testbit (w / 2 ^ 32 % 2 ^ 32 * 2 ^ 32 + w % 2 ^ 32) i ≡ testbit w i
write_u64-value w i p =
    let e : w / 2 ^ 32 % 2 ^ 32 * 2 ^ 32 + w % 2 ^ 32 ≡ w % 2 ^ 64 = omega arith in
    rw e (ground (arith, testbit-mod w 64 i))

-- A run that returns `n`, makes of each bit of the scratch value what `f` does, and changes no other
-- register.
abbrev pub Carries : (ℕ → ℕ) → ℕ → (ℕ → Bool → Bool) → ℕ → History → Result ℕ × History → Type 0
Carries held map f n h (r, h') =
    (r ≡ ok n)
    × ((i : ℕ)
        → i < 64
        → testbit (scratch_value (contents held map h')) i
          ≡ f i (testbit (scratch_value (contents held map h)) i))
    × ((reg : ℕ)
        → reg ≢ sw0_reg
        → reg ≢ sw0_reg + 4
        → contents held map h' reg ≡ contents held map h reg)

scratch_store-combined :
    (held : ℕ → ℕ) (map : ℕ) (s : Scans) (n : ℕ) (stack : Locals) (env : Env) (h : History)
    → Memory held map env
    → (scan_bits s (record stack { consumed = none })).consumed ≡ some n
    → contents held map h sw0_reg < 2 ^ 32
    → contents held map h (sw0_reg + 4) < 2 ^ 32
    → Carries held map
        (combined (scan_bits s (record stack { consumed = none })))
        n
        h
        (scratch_store (some map) s stack n env h)
unfolding scratch_store read_u64 write_u64
scratch_store-combined held map s n stack env h m used a b =
    let l : Locals = scan_bits s (record stack { consumed = none }) in
    let x : ℕ = contents held map h sw0_reg in
    let y : ℕ = contents held map h (sw0_reg + 4) in
    let word : ℕ = bit_or (x * 2 ^ 32 % 2 ^ 64) y in
    let w : ℕ = combine l word in
    let h2 : History = read map 12 ∷ read map 8 ∷ h in
    let h3 : History = write map 8 (w / 2 ^ 32 % 2 ^ 32) ∷ h2 in
    let h4 : History = write map 12 (w % 2 ^ 32) ∷ h3 in
    let step : scratch_store (some map) s stack n env h ≡ (ok n, h4) = ground (
      arith,
      used,
      m.recalls h 8,
      m.recalls (read map 8 ∷ h) 12,
      m.stores h2 8 (w / 2 ^ 32 % 2 ^ 32),
      m.stores h3 12 (w % 2 ^ 32),
    ) in
    let kept : scratch_value (contents held map h4) ≡ w / 2 ^ 32 % 2 ^ 32 * 2 ^ 32 + w % 2 ^ 32 =
      ground arith in
    subst⁻¹ (Carries held map (combined l) n h) step (
      refl,
      (λ i p.
          ap (λ t. testbit t i) kept
          ∙ write_u64-value w i p
          ∙ testbit-combine l word i
          ∙ ap (λ t. combined l i (testbit t i)) (read_u64-value x y a b)),
      λ reg u v. ground arith,
    )

-- While the registers answer, a command that takes up the whole buffer is carried out: the handler
-- returns the buffer's length, every bit of the 64-bit scratch value is what the command makes of it,
-- whatever the variables held before, and no other register has changed.
pub scratch_store-effect :
    (held : ℕ → ℕ) (map : ℕ) (c : Command) (n : ℕ) (stack : Locals) (env : Env) (h : History)
    → Memory held map env
    → IsCommand c
    → contents held map h sw0_reg < 2 ^ 32
    → contents held map h (sw0_reg + 4) < 2 ^ 32
    → Carries held map (effect c) n h (scratch_store (some map) (scanned c n) stack n env h)
unfolding chosen
scratch_store-effect held map c n stack env h m ic a b =
    let r =
      scratch_store-combined held map (scanned c n) n stack env h m (chosen-consumed c n stack ic) a
        b in
    let word : ℕ = scratch_value (contents held map h) in
    (
      r.0,
      (λ i p.
          r.1 i p
          ∙ sym (testbit-combine (chosen c n stack) word i)
          ∙ combine-effect c n stack word i ic p),
      r.2,
    )

-- While the registers answer, "set-bit" with the number of a bit from 64 on is not refused: the handler
-- returns the buffer's length as if it had succeeded, and every bit of the scratch value is combined
-- with what the three variables held before they were assigned.
pub scratch_store-combined_stack :
    (held : ℕ → ℕ) (map b n : ℕ) (stack : Locals) (env : Env) (h : History)
    → Memory held map env
    → 64 ≤ b
    → contents held map h sw0_reg < 2 ^ 32
    → contents held map h (sw0_reg + 4) < 2 ^ 32
    → Carries held map
        (combined stack)
        n
        h
        (scratch_store (some map) (scanned (set_bit b) n) stack n env h)
unfolding scan_bits scan_mask scan_operators scan_plain
scratch_store-combined_stack held map b n stack env h m beyond a b1 =
    let l : scan_bits (scanned (set_bit b) n) (record stack { consumed = none })
        ≡ record stack { consumed = some n } =
      ground arith in
    subst
      (λ t.
        Carries held map (combined t) n h
          (scratch_store (some map) (scanned (set_bit b) n) stack n env h))
      l
      (scratch_store-combined held map (scanned (set_bit b) n) n stack env h m
        (ap (λ t. t.consumed) l) a b1)
