-- ===== src/Tests/Attributes.antt =====
-- The header's scratch register and the generic attributes.
use cisco_8000_kernel_module.Common.{
  ◌==◌, length, ℕ, ◌≡◌, refl, Bool, ◌||◌, none, some, List, [], ◌∷◌, arith,
}
use cisco_8000_kernel_module.Env.{ok}
use cisco_8000_kernel_module.Header.Scratch.{Locals, scratch_store}
use cisco_8000_kernel_module.Header.Commands.{effect, scanned, xor_with}
use cisco_8000_kernel_module.Header.Laws.{Carries, scratch_store-effect}
use cisco_8000_kernel_module.Attributes.Parse.{Entry, store_table_entry, parse_table}
use cisco_8000_kernel_module.Attributes.Words.{
  same_word, entry_named, first_word, words, IsName, AreNamed,
}
use cisco_8000_kernel_module.Attributes.ParseLaws.{selection, parse_table-selection}
use cisco_8000_kernel_module.Attributes.Attr.{show, store, store_table_attr, attr_u32, attr_table}
use cisco_8000_kernel_module.Attributes.StoreLaws.{
  StoresShows, line_of, show-store, StoresSelected, store_table_attr-selection,
}
use cisco_8000_kernel_module.Tests.Machines.{remembering, remembering-Memory}

abbrev leftovers : Locals
leftovers = record { and_val = 0xdead; or_val = 0xbeef; xor_val = 0x1234; consumed = none }

scratch_store_example :
    Carries
      (λ reg. 0x1234)
      2
      (effect (xor_with 0xff00000000))
      10
      []
      (scratch_store
        (some 2)
        (scanned (xor_with 0xff00000000) 10)
        leftovers
        10
        (remembering (λ reg. 0x1234) 2)
        [])
scratch_store_example =
    scratch_store-effect (λ reg. 0x1234) 2 (xor_with 0xff00000000) 10 leftovers
      (remembering (λ reg. 0x1234) 2) [] (remembering-Memory (λ reg. 0x1234) 2) (omega arith)
      (omega arith) (omega arith)

abbrev blank : ℕ → Bool
blank c = c == 32 || c == 10

-- "on" and "uv".
abbrev switches : List Entry
switches = store_table_entry (111 ∷ 110 ∷ []) 2 ∷ store_table_entry (117 ∷ 118 ∷ []) 1 ∷ []

-- "uv  on\n"
abbrev line : List ℕ
line = 117 ∷ 118 ∷ 32 ∷ 32 ∷ 111 ∷ 110 ∷ 10 ∷ []

switches-AreNamed : AreNamed blank switches
unfolding AreNamed IsName
switches-AreNamed = (
  refl,
  (refl, (λ e. absurd (omega (arith, e))), (refl, (λ e. absurd (omega (arith, e))), tt)),
  (
    refl,
    (refl, (λ e. absurd (omega (arith, e))), (refl, (λ e. absurd (omega (arith, e))), tt)),
    tt,
  ),
)

parse_table_example : parse_table blank 8 (some switches) line (0 ∷ 0 ∷ []) ≡ (ok 7, 3 ∷ 3 ∷ [])
unfolding selection entry_named words first_word same_word
parse_table_example =
    parse_table-selection blank 8 switches line (0 ∷ 0 ∷ []) switches-AreNamed (omega arith)
      (omega arith) (omega arith)

show-store_example :
    StoresShows 3
      (line_of 5 0x34)
      (store
        (λ b. some (0x1234, length b))
        (some 2)
        (attr_u32 5 0x40 0xff)
        (49 ∷ 50 ∷ 10 ∷ [])
        (remembering (λ reg. 0x5600) 2)
        [])
      (λ h1. (show (some 2) (attr_u32 5 0x40 0xff) (remembering (λ reg. 0x5600) 2) h1).0)
show-store_example =
    show-store (λ b. some (0x1234, length b)) (λ reg. 0x5600) 2 5 0x40 0xff 0x1234
      (49 ∷ 50 ∷ 10 ∷ []) (remembering (λ reg. 0x5600) 2) [] (remembering-Memory (λ reg. 0x5600) 2)
      refl (λ e. absurd (omega (arith, e))) (omega arith) refl

store_table_example :
    StoresSelected
      (λ reg. 0x70)
      2
      0x8c
      (some (3, 3))
      7
      []
      (store_table_attr blank 8
        (some 2)
        (attr_table (λ d. ok []) switches 0x8c)
        line
        (remembering (λ reg. 0x70) 2)
        [])
unfolding selection entry_named words first_word same_word
store_table_example =
    store_table_attr-selection blank 8 (λ d. ok []) switches (λ reg. 0x70) 2 0x8c line
      (remembering (λ reg. 0x70) 2) [] (remembering-Memory (λ reg. 0x70) 2) switches-AreNamed
      (omega arith) (omega arith) (λ e. absurd (omega (arith, e)))
