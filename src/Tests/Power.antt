-- ===== src/Tests/Power.antt =====
-- The power sequencer.
use cisco_8000_kernel_module.Common.{
  ◌==◌, take, ℕ, ◌+◌, ◌≡◌, refl, Bool, ◌||◌, none, some, List, [], ◌∷◌, ◌++◌, arith,
}
use cisco_8000_kernel_module.Attributes.Words.{same_word, first_word, words}
use cisco_8000_kernel_module.Attributes.Attr.{store_table_attr}
use cisco_8000_kernel_module.Pseq.Attrs.{config_attr}
use cisco_8000_kernel_module.Pseq.Rails.{Pseq, rail_line, show_rail, show_bits, show_rails}
use cisco_8000_kernel_module.Pseq.RailLaws.{rails_text, show_rails-take}
use cisco_8000_kernel_module.Pseq.ConfigLaws.{SparesLetters, StoresCommands, config_attr-selection}
use cisco_8000_kernel_module.Tests.Machines.{remembering, remembering-Memory}

-- Two rails, the first of them named "v", and room for three characters.
abbrev two_rails : Pseq
two_rails = record {
  regmap = some 2;
  active = 1;
  num_rails0 = 2;
  num_rails1 = 0;
  rail_names = some (118 ∷ []) ∷ none ∷ [];
}

abbrev digit : ℕ → List ℕ
digit n = (48 + n) ∷ []

show_rails_example :
    (show_rails digit two_rails 3 0 4).text
    ≡ take 3 (rails_text digit 2 3 0 two_rails.rail_names ++ rails_text digit 0 0 0 [])
show_rails_example = show_rails-take digit two_rails 3 0 4 (omega arith) (omega arith) (omega arith)

rails_run : (show_rails digit two_rails 3 0 4).text ≡ 118 ∷ 10 ∷ 82 ∷ []
unfolding show_rails show_bits show_rail rail_line
rails_run = refl

abbrev white : ℕ → Bool
white c = c == 32 || c == 10

white-SparesLetters : SparesLetters white
white-SparesLetters c a b = ground arith

-- "uv off"
abbrev power_command : List ℕ
power_command = 117 ∷ 118 ∷ 32 ∷ 111 ∷ 102 ∷ 102 ∷ []

config_example :
    StoresCommands
      (λ reg. 0x70)
      2
      (some 5)
      6
      []
      (store_table_attr white 7 (some 2) config_attr power_command (remembering (λ reg. 0x70) 2) [])
unfolding words first_word same_word
config_example =
    config_attr-selection white (λ reg. 0x70) 2 power_command (remembering (λ reg. 0x70) 2) []
      (remembering-Memory (λ reg. 0x70) 2) white-SparesLetters
