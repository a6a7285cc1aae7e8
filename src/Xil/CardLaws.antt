-- ===== src/Xil/CardLaws.antt =====
-- The boards that the XIL driver tells apart, and the cards' names.

use mathlib.Core.Path.{subst}
use cisco_8000_kernel_module.Common.{
  if◌then◌else◌, Bool-cases, ℕ, ◌≡◌, refl, inl, inr, true, Option, none, some, List, ◌++◌, arith,
}
use cisco_8000_kernel_module.Text.{codes}
use cisco_8000_kernel_module.Xil.Regs.{fixed, distributed}
use cisco_8000_kernel_module.Xil.Boards.{
  on, is_fowlmere, is_kenley, is_kirkwall, is_zenith, is_sherman, is_churchill, is_crocodile,
  is_matilda, is_pershing,
}
use cisco_8000_kernel_module.Xil.Cards.{name_at, distributed_cards, fixed_cards, card_at, card_of}

-- The board that the tests of cisco-fpga-xil.c find in status0, of those with a name of their own.
unfoldable pub board_name : ℕ → Option (List ℕ)
board_name word =
    if is_fowlmere word
    then some (codes "Fowlmere")
    else (if is_kenley word
        then some (codes "Kenley")
        else (if is_kirkwall word
            then some (codes "Kirkwall")
            else (if is_zenith word
                then some (codes "Zenith")
                else (if is_sherman word
                    then some (codes "Sherman")
                    else (if is_churchill word
                        then some (codes "Churchill")
                        else (if is_crocodile word
                            then some (codes "Crocodile")
                            else (if is_matilda word
                                then some (codes "Matilda")
                                else (if is_pershing word
                                    then some (codes "Pershing")
                                    else none))))))))

-- The card's name has the text in it.
abbrev pub Names : List ℕ → Option (List ℕ) → Type 0
Names text card = (before : List ℕ) × (after : List ℕ) × (card ≡ some (before ++ (text ++ after)))

names_on :
    (platform fpga word : ℕ) (text : List ℕ)
    → on platform fpga word ≡ true
    → Names text (card_at platform fpga)
    → Names text (card_of word)
names_on platform fpga word text e (before, after, same) = (before, after, (ground arith))

fowlmere_card : (word : ℕ) → is_fowlmere word ≡ true → Names (codes "Fowlmere") (card_of word)
unfolding is_fowlmere card_at name_at fixed_cards distributed_cards
fowlmere_card word e =
    names_on distributed 0x61 word (codes "Fowlmere") e (codes "FC:", codes "", refl)

kenley_card : (word : ℕ) → is_kenley word ≡ true → Names (codes "Kenley") (card_of word)
unfolding is_kenley card_at name_at fixed_cards distributed_cards
kenley_card word e = elim (Bool-cases (on distributed 0x40 word)) [
  | inl yes_on ↦
      names_on distributed 0x40 word (codes "Kenley") yes_on (codes "LC:", codes ":Gauntlet", refl)
  | inr not_on ↦
      names_on distributed 0x41 word (codes "Kenley") (ground arith)
        (codes "LC:", codes ":Corsair", refl)
]

kirkwall_card : (word : ℕ) → is_kirkwall word ≡ true → Names (codes "Kirkwall") (card_of word)
unfolding is_kirkwall card_at name_at fixed_cards distributed_cards
kirkwall_card word e = elim (Bool-cases (on distributed 0x42 word)) [
  | inl yes_on ↦
      names_on distributed 0x42 word (codes "Kirkwall") yes_on
        (codes "LC:", codes ":Vanguard", refl)
  | inr not_on ↦
      names_on distributed 0x43 word (codes "Kirkwall") (ground arith)
        (codes "LC:", codes ":Lancer", refl)
]

zenith_card : (word : ℕ) → is_zenith word ≡ true → Names (codes "Zenith") (card_of word)
unfolding is_zenith card_at name_at fixed_cards distributed_cards
zenith_card word e = names_on distributed 0x21 word (codes "Zenith") e (codes "RP:", codes "", refl)

sherman_card : (word : ℕ) → is_sherman word ≡ true → Names (codes "Sherman") (card_of word)
unfolding is_sherman card_at name_at fixed_cards distributed_cards
sherman_card word e =
    names_on fixed 3 word (codes "Sherman") e (codes "RP:Fixed [", codes "]", refl)

churchill_card : (word : ℕ) → is_churchill word ≡ true → Names (codes "Churchill") (card_of word)
unfolding is_churchill card_at name_at fixed_cards distributed_cards
churchill_card word e =
    names_on fixed 7 word (codes "Churchill") e (codes "RP:Fixed [", codes "]", refl)

crocodile_card : (word : ℕ) → is_crocodile word ≡ true → Names (codes "Crocodile") (card_of word)
unfolding is_crocodile card_at name_at fixed_cards distributed_cards
crocodile_card word e =
    names_on fixed 12 word (codes "Crocodile") e (codes "RP:Fixed [", codes "]", refl)

matilda_card : (word : ℕ) → is_matilda word ≡ true → Names (codes "Matilda") (card_of word)
unfolding is_matilda card_at name_at fixed_cards distributed_cards
matilda_card word e = elim (Bool-cases (on fixed 11 word)) [
  | inl yes_on ↦
      names_on fixed 11 word (codes "Matilda") yes_on (codes "RP:Fixed [", codes "_32]", refl)
  | inr not_on ↦
      names_on fixed 10 word (codes "Matilda") (ground arith)
        (codes "RP:Fixed [", codes "_64]", refl)
]

pershing_card : (word : ℕ) → is_pershing word ≡ true → Names (codes "Pershing") (card_of word)
unfolding is_pershing card_at name_at fixed_cards distributed_cards
pershing_card word e = elim (Bool-cases (on fixed 5 word)) [
  | inl yes_on ↦
      names_on fixed 5 word (codes "Pershing") yes_on (codes "RP:Fixed [", codes ":Base]", refl)
  | inr not_on ↦
      names_on fixed 6 word (codes "Pershing") (ground arith)
        (codes "RP:Fixed [", codes ":Mezzanine]", refl)
]

-- The card's name that the attribute "card_type" shows has the name of the board in it, for every word
-- of status0 in which the XIL driver finds a board with a name of its own.
pub card_of-board_name :
    (word : ℕ) (text : List ℕ) → board_name word ≡ some text → Names text (card_of word)
unfolding board_name
card_of-board_name word text e = elim (Bool-cases (is_fowlmere word)) [
  | inl this ↦
      subst (λ t. Names t (card_of word)) {x = codes "Fowlmere"} {y = text} (ground arith)
        (fowlmere_card word this)
  | inr other1 ↦ elim (Bool-cases (is_kenley word)) [
    | inl this ↦
        subst (λ t. Names t (card_of word)) {x = codes "Kenley"} {y = text} (ground arith)
          (kenley_card word this)
    | inr other2 ↦ elim (Bool-cases (is_kirkwall word)) [
      | inl this ↦
          subst (λ t. Names t (card_of word)) {x = codes "Kirkwall"} {y = text} (ground arith)
            (kirkwall_card word this)
      | inr other3 ↦ elim (Bool-cases (is_zenith word)) [
        | inl this ↦
            subst (λ t. Names t (card_of word)) {x = codes "Zenith"} {y = text} (ground arith)
              (zenith_card word this)
        | inr other4 ↦ elim (Bool-cases (is_sherman word)) [
          | inl this ↦
              subst (λ t. Names t (card_of word)) {x = codes "Sherman"} {y = text} (ground arith)
                (sherman_card word this)
          | inr other5 ↦ elim (Bool-cases (is_churchill word)) [
            | inl this ↦
                subst (λ t. Names t (card_of word)) {x = codes "Churchill"} {y = text}
                  (ground arith) (churchill_card word this)
            | inr other6 ↦ elim (Bool-cases (is_crocodile word)) [
              | inl this ↦
                  subst (λ t. Names t (card_of word)) {x = codes "Crocodile"} {y = text}
                    (ground arith) (crocodile_card word this)
              | inr other7 ↦ elim (Bool-cases (is_matilda word)) [
                | inl this ↦
                    subst (λ t. Names t (card_of word)) {x = codes "Matilda"} {y = text}
                      (ground arith) (matilda_card word this)
                | inr other8 ↦ elim (Bool-cases (is_pershing word)) [
                  | inl this ↦
                      subst (λ t. Names t (card_of word)) {x = codes "Pershing"} {y = text}
                        (ground arith) (pershing_card word this)
                  | inr other9 ↦ absurd (ground arith)
                ]
              ]
            ]
          ]
        ]
      ]
    ]
  ]
]
