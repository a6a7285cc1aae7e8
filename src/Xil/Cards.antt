-- ===== src/Xil/Cards.antt =====
-- The names of platforms and cards in drivers/cisco/msd_xil_sysfs.c, by the numbers of
-- drivers/cisco/xil.h. `decimal` is what the kernel prints for "%u".
use Prim.Native.String.{String}
use cisco_8000_kernel_module.Common.{
  ◌==◌, if◌then◌else◌, ℕ, Option, none, some, List, [], ◌∷◌, ◌++◌, map,
}
use cisco_8000_kernel_module.Env.{M, pure, fail, ◌>>=◌, regmap_read, enxio}
use cisco_8000_kernel_module.Text.{codes}
use cisco_8000_kernel_module.Reg.{get}
use cisco_8000_kernel_module.Xil.Regs.{status0, platform_id, fpga_id, fixed, distributed, central}

-- An array of names with the entries that the source gives; all others are NULL.
unfoldable pub name_at : ℕ → List (ℕ × String) → Option (List ℕ)
name_at i [] = none
name_at i ((j, s) ∷ names) = let rest = name_at i names in if i == j then some (codes s) else rest

-- `_platform_type`.
unfoldable pub platform_types : List (ℕ × String)
platform_types = (fixed, "fixed") ∷ (distributed, "distributed") ∷ (central, "centralized") ∷ []

-- `_fpga_id_distributed`, `_fpga_id_fixed` and `_fpga_id_central`.
unfoldable pub distributed_cards : List (ℕ × String)
distributed_cards =
    (0x20, "RP")
    ∷ (0x21, "RP:Zenith")
    ∷ (0x30, "LC:Exeter:Gauntlet")
    ∷ (0x31, "LC:Exeter:Corsair")
    ∷ (0x34, "LC:Exeter:Dauntless")
    ∷ (0x40, "LC:Kenley:Gauntlet")
    ∷ (0x41, "LC:Kenley:Corsair")
    ∷ (0x42, "LC:Kirkwall:Vanguard")
    ∷ (0x43, "LC:Kirkwall:Lancer")
    ∷ (0x44, "LC:Redcliff:Dauntless")
    ∷ (0x50, "FT:Warmwell")
    ∷ (0x60, "FC")
    ∷ (0x61, "FC:Fowlmere")
    ∷ []

unfoldable pub fixed_cards : List (ℕ × String)
fixed_cards =
    (1, "RP:Fixed [BMC]")
    ∷ (2, "RP:Fixed [X86]")
    ∷ (3, "RP:Fixed [Sherman]")
    ∷ (4, "RP:Fixed [Kangaroo]")
    ∷ (5, "RP:Fixed [Pershing:Base]")
    ∷ (6, "RP:Fixed [Pershing:Mezzanine]")
    ∷ (7, "RP:Fixed [Churchill]")
    ∷ (9, "RP:Fixed [Valentine]")
    ∷ (11, "RP:Fixed [Matilda_32]")
    ∷ (10, "RP:Fixed [Matilda_64]")
    ∷ (12, "RP:Fixed [Crocodile]")
    ∷ (24, "RP:Fixed [Elmdon]")
    ∷ []

unfoldable pub central_cards : List (ℕ × String)
central_cards = (1, "ALTUS") ∷ (2, "KOBLER") ∷ (3, "BFISH") ∷ (0x19, "CYCLONUS") ∷ []

-- The name of the card on a platform and in status0, and the text before the number of a card without one.
unfoldable pub card_at : ℕ → ℕ → Option (List ℕ)
card_at platform id =
    if platform == fixed
    then name_at id fixed_cards
    else (if platform == distributed
        then name_at id distributed_cards
        else (if platform == central then name_at id central_cards else none))

abbrev pub card_of : ℕ → Option (List ℕ)
card_of word = card_at (get platform_id word) (get fpga_id word)

unfoldable pub unknown_of : ℕ → List ℕ
unknown_of word =
    let platform : ℕ = get platform_id word in
    if platform == fixed
    then codes "RP:Fixed ["
    else (if platform == distributed
        then codes "[distributed:"
        else (if platform == central then codes "[centralized:" else codes "[unknown:"))

module _ (decimal : ℕ → List ℕ) where
  -- `platform_type_show` and `card_type_show`: the texts that they print, which a page has room for.
  unfoldable pub platform_type_show : Option ℕ → M (List ℕ)
  platform_type_show none = fail enxio
  platform_type_show (some map) = do
    word ← regmap_read map status0
    let v : ℕ = get platform_id word
    pure (elim (name_at v platform_types) [
      | some s ↦ s ++ (10 ∷ [])
      | none ↦ decimal v ++ (codes ": unknown" ++ (10 ∷ []))
    ])

  unfoldable pub card_type_show : Option ℕ → M (List ℕ)
  card_type_show none = fail enxio
  card_type_show (some map) = do
    word ← regmap_read map status0
    pure (elim (card_of word) [
      | some card ↦ card ++ (10 ∷ [])
      | none ↦ unknown_of word ++ (decimal (get fpga_id word) ++ (codes ":unknown]" ++ (10 ∷ [])))
    ])
