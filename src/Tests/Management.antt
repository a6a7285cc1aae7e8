-- ===== src/Tests/Management.antt =====
-- The MSD block, the information block and the ACPI lookup at concrete inputs.
use cisco_8000_kernel_module.Common.{
  ◌==◌, if◌then◌else◌, take, ℕ, suc, ◌+◌, ◌≡◌, refl, true, ◌||◌, Option, none, some, List, [], ◌∷◌,
  arith,
}
use cisco_8000_kernel_module.Env.{read, ok, err}
use cisco_8000_kernel_module.Reg.{reg_mask, reg_get, get}
use cisco_8000_kernel_module.Xil.Regs.{status0, fpga_id}
use cisco_8000_kernel_module.Xil.Scratch.{until_nul, show_str}
use cisco_8000_kernel_module.Msd.Ready.{digit_0, digit_1, newline, fc_ready_store}
use cisco_8000_kernel_module.Msd.Probe.{msd_cfg7, msd_probe}
use cisco_8000_kernel_module.Msd.ReadyLaws.{GivesEight, StoresReady, fc_ready_show-store}
use cisco_8000_kernel_module.Msd.ProbeLaws.{
  plain, rebooted, is_armed, after_probe, Leaves, msd_probe-rebooted,
}
use cisco_8000_kernel_module.Info.Shows.{comment_words, union_bytes, comment_show}
use cisco_8000_kernel_module.Info.Laws.{comment_text, comment_show-show_str}
use cisco_8000_kernel_module.Acpi.Companion.{
  lc_xil, set_companion, for_each_child, select_companion,
}
use cisco_8000_kernel_module.Acpi.CompanionLaws.{Selects, select_companion-Selects}
use cisco_8000_kernel_module.Tests.Machines.{steady, remembering, remembering-Memory}

-- " %c%c%c%c%c%c%c%c %n" on a text without blanks before its eight characters.
abbrev blanks : List ℕ → ℕ
blanks [] = 0
blanks (c ∷ cs) = let n = blanks cs in if c == 32 || c == newline then suc n else 0

abbrev eight_of : List ℕ → Option (List ℕ × ℕ)
eight_of (a ∷ b ∷ c ∷ d ∷ e ∷ f ∷ g ∷ i ∷ cs) =
    some (a ∷ b ∷ c ∷ d ∷ e ∷ f ∷ g ∷ i ∷ [], 8 + blanks cs)
eight_of _ = none

-- "11000001" and a newline.
abbrev eight_digits : List ℕ
eight_digits =
    digit_1 ∷ digit_1 ∷ digit_0 ∷ digit_0 ∷ digit_0 ∷ digit_0 ∷ digit_0 ∷ digit_1 ∷ newline ∷ []

eight_of-GivesEight : GivesEight eight_of
eight_of-GivesEight (a ∷ b ∷ c ∷ d ∷ e ∷ f ∷ g ∷ i ∷ buf) cs n q = ground arith
eight_of-GivesEight _ cs n q = ground arith

fc_ready_example :
    StoresReady
      (λ reg. 0x1f0)
      4
      (remembering (λ reg. 0x1f0) 4)
      9
      (some (take 8 eight_digits))
      []
      (fc_ready_store eight_of (some 4) eight_digits (remembering (λ reg. 0x1f0) 4) [])
fc_ready_example =
    fc_ready_show-store eight_of (λ reg. 0x1f0) 4 eight_digits (remembering (λ reg. 0x1f0) 4) []
      (remembering-Memory (λ reg. 0x1f0) 4) eight_of-GivesEight

-- Every register holds 7, the version among them; the device matches "msd-rp".
msd_probe_example :
    Leaves
      (λ reg. 7)
      4
      (rebooted (is_armed 7 none (some 1) (err 22)) 1)
      []
      (after_probe 4 1
        (remembering (λ reg. 7) 4)
        (msd_probe 4 (plain none (some 1) (err 22) 22) (remembering (λ reg. 7) 4) []))
msd_probe_example =
    msd_probe-rebooted (λ reg. 7) 4 none (some 1) (err 22) 22 1 (remembering (λ reg. 7) 4) []
      (remembering-Memory (λ reg. 7) 4)

-- The block is active then, and `cfg7` asks for the power cycle.
armed_test : is_armed 7 none (some 1) (err 22) ≡ true
armed_test = refl

cycle_test : rebooted true 1 msd_cfg7 7 ≡ 0x400
cycle_test = refl

-- The word 0x4142 in every register: "BA" and a NUL.
comment_example :
    comment_show (some 2) (steady 0x4142) [] ≡ show_str (some 2) comment_text (steady 0x4142) []
comment_example = comment_show-show_str 2 (steady 0x4142) []

comment_test : (comment_show (some 2) (steady 0x4142) []).0 ≡ ok (0x42 ∷ 0x41 ∷ [])
unfolding comment_show comment_words union_bytes until_nul
comment_test = refl

-- The id of the FPGA is 3, and the fourth child has it as well.
abbrev fpga_children : List (Option ℕ)
fpga_children = some 1 ∷ none ∷ some 3 ∷ some 3 ∷ []

companion_example :
    (let run = select_companion true (some 2) (some fpga_children) (steady 0x300000) [] in
      Selects (get fpga_id 0x300000) fpga_children run.0 × (run.1 ≡ read 2 (lc_xil status0) ∷ []))
companion_example = select_companion-Selects 2 0x300000 fpga_children (steady 0x300000) [] refl

companion_test : (select_companion true (some 2) (some fpga_children) (steady 0x300000) []).0 ≡ ok 2
unfolding select_companion for_each_child set_companion get reg_get reg_mask
companion_test = refl
