-- ===== src/Tests/Memory.antt =====
-- The scratch memory of the MSD and the XIL block.
use cisco_8000_kernel_module.Common.{
  ◌++◌, ◌==◌, ℕ, ◌≡◌, refl, true, some, none, List, [], ◌∷◌, arith,
}
use cisco_8000_kernel_module.Env.{ok}
use cisco_8000_kernel_module.Text.{index_of}
use cisco_8000_kernel_module.Xil.Scratch.{
  ScratchAttr, VersionScan, cut_line, strncpy, show_str, store_str,
}
use cisco_8000_kernel_module.Xil.Tables.{
  chassis_pid, chassis_serial_number, Input, show_slot, store_slot,
}
use cisco_8000_kernel_module.Xil.TableLaws.{show_slot-store_slot_ne}
use cisco_8000_kernel_module.Xil.TextLaws.{StoresText, show_str-store_str}
use cisco_8000_kernel_module.Tests.Machines.{refusing, remembering, remembering-Memory}

abbrev serial : ScratchAttr
serial = record { reg_offset = 0x40; len = 8; names = none }

-- "ABCDEF" and a newline.
abbrev line : List ℕ
line = 65 ∷ 66 ∷ 67 ∷ 68 ∷ 69 ∷ 70 ∷ 10 ∷ []

-- The first word is refused, and the store still reports its seven bytes.
stored_line : (store_str (some 2) serial true line (refusing 0x40 0) []).0 ≡ ok 7
unfolding store_str cut_line index_of strncpy
stored_line = refl

-- What `sscanf` reads from "3.1".
abbrev three_one : VersionScan
three_one = record { both = some (3, 1, 4); major = some (3, 1) }

-- "ABCDE" and a newline, in two words.
abbrev five : List ℕ
five = 65 ∷ 66 ∷ 67 ∷ 68 ∷ 69 ∷ []

show_str-store_str_example :
    StoresText 6 five
      (store_str (some 2) serial true (five ++ 10 ∷ []) (remembering (λ reg. 9) 2) [])
      (λ h1. (show_str (some 2) serial (remembering (λ reg. 9) 2) h1).0)
show_str-store_str_example =
    show_str-store_str (λ reg. 9) 2 serial five (remembering (λ reg. 9) 2) []
      (remembering-Memory (λ reg. 9) 2) (omega arith) (omega arith) (omega arith)

abbrev serial_input : Input
serial_input = record { buf = line; number = none; versions = three_one; allocated = true }

-- A store of the serial number leaves the product id.
show_slot-store_slot_example :
    (show_slot
      (some 2)
      chassis_pid
      (remembering (λ reg. 9) 2)
      (store_slot
        (λ c. c == 32)
        (some 2)
        chassis_serial_number
        serial_input
        (remembering (λ reg. 9) 2)
        []).1).0
    ≡ (show_slot (some 2) chassis_pid (remembering (λ reg. 9) 2) []).0
show_slot-store_slot_example =
    show_slot-store_slot_ne (λ reg. 9) 2 (remembering (λ reg. 9) 2) (λ c. c == 32) 10 9
      chassis_serial_number chassis_pid serial_input [] (remembering-Memory (λ reg. 9) 2) refl refl
      (omega arith)
