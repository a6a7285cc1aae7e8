-- ===== src/Xil/Config.antt =====
-- The settings of the XIL block in drivers/cisco/cisco-fpga-xil.c, and its probe up to the reboot
-- notifier. What `sscanf` reads from a text is a parameter.
use cisco_8000_kernel_module.Common.{
  ltb, leb, ◌==◌, if◌then◌else◌, length, get_or, drop, ℕ, suc, ◌-◌, bit_and, Bool, not, ◌||◌,
  Option, none, some, List, [], ◌∷◌, map,
}
use cisco_8000_kernel_module.Env.{
  Result, Done, M, pure, fail, ◌>>=◌, ◌>>◌, attempt, regmap_read, regmap_write, regmap_update_bits,
  enxio, einval, ok,
}
use cisco_8000_kernel_module.Text.{same_start}
use cisco_8000_kernel_module.Reg.{bit, Field, reg_mask_lo, get, put}
use cisco_8000_kernel_module.Xil.Regs.{
  cfg1, cfg5, status1, scratchram, board_ver, board_type, gen_conf_outshifts, gen_conf_console,
  master_select,
}
use cisco_8000_kernel_module.Xil.Boards.{Layout, sysfs_init}

-- `REG_UPDATE_BITS`.
unfoldable pub reg_update_bits : ℕ → ℕ → Field → ℕ → M (Unit {0})
reg_update_bits map reg f d = regmap_update_bits map reg (reg_mask_lo f.hi f.lo) (put f d)

-- `outshifts_enable_show` and `outshifts_enable_store`.
unfoldable pub outshifts_show : Option ℕ → M ℕ
outshifts_show none = fail enxio
outshifts_show (some map) = do
  word ← regmap_read map cfg1
  pure (if get gen_conf_outshifts word == 1 then 1 else 0)

unfoldable pub outshifts_store : Option ℕ → Option (ℕ × ℕ) → ℕ → M ℕ
outshifts_store none scan buflen = fail enxio
outshifts_store (some map) none buflen = fail einval
outshifts_store (some map) (some (v, consumed)) buflen =
    if consumed == buflen
    then (if leb v 1
        then reg_update_bits map cfg1 gen_conf_outshifts v >> pure consumed
        else fail einval)
    else fail einval

-- `_console_source`.
abbrev pub text_jumper : List ℕ
text_jumper = 106 ∷ 117 ∷ 109 ∷ 112 ∷ 101 ∷ 114 ∷ []

abbrev pub text_uxbar : List ℕ
text_uxbar = 117 ∷ 120 ∷ 98 ∷ 97 ∷ 114 ∷ []

abbrev pub console_sources : List (List ℕ)
console_sources = text_jumper ∷ text_uxbar ∷ []

-- `console_source_show`: the index that it names.
unfoldable pub console_show : Option ℕ → M ℕ
console_show none = fail enxio
console_show (some map) = do word ← regmap_read map cfg1; pure (get gen_conf_console word)

module _ (is_space : ℕ → Bool) where
  -- `_byp`.
  unfoldable pub bypass : List ℕ → List ℕ
  bypass [] = []
  bypass (c ∷ cs) = let rest = bypass cs in if is_space c then rest else c ∷ cs

  -- The loop over the names from index `i` on, on the text after white space, which ends at a NUL:
  -- the index that is written, and how much of the buffer is left there.
  unfoldable pub console_from : ℕ → List ℕ → ℕ → List (List ℕ) → Option (ℕ × ℕ)
  console_from buflen buf i [] = none
  console_from buflen buf i (name ∷ names) =
      let rest : Option (ℕ × ℕ) = console_from buflen buf (suc i) names in
      let after : List ℕ = bypass (drop (length name) buf) in
      if ltb buflen (length name) || not (same_start (length name) buf name)
      then rest
      else (if get_or after 0 0 == 0 then some (i, length after) else none)

  -- `console_source_store`.
  unfoldable pub console_store : Option ℕ → List ℕ → M ℕ
  console_store none buf = fail enxio
  console_store (some map) buf = elim (console_from (length buf) (bypass buf) 0 console_sources) [
    | none ↦ fail einval
    | some i ↦ reg_update_bits map cfg1 gen_conf_console i.0 >> pure (length buf - i.1)
  ]

-- `board_type_show`: the board's type and version.
unfoldable pub board_type_show : Option ℕ → M (ℕ × ℕ)
board_type_show none = fail enxio
board_type_show (some map) = do
  word ← regmap_read map status1
  pure (get board_type word, get board_ver word)

-- DRIVER_DATA_ACTIVE and DRIVER_DATA_OVERRIDE.
abbrev pub driver_data_active : ℕ
driver_data_active = 1

abbrev pub driver_data_override : ℕ
driver_data_override = 2

-- The probe's choice of `active`: from the entry of the id table that overrides, the byte that the
-- parent has given, another entry of the table, or 1.
unfoldable pub choose_active : Option ℕ → Option ℕ → ℕ
choose_active id_entry cell = elim id_entry [
  | some d ↦
      if not (bit_and d driver_data_override == 0)
      then bit_and d driver_data_active
      else (elim cell [ some b ↦ b | none ↦ bit_and d driver_data_active ])
  | none ↦ elim cell [ some b ↦ b | none ↦ 1 ]
]

-- `_xil_probe` after `cisco_fpga_msd_xil_mfd_init`; `notifier` is the registration of the reboot
-- notifier.
unfoldable pub xil_probe :
    Option ℕ → Option ℕ → Option ℕ → Result ℕ → Done → M (Unit {0}) → M Layout
xil_probe none id_entry cell property added notifier = fail enxio
xil_probe (some map) id_entry cell property added notifier = do
  let active : Bool = not (choose_active id_entry cell == 0)
  _ ← (if active then attempt (regmap_update_bits map cfg1 (bit 8) (bit 8)) else pure (ok tt))
  layout ← sysfs_init map active property added
  (if active
      then (attempt (regmap_write map scratchram 0) >>= λ _.
          attempt (reg_update_bits map cfg5 master_select 0) >>= λ _. notifier)
      else pure tt)
  pure layout
