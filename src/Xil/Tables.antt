-- ===== src/Xil/Tables.antt =====
-- The attributes over the scratch memory in drivers/cisco/msd_xil_sysfs.c, laid out by
-- `struct xil_msd_scratchram_t` of drivers/cisco/xil.h, and the handlers of each.

use cisco_8000_kernel_module.Common.{
  length, ℕ, ◌+◌, ◌⊎◌, Bool, Option, none, some, List, [], ◌∷◌, ◌++◌, map,
}
use cisco_8000_kernel_module.Env.{M, pure, fail, ◌>>=◌, enxio}
use cisco_8000_kernel_module.Text.{codes}
use cisco_8000_kernel_module.Xil.Regs.{scratchram}
use cisco_8000_kernel_module.Xil.Scratch.{
  ScratchAttr, store_bit, store_scratch, show_scratch, show_hw_ver, VersionScan, store_hw_ver,
  show_str, store_str,
}

abbrev pub cfg7 : ℕ
cfg7 = 0x3c

-- `SCRATCH_F`, of the offset in `struct xil_msd_scratchram_t`.
abbrev pub scratch_f : ℕ → ℕ
scratch_f offset = scratchram + offset

-- The pairs of handlers: `_scratch_show_bit` with `_scratch_store_bit`, and so on.
pub data Handlers : Type 0 where
  by_bit : Handlers
  by_word : Handlers
  by_hw_ver : Handlers
  by_str : Handlers

-- An attribute and its handlers.
pub record Slot : Type 0 where
  pub attr : ScratchAttr
  pub handlers : Handlers

abbrev pub slot : Handlers → ℕ → ℕ → Option (List (Option (List ℕ))) → Slot
slot k reg len names = record {
  attr = record { reg_offset = reg; len = len; names = names };
  handlers = k;
}

-- `_control` and `_boot_mode`.
unfoldable pub control_names : List (Option (List ℕ))
control_names =
    none
    ∷ none
    ∷ none
    ∷ some (codes "power-off")
    ∷ none
    ∷ some (codes "power-on")
    ∷ some (codes "cold-reset")
    ∷ none
    ∷ none
    ∷ some (codes "warm-reset")
    ∷ some (codes "power-cycle")
    ∷ []

unfoldable pub boot_modes : List (Option (List ℕ))
boot_modes =
    some (codes "default") ∷ some (codes "SSD") ∷ some (codes "USB") ∷ some (codes "IPXE") ∷ []

abbrev pub control : Slot
control = slot by_bit cfg7 11 (some control_names)

abbrev pub bios_boot_mode : Slot
bios_boot_mode = slot by_word (scratch_f 0) 4 (some boot_modes)

abbrev pub bios_running_version : Slot
bios_running_version = slot by_word (scratch_f 0x34) 0 none

abbrev pub bios_flash_select : Slot
bios_flash_select = slot by_word (scratch_f 0x3d0) 0 none

abbrev pub uboot_running_version : Slot
uboot_running_version = slot by_word (scratch_f 0x38) 0 none

abbrev pub uboot_mac_addr : Slot
uboot_mac_addr = slot by_str (scratch_f 0x3d4) 12 none

abbrev pub chassis_info_valid : Slot
chassis_info_valid = slot by_word (scratch_f 4) 0 none

abbrev pub chassis_pd_type : Slot
chassis_pd_type = slot by_word (scratch_f 8) 0 none

abbrev pub chassis_hw_version : Slot
chassis_hw_version = slot by_hw_ver (scratch_f 0xc) 0 none

abbrev pub chassis_rack_id : Slot
chassis_rack_id = slot by_word (scratch_f 0x30) 0 none

abbrev pub chassis_pid : Slot
chassis_pid = slot by_str (scratch_f 0x10) 20 none

abbrev pub chassis_serial_number : Slot
chassis_serial_number = slot by_str (scratch_f 0x24) 12 none

abbrev pub idprom_info_valid : Slot
idprom_info_valid = slot by_word (scratch_f 0x3a0) 0 none

abbrev pub idprom_pd_type : Slot
idprom_pd_type = slot by_word (scratch_f 0x3a8) 0 none

abbrev pub idprom_hw_version : Slot
idprom_hw_version = slot by_hw_ver (scratch_f 0x3ac) 0 none

abbrev pub idprom_tan_version : Slot
idprom_tan_version = slot by_word (scratch_f 0x3a4) 0 none

abbrev pub idprom_pid : Slot
idprom_pid = slot by_str (scratch_f 0x3b0) 20 none

abbrev pub idprom_serial_number : Slot
idprom_serial_number = slot by_str (scratch_f 0x3c4) 12 none

-- `control` and the attributes of the groups bios, uboot, chassis and idprom, in the groups' order.
abbrev pub bios_attrs : List Slot
bios_attrs = bios_boot_mode ∷ bios_running_version ∷ bios_flash_select ∷ []

abbrev pub uboot_attrs : List Slot
uboot_attrs = uboot_running_version ∷ uboot_mac_addr ∷ []

abbrev pub chassis_attrs : List Slot
chassis_attrs =
    chassis_info_valid ∷ chassis_pd_type ∷ chassis_hw_version ∷ chassis_pid ∷ chassis_serial_number
    ∷ chassis_rack_id ∷ []

abbrev pub idprom_attrs : List Slot
idprom_attrs =
    idprom_info_valid ∷ idprom_pd_type ∷ idprom_hw_version ∷ idprom_tan_version ∷ idprom_pid
    ∷ idprom_serial_number ∷ []

abbrev pub scratch_attrs : List Slot
scratch_attrs = control ∷ (bios_attrs ++ (uboot_attrs ++ (chassis_attrs ++ idprom_attrs)))

-- `_scratch_show_bit`: it prints the names; a page has room for them.
unfoldable pub all_names : List (Option (List ℕ)) → List ℕ
all_names [] = []
all_names (none ∷ names) = all_names names
all_names (some name ∷ names) = name ++ (10 ∷ all_names names)

unfoldable pub show_bit : Option ℕ → ScratchAttr → M (List ℕ)
show_bit none a = fail enxio
show_bit (some map) a = pure (elim a.names [ none ↦ [] | some names ↦ all_names names ])

-- What a handler prints, as the models of the handlers give it.
pub data Printed : Type 0 where
  shown_names : List ℕ → Printed
  shown_value : List ℕ ⊎ ℕ → Printed
  shown_version : ℕ × ℕ → Printed
  shown_text : List ℕ → Printed

-- The input of a store with what `sscanf` reads from it, and the outcome of the allocation.
pub record Input : Type 0 where
  pub buf : List ℕ
  pub number : Option (ℕ × ℕ)
  pub versions : VersionScan
  pub allocated : Bool

unfoldable pub show_slot : Option ℕ → Slot → M Printed
show_slot map e = elim e.handlers [
  | by_bit ↦ show_bit map e.attr >>= λ t. pure (shown_names t)
  | by_word ↦ show_scratch map e.attr >>= λ v. pure (shown_value v)
  | by_hw_ver ↦ show_hw_ver map e.attr >>= λ v. pure (shown_version v)
  | by_str ↦ show_str map e.attr >>= λ t. pure (shown_text t)
]

unfoldable pub store_slot : (ℕ → Bool) → Option ℕ → Slot → Input → M ℕ
store_slot is_space map e i = elim e.handlers [
  | by_bit ↦ store_bit is_space map e.attr i.buf
  | by_word ↦ store_scratch is_space map e.attr i.number i.buf
  | by_hw_ver ↦ store_hw_ver map e.attr i.versions (length i.buf)
  | by_str ↦ store_str map e.attr i.allocated i.buf
]
