-- ===== src/Gpio/Scan.antt =====
-- The table of pins in drivers/cisco/cisco-fpga-gpio-init.c: which entries the hardware has, in which
-- order the table keeps them, and how a pin is found. A pin's name and the count of its references
-- are only printed.
use mathlib.Core.List.{Memᴰ}
use cisco_8000_kernel_module.Common.{
  leb, ◌==◌, if◌then◌else◌, ℕ, zero, suc, ◌+◌, ◌-◌, ◌%◌, ◌^◌, ◌≡◌, Bool, not, ◌||◌, Option, some,
  List, [], ◌∷◌, ◌++◌, map,
}
use cisco_8000_kernel_module.Env.{M, pure, ◌>>=◌, regmap_read}
use cisco_8000_kernel_module.Reg.{get}
use cisco_8000_kernel_module.Gpio.Regs.{
  mem0, mem_is_group, mem_group_id, mem_group_pin_count, mem_pin_id, max_gpios,
}

abbrev pub sim_uninitialized : ℕ
sim_uninitialized = 0xa5a5a5a5

-- enum gpio_io_mem_pin_id_e.
abbrev pub pin_no_group : ℕ
pin_no_group = 0

abbrev pub pin_unsupported : ℕ
pin_unsupported = 0x7fffff

-- `struct k_element_t`.
pub record Element : Type 0 where
  pub group_id : ℕ
  pub pin_id : ℕ
  pub offset : ℕ

-- `_k_cmp`: the difference as the 32 bits of an `int`; from 2 ^ 31 on it is negative.
unfoldable pub k_cmp : ℕ → ℕ → ℕ
k_cmp key elt = (key + 2 ^ 32 - elt) % 2 ^ 32

abbrev pub negative : ℕ → Bool
negative d = leb (2 ^ 31) d

-- The variables of the scan.
pub record Found : Type 0 where
  pub group : ℕ
  pub pins : ℕ
  pub table : List Element

-- What entry `e` with the word `v` adds to the table: its offset, and the pin with its instance.
abbrev pub entry_at : Found → ℕ → ℕ → Found
entry_at f e v = record {
  group = f.group;
  pins = f.pins - 1;
  table = f.table ++ (record { group_id = f.group; pin_id = v; offset = e } ∷ []);
}

-- One round of the scan, once the word has been read.
unfoldable pub scan_word : ℕ → ℕ → Found → Found
scan_word e v f =
    let pin : ℕ = get mem_pin_id v in
    if v == sim_uninitialized
    then f
    else (if not (get mem_is_group v == 0)
        then record f { group = get mem_group_id v; pins = get mem_group_pin_count v }
        else (if f.pins == 0
            then (if pin == 0 || pin == pin_unsupported
                then f
                else entry_at (record f { pins = 1 }) e v)
            else (if pin == pin_unsupported || pin == pin_no_group
                then record f { pins = f.pins - 1 }
                else entry_at f e v)))

-- The scan from entry `e` on, with `left` entries to go.
unfoldable pub scan_from : ℕ → ℕ → ℕ → Found → M Found
scan_from map zero e f = pure f
scan_from map (suc left) e f = do
  v ← regmap_read map (mem0 e)
  scan_from map left (suc e) (scan_word e v f)

unfoldable pub scan_pins : ℕ → M (List Element)
scan_pins map = do
  f ← scan_from map max_gpios 0 (record { group = 0; pins = 0; table = [] })
  pure f.table

-- `sort` and `bsearch` of the kernel.
pub record PinSearch : Type 0 where
  pub sort : List Element → List Element
  pub bsearch : ℕ → List Element → Option Element

-- What the driver relies on: sorting brings in no element, and what is found is an element of the
-- table that compares equal to the key.
pub record Searches (s : PinSearch) : Type 0 where
  pub sorted : (t : List Element) (e : Element) → Memᴰ e (s.sort t) → Memᴰ e t
  pub found :
      (key : ℕ) (t : List Element) (e : Element)
      → s.bsearch key t ≡ some e
      → Memᴰ e t × (k_cmp key e.pin_id ≡ 0)
