-- ===== src/Acpi/Companion.antt =====
-- `cisco_fpga_select_new_acpi_companion` of drivers/cisco/cisco-acpi.c. A child of the parent's node is
-- what evaluating its "_ADR" gives, if that succeeds; a child that is chosen is its number.
use cisco_8000_kernel_module.Common.{
  ◌==◌, if◌then◌else◌, ℕ, suc, ◌+◌, Bool, true, false, Option, none, some, List, [], ◌∷◌, map,
}
use cisco_8000_kernel_module.Env.{M, pure, fail, ◌>>=◌, regmap_read, enodev, einval}
use cisco_8000_kernel_module.Reg.{get}
use cisco_8000_kernel_module.Xil.Regs.{status0, fpga_id}

-- `LC_XIL`.
abbrev pub lc_xil : ℕ → ℕ
lc_xil f = 0x1000 + f

-- Whether `_set_companion` sets the companion to this child, and ends the walk.
unfoldable pub set_companion : ℕ → Option ℕ → Bool
set_companion id none = false
set_companion id (some adr) = adr == id

-- `acpi_dev_for_each_child` with this callback, from the child `i` on.
unfoldable pub for_each_child : ℕ → ℕ → List (Option ℕ) → Option ℕ
for_each_child id i [] = none
for_each_child id i (child ∷ children) =
    let rest = for_each_child id (suc i) children in if set_companion id child then some i else rest

-- `cisco_fpga_select_new_acpi_companion`: whether there is a device, its regmap, and the children of its
-- ACPI node.
unfoldable pub select_companion : Bool → Option ℕ → Option (List (Option ℕ)) → M ℕ
select_companion false r parent = fail einval
select_companion true none parent = fail einval
select_companion true (some map) none = fail enodev
select_companion true (some map) (some children) = do
  v ← regmap_read map (lc_xil status0)
  elim (for_each_child (get fpga_id v) 0 children) [ none ↦ fail enodev | some i ↦ pure i ]
