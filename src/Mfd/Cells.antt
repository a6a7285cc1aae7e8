-- ===== src/Mfd/Cells.antt =====
-- What the firmware says of the children, and the cell of one block.
use cisco_8000_kernel_module.Common.{
  ltb, leb, ◌==◌, if◌then◌else◌, length, set, ℕ, zero, suc, ◌+◌, ◌-◌, ◌/◌, ◌%◌, ◌^◌, Bool, true,
  false, not, ◌||◌, Option, none, some, List, [], ◌∷◌,
}
use Prim.Native.Nat.{lt, eq, gt}
use Prim.Native.String.{String, ◌++◌, compare, find, len, slice}
use cisco_8000_kernel_module.Env.{M, pure, fail}
use cisco_8000_kernel_module.Mfd.Blocks.{Blk}

-- PLATFORM_DEVID_AUTO (-2) and PLATFORM_DEVID_NONE (-1), and PLATFORM_NAME_SIZE.
abbrev pub platform_devid_auto : ℕ
platform_devid_auto = 2 ^ 32 - 2

abbrev pub platform_devid_none : ℕ
platform_devid_none = 2 ^ 32 - 1

abbrev platform_name_size : ℕ
platform_name_size = 20

-- `struct child_metadata`.
pub record Child : Type 0 where
  pub adr : ℕ
  pub id : ℕ
  pub name : Option String
  pub name_suffix : Option String
  pub ignore_cell : Bool
  pub block_id : Option ℕ

-- The properties of a child and of its parent, as far as they can be read.
pub record ChildProps : Type 0 where
  pub adr : Option ℕ
  pub devid : Option ℕ
  pub devid_none : Option ℕ
  pub devid_auto : Option ℕ
  pub device_name : Option String
  pub ignore_cell : Option ℕ
  pub block_id : Option ℕ

pub record ParentProps : Type 0 where
  pub devid : Option ℕ
  pub devid_none : Option ℕ
  pub suffix : Option String
  pub children : List ChildProps

-- A property that can be read and is not 0.
abbrev is_on : Option ℕ → Bool
is_on none = false
is_on (some v) = not (v == 0)

unfoldable pub default_id : ParentProps → ℕ
default_id p = elim p.devid [
  | some v ↦ v
  | none ↦ if is_on p.devid_none then platform_devid_none else platform_devid_auto
]

abbrev child_id : ℕ → ChildProps → ℕ
child_id default p = elim p.devid [
  | some v ↦ v
  | none ↦
      if is_on p.devid_none
      then platform_devid_none
      else (if is_on p.devid_auto then platform_devid_auto else default)
]

abbrev pub byte_id : Option ℕ → Option ℕ
byte_id none = none
byte_id (some v) = if ltb v 256 then some v else none

-- The loop over the children in `_init_metadata`: those without an address are left out.
unfoldable pub init_children : ℕ → Option String → List ChildProps → List Child
init_children default suffix [] = []
init_children default suffix (p ∷ ps) =
    let rest = init_children default suffix ps in
    elim p.adr [
      | none ↦ rest
      | some a ↦
          record {
            adr = a;
            id = child_id default p;
            name = p.device_name;
            name_suffix = elim p.device_name [ some _ ↦ none | none ↦ suffix ];
            ignore_cell = is_on p.ignore_cell;
            block_id = byte_id p.block_id;
          }
          ∷ rest
    ]

-- The fields of a cell that a block decides, with its interrupts.
pub record Cell : Type 0 where
  pub name : Option String
  pub id : ℕ
  pub start : ℕ
  pub end : ℕ
  pub irqs : List ℕ

-- `struct cell_metadata`; `intr` is the resource of the interrupt block, and the cells are in the
-- order in which they were added.
pub record Meta : Type 0 where
  pub max_cells : ℕ
  pub max_irqs : ℕ
  pub block_offset : List ℕ
  pub children : List Child
  pub intr : Option (ℕ × ℕ)
  pub cells : List Cell

-- `ffs`, less one, on the 8 bits of an `irq_set`: the number of the lowest bit.
abbrev pub lowest : ℕ → ℕ → Option ℕ
lowest zero set = none
lowest (suc k) set =
    let rest = lowest k (set / 2) in
    if set % 2 == 1 then some 0 else elim rest [ none ↦ none | some i ↦ some (suc i) ]

-- The loop over the interrupts of a block.
unfoldable pub add_irqs : ℕ → ℕ → ℕ → List ℕ
add_irqs zero max_irqs set = []
add_irqs (suc n) max_irqs set = elim (lowest 8 set) [
  | none ↦ []
  | some hwirq ↦
      let rest = add_irqs n max_irqs (set - 2 ^ hwirq) in
      if leb max_irqs hwirq then [] else hwirq ∷ rest
]

-- `!strcmp(a, b)`, and the test for a name with "-uio" in it.
abbrev pub same_text : String → String → Bool
same_text a b = elim (compare a b) [ lt ↦ false | eq ↦ true | gt ↦ false ]

abbrev pub is_uio : Blk → Bool
is_uio b = elim b.name [ none ↦ false | some n ↦ leb (find n "-uio") (len n) ]

-- The name with its suffix, cut to the size of the buffer.
abbrev pub suffixed : Option String → String → Option String
suffixed none s = none
suffixed (some n) s = some (slice (n ++ s) 0 (platform_name_size - 1))

-- The loop over the children in `_fwnode_config`: none if the block is to be ignored, and the name and
-- the id of its cell.
unfoldable pub configure : Blk → ℕ → ℕ → List Child → Option (Option String × ℕ)
configure b absoff blk_id [] = some (b.name, platform_devid_auto)
configure b absoff blk_id (c ∷ cs) =
    let rest = configure b absoff blk_id cs in
    if absoff == c.adr
    then (if c.ignore_cell
        then none
        else (if elim c.block_id [ none ↦ false | some i ↦ not (i == blk_id) ]
            then none
            else some (elim c.name [
              | some n ↦ (some n, c.id)
              | none ↦ (elim c.name_suffix [ none ↦ b.name | some s ↦ suffixed b.name s ], c.id)
            ])))
    else rest

-- The end of a resource, `nxtoff - 1` on 64 bits.
abbrev pub last_of : ℕ → ℕ
last_of nxtoff = (nxtoff + 2 ^ 64 - 1) % 2 ^ 64

-- The cell of a block that is not an interrupt block.
unfoldable pub cell_of : Meta → Blk → ℕ → ℕ → ℕ → Option Cell
cell_of meta b absoff nxtoff blk_id = elim (configure b absoff blk_id meta.children) [
  | none ↦ none
  | some p ↦ some (record {
    name = p.0;
    id = if b.id == 0 || is_uio b then platform_devid_auto else p.1;
    start = absoff;
    end = last_of nxtoff;
    irqs = add_irqs b.num_irqs meta.max_irqs b.irq_set;
  })
]

-- A cell behind the others.
abbrev pub append : List Cell → Cell → List Cell
append [] c = c ∷ []
append (d ∷ ds) c = d ∷ append ds c

-- The mark of BUG_ON, and of a read beyond the table of offsets: no status lies beyond MAX_ERRNO.
abbrev pub bug : ℕ
bug = 4096

-- `_fwnode_config`: whether the block is ignored, and the state after it.
unfoldable pub fwnode_config : Meta → Blk → ℕ → ℕ → ℕ → M (Bool × Meta)
fwnode_config meta b absoff nxtoff blk_id =
    if leb meta.max_cells (length meta.cells)
    then pure (true, meta)
    else (if b.id == 38
        then elim meta.intr [
          | some _ ↦ fail bug
          | none ↦ pure (false, record meta { intr = some (absoff, last_of nxtoff) })
        ]
        else elim (cell_of meta b absoff nxtoff blk_id) [
          | none ↦ pure (true, meta)
          | some c ↦ pure (false, record meta { cells = append meta.cells c })
        ])
