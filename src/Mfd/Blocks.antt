-- ===== src/Mfd/Blocks.antt =====
-- The table of register blocks, and the search for the driver of a block.
use cisco_8000_kernel_module.Common.{
  ◌==◌, if◌then◌else◌, set, ℕ, bit_and, Bool, not, ◌&&◌, ◌||◌, Option, none, some, List, [], ◌∷◌,
}
use Prim.Native.String.{String}

-- `struct cisco_fpga_blk`, without the name for the device tree.
pub record Blk : Type 0 where
  pub id : ℕ
  pub name : Option String
  pub num_irqs : ℕ
  pub irq_set : ℕ
  pub filter : ℕ

abbrev pub blk : ℕ → Option String → ℕ → ℕ → ℕ → Blk
blk i n irqs set f = record { id = i; name = n; num_irqs = irqs; irq_set = set; filter = f }

-- `cisco_fpga_blks`, with the bits of CISCO_MFD_CELLS_FILTER_PCI (1), _REGMAP (2) and _PASSIVE_SLOT
-- (4) added up.
unfoldable pub cisco_fpga_blks : List Blk
cisco_fpga_blks =
    blk 7 (some "mdio") 0 0x00 3
    ∷ blk 8 (some "i2c-pex") 0 0x00 2
    ∷ blk 11 (some "spi") 1 0x01 1
    ∷ blk 25 (some "led-ng") 0 0x00 2
    ∷ blk 33 (some "wdt") 1 0x02 1
    ∷ blk 33 (some "wdt") 0 0x00 2
    ∷ blk 34 (some "uxbar") 1 0x04 6
    ∷ blk 35 (some "info") 0 0x00 6
    ∷ blk 37 (some "gpio") 1 0x08 1
    ∷ blk 37 (some "gpio") 0 0x00 2
    ∷ blk 50 (some "poller") 0 0x00 1
    ∷ blk 57 (some "xil") 0 0x00 7
    ∷ blk 59 (some "spi") 1 0x10 1
    ∷ blk 72 (some "i2c-smb") 0 0x00 3
    ∷ blk 80 (some "i2c-ext") 0 0x00 2
    ∷ blk 89 (some "pseq") 0 0x00 7
    ∷ blk 93 (some "p2pm-m") 1 0x20 1
    ∷ blk 94 (some "p2pm-s") 0 0x00 6
    ∷ blk 96 (some "pwm") 0 0x00 2
    ∷ blk 98 (some "bmc-led") 0 0x00 2
    ∷ blk 99 (some "msd") 0 0x00 2
    ∷ blk 104 (some "fs") 0 0x00 7
    ∷ blk 105 (some "rptime") 0 0x00 2
    ∷ blk 111 (some "cspi") 0 0x00 3
    ∷ blk 123 (some "misc-intrs") 0 0 2
    ∷ blk 124 (some "bmc-uart") 0 0x00 2
    ∷ blk 125 (some "lrstr") 0 0x00 6
    ∷ blk 132 (some "led") 0 0x00 1
    ∷ blk 133 (some "i2c-pex-tod") 0 0x00 1
    ∷ blk 138 (some "retimer-dl") 0 0x00 3
    ∷ blk 140 (some "bmc-p2pm-m-lite") 0 0x00 2
    ∷ blk 152 (some "pzctl") 0 0x00 7
    ∷ blk 166 (some "slpc-m") 1 0x40 3
    ∷ blk 167 (some "slpc-s") 0 0 2
    ∷ blk 0 none 0 0x00 4
    ∷ blk 0 (some "cisco-fpga-uio") 0 0x00 1
    ∷ blk 0 (some "cisco-bmc-uio") 0 0x00 2
    ∷ blk 0 (some "cisco-unknown-uio") 0 0x00 0
    ∷ []

abbrev pub irq_blk : Blk
irq_blk = blk 38 (some "intr") 0 0 0

abbrev pub passes : Blk → ℕ → Bool
passes b filter = not (bit_and b.filter filter == 0)

-- The first loop of `cisco_fpga_blk_match` returns an entry, or stops at the first one without an id.
pub data Search : Type 0 where
  found : Blk → Search
  ended : List Blk → Search

unfoldable pub find_id : ℕ → ℕ → List Blk → Search
find_id id filter [] = ended []
find_id id filter (b ∷ bs) =
    let rest = find_id id filter bs in
    if b.id == 0 then ended (b ∷ bs) else (if b.id == id && passes b filter then found b else rest)

-- The second loop stops at the first entry that passes the filter or has none; the table ends with one
-- that has none.
unfoldable pub find_filter : ℕ → List Blk → Blk
find_filter filter [] = blk 0 none 0 0 0
find_filter filter (b ∷ bs) =
    let rest = find_filter filter bs in if b.filter == 0 || passes b filter then b else rest

unfoldable pub blk_match : ℕ → ℕ → Blk
blk_match id filter = elim (find_id id filter cisco_fpga_blks) [
  | found b ↦ b
  | ended bs ↦ record (find_filter filter bs) { id = id }
]
