-- ===== src/Mfd/Scan.antt =====
-- The scan of an FPGA's register blocks: `_blkread`, `_init_metadata`, `_setup_max_irqs`,
-- `cisco_fpga_mfd_cells` and `cisco_fpga_mfd_init`. Messages and the sizes of allocations are left out.
use cisco_8000_kernel_module.Common.{
  ltb, leb, ◌==◌, if◌then◌else◌, length, get_elem?, get_or, ℕ, zero, suc, ◌+◌, ◌-◌, ◌*◌, ◌/◌, ◌%◌,
  ◌^◌, Bool, false, not, ◌&&◌, ◌||◌, Option, none, some, List, [], ◌∷◌, map,
}
use cisco_8000_kernel_module.Env.{
  Result, M, pure, fail, lift, ◌>>=◌, regmap_read, enxio, enomem, enodev, einval, ok, err,
}
use cisco_8000_kernel_module.Reg.{Field, field, get}
use cisco_8000_kernel_module.Mfd.Blocks.{Blk, irq_blk, blk_match}
use cisco_8000_kernel_module.Mfd.Cells.{
  platform_devid_auto, ParentProps, default_id, init_children, Cell, Meta, same_text, bug,
  fwnode_config,
}

abbrev pub cisco_fpga_magic : ℕ
cisco_fpga_magic = 0xc15c0595

abbrev pub max_irqs_lt_v8 : ℕ
max_irqs_lt_v8 = 10

abbrev pub max_irqs_v8 : ℕ
max_irqs_v8 = 12

-- The words of `struct blkhdr` and `struct info_rom`: a header is five words, the information block
-- has seventeen before its table, whose 256 offsets of 16 bits are 128 words.
abbrev pub hdr_maj : Field
hdr_maj = field 5 0

abbrev pub hdr_id : Field
hdr_id = field 13 6

abbrev pub word_at : List ℕ → ℕ → ℕ
word_at words i = get_or words i 0

abbrev pub magic_of : List ℕ → ℕ
magic_of words = word_at words 4

abbrev pub num_blocks_of : List ℕ → ℕ
num_blocks_of words = word_at words 16

abbrev pub hdr_bytes : ℕ
hdr_bytes = 20

abbrev pub info_bytes : ℕ
info_bytes = 68

abbrev pub offsets_bytes : ℕ
offsets_bytes = 512

unfoldable pub halves : List ℕ → List ℕ
halves [] = []
halves (w ∷ ws) = w % 2 ^ 16 ∷ w / 2 ^ 16 ∷ halves ws

-- The loop of `_blkread`, and `_blkread`.
unfoldable pub blkread_words : ℕ → ℕ → ℕ → M (List ℕ)
blkread_words zero map reg = pure []
blkread_words (suc n) map reg = do
  w ← regmap_read map reg
  ws ← blkread_words n map (reg + 4)
  pure (w ∷ ws)

unfoldable pub blkread : ℕ → ℕ → ℕ → M (List ℕ)
blkread map reg len = if len % 4 == 0 then blkread_words (len / 4) map reg else fail einval

-- `_init_metadata` on the number of blocks; `++ncells` is on a u32.
unfoldable pub init_metadata : ℕ → Bool → Option ParentProps → Result Meta
init_metadata num_blocks allocated firmware =
    let ncells = (num_blocks + 1) % 2 ^ 32 in
    if not allocated
    then err enomem
    else (if leb 256 ncells
        then err einval
        else ok (record {
          max_cells = ncells;
          max_irqs = 0;
          block_offset = [];
          children = elim firmware [
            | none ↦ []
            | some p ↦ init_children (default_id p) p.suffix p.children
          ];
          intr = none;
          cells = [];
        }))

-- `absoff + (meta->block_offset[i] << 8)` on a u32.
unfoldable pub next_offset : Meta → ℕ → ℕ → M ℕ
next_offset meta i absoff = elim (get_elem? meta.block_offset i) [
  | some o ↦ pure ((absoff + o * 2 ^ 8) % 2 ^ 32)
  | none ↦ fail bug
]

-- The loop of `_setup_max_irqs`: the number of interrupts. The test of the magic number in it looks at
-- the information block's, which has been found right.
unfoldable pub max_irqs_from : ℕ → ℕ → ℕ → ℕ → Meta → List ℕ → M ℕ
max_irqs_from zero map i nxtoff meta info = pure 0
max_irqs_from (suc n) map i nxtoff meta info = do
  nxtoff' ← next_offset meta i nxtoff
  hdr ← blkread map nxtoff hdr_bytes
  if not (magic_of info == cisco_fpga_magic)
      then fail enodev
      else (if get hdr_id (word_at hdr 0) == 255
          then pure 0
          else (if get hdr_id (word_at hdr 0) == 38
              then pure
                  (if ltb (get hdr_maj (word_at hdr 0)) 8 then max_irqs_lt_v8 else max_irqs_v8)
              else max_irqs_from n map (suc i) nxtoff' meta info))

-- One round of the loop of `cisco_fpga_mfd_cells` behind the read of the header: none at the tail
-- block, and the state.
unfoldable pub add_block : ℕ → ℕ → List ℕ → ℕ → ℕ → Meta → M (Option Meta)
add_block info_ver filter hdr absoff nxtoff meta =
    let id = get hdr_id (word_at hdr 0) in
    if not (magic_of hdr == cisco_fpga_magic)
    then (if leb 6 info_ver && absoff == 0x20000
        then (fwnode_config meta irq_blk absoff nxtoff 38 >>= λ r. pure (some r.1))
        else pure (some meta))
    else (if id == 255
        then pure none
        else (if id == 38
            then (fwnode_config meta irq_blk absoff nxtoff id >>= λ r. pure (some r.1))
            else (let b = blk_match id filter in
                elim b.name [
                  | none ↦ pure (some meta)
                  | some _ ↦ fwnode_config meta b absoff nxtoff id >>= λ r. pure (some r.1)
                ])))

-- The loop over the blocks.
unfoldable pub add_blocks : ℕ → ℕ → ℕ → ℕ → ℕ → ℕ → Meta → M Meta
add_blocks zero map info_ver filter i absoff meta = pure meta
add_blocks (suc n) map info_ver filter i absoff meta = do
  nxtoff ← next_offset meta i absoff
  hdr ← blkread map absoff hdr_bytes
  r ← add_block info_ver filter hdr absoff nxtoff meta
  elim r [ none ↦ pure meta | some meta' ↦ add_blocks n map info_ver filter (suc i) nxtoff meta' ]

-- `!strcmp` on the names of two cells.
abbrev pub same_name : Cell → Cell → Bool
same_name c d = elim c.name [
  | none ↦ false
  | some a ↦ elim d.name [ none ↦ false | some b ↦ same_text a b ]
]

abbrev pub duplicates : Cell → Cell → Bool
duplicates c d = same_name c d && c.id == d.id

abbrev pub automatic : Cell → Cell
automatic c = record c { id = platform_devid_auto }

-- The inner loop over the cells behind `c`, and whether it has found a duplicate.
unfoldable pub mark : Cell → List Cell → List Cell
mark c [] = []
mark c (d ∷ ds) = (if duplicates c d then automatic d else d) ∷ mark c ds

unfoldable pub any_duplicate : Cell → List Cell → Bool
any_duplicate c [] = false
any_duplicate c (d ∷ ds) = duplicates c d || any_duplicate c ds

-- A round of the outer loop: the cell, and those behind it.
abbrev pub settled : Cell → List Cell → Cell
settled c cs = if not (c.id == platform_devid_auto) && any_duplicate c cs then automatic c else c

abbrev pub behind : Cell → List Cell → List Cell
behind c cs = if c.id == platform_devid_auto then cs else mark c cs

-- The outer loop, for as many rounds as there are cells.
unfoldable pub separate : ℕ → List Cell → List Cell
separate zero cs = cs
separate (suc n) [] = []
separate (suc n) (c ∷ cs) = settled c cs ∷ separate n (behind c cs)

-- The table of offsets: from the block, or presumed.
unfoldable pub read_offsets : ℕ → ℕ → M (List ℕ)
read_offsets map info_ver =
    if leb 6 info_ver
    then (blkread map info_bytes offsets_bytes >>= λ ws. pure (halves ws))
    else pure (map_offsets 255)
  where
    map_offsets : ℕ → List ℕ
    map_offsets zero = []
    map_offsets (suc n) = 0x10 ∷ map_offsets n

-- `cisco_fpga_mfd_cells` from the information block's own cell on.
unfoldable pub scan_blocks : ℕ → ℕ → ℕ → ℕ → Blk → Meta → M Meta
scan_blocks map info_ver n filter b meta = do
  nxtoff ← next_offset meta 0 0
  (_, meta1) ← fwnode_config meta b 0 nxtoff b.id
  meta2 ← add_blocks (n - 1) map info_ver filter 1 nxtoff meta1
  pure (record meta2 { cells = separate (length meta2.cells) meta2.cells })

-- `cisco_fpga_mfd_cells`.
unfoldable pub mfd_cells : ℕ → Bool → Option ParentProps → ℕ → M Meta
mfd_cells map allocated firmware filter = do
  info ← blkread map 0 info_bytes
  if not (magic_of info == cisco_fpga_magic) then fail enodev else (do
    let info_ver : ℕ = get hdr_maj (word_at info 0)
    let n : ℕ = if ltb info_ver 6 then 255 else num_blocks_of info
    meta0 ← lift (init_metadata n allocated firmware)
    offsets ← read_offsets map info_ver
    let b : Blk = blk_match (get hdr_id (word_at info 0)) filter
    if not (b.id == 35) then fail enxio else (do
      let meta1 : Meta = record meta0 { block_offset = offsets }
      irqs ← max_irqs_from n map 0 0 meta1 info
      scan_blocks map info_ver n filter b (record meta1 { max_irqs = irqs })))

-- `cisco_fpga_mfd_init`: whether the device has a parent, whether that has private data, its magic
-- pointer is the right one, and the parent's function.
unfoldable pub mfd_init : Bool → Option (Bool × Option (M (Unit {0}))) → M (Unit {0})
mfd_init parent mfd = if not parent then fail enodev else elim mfd [
  | none ↦ fail enodev
  | some p ↦ if not (p.0) then fail enodev else elim p.1 [ none ↦ fail enodev | some init ↦ init ]
]
