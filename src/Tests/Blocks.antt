-- ===== src/Tests/Blocks.antt =====
-- Scans of an FPGA with an information block and a GPIO block.
use cisco_8000_kernel_module.Common.{
  ◌==◌, if◌then◌else◌, length, ℕ, ◌+◌, ◌*◌, ◌≡◌, refl, true, ◌||◌, none, some, List, [], ◌∷◌, map,
}
use cisco_8000_kernel_module.Env.{Result, Env, ok, err}
use cisco_8000_kernel_module.Reg.{get, reg_get}
use cisco_8000_kernel_module.Mfd.Blocks.{cisco_fpga_blks, find_id, find_filter, blk_match}
use cisco_8000_kernel_module.Mfd.Cells.{
  default_id, init_children, Cell, Meta, add_irqs, configure, cell_of, fwnode_config,
}
use cisco_8000_kernel_module.Mfd.Scan.{
  cisco_fpga_magic, halves, blkread_words, blkread, init_metadata, next_offset, max_irqs_from,
  add_block, add_blocks, mark, any_duplicate, separate, read_offsets, scan_blocks, mfd_cells,
}
use cisco_8000_kernel_module.Mfd.DuplicateLaws.{AreApart, AreRelaxed, separate_lem}
use cisco_8000_kernel_module.Mfd.ResultLaws.{Scanned, mfd_cells-Scanned}
use cisco_8000_kernel_module.Tests.Machines.{steady}

-- The words of the FPGA, whose information block is of the given version.
abbrev rom : ℕ → ℕ → ℕ
rom version reg =
    if reg == 0
    then 35 * 64 + version
    else (if reg == 0x10 || reg == 0x1010 || reg == 0x2010
        then cisco_fpga_magic
        else (if reg == 0x40
            then 3
            else (if reg == 0x1000
                then 37 * 64
                else (if reg == 0x2000 then 255 * 64 else 0x100010))))

abbrev fpga : ℕ → Env
fpga version = record (steady 0) { read_answer = λ h map reg. ok (rom version reg) }

abbrev port : ℕ → ℕ → Cell
port id start = record {
  name = some "gpio";
  id = id;
  start = start;
  end = start + 0xfff;
  irqs = [];
}

abbrev three : List Cell
three = port 1 0x1000 ∷ port 2 0x2000 ∷ port 1 0x3000 ∷ []

separate_example :
    AreRelaxed three (separate (length three) three) × AreApart (separate (length three) three)
separate_example = separate_lem three

mfd_cells_example : Scanned (mfd_cells 0 true none 2 (fpga 6) [])
mfd_cells_example = mfd_cells-Scanned 0 true none 2 (fpga 6) []

-- The scan of the example succeeds, with the two cells.
starts : Result Meta → List ℕ
starts (ok m) = map (λ c. c.start) m.cells
starts (err e) = e ∷ []

mfd_cells_run : starts (mfd_cells 0 true none 2 (fpga 6) []).0 ≡ 0 ∷ 0x1000 ∷ []
unfolding mfd_cells scan_blocks add_blocks add_block max_irqs_from next_offset read_offsets blkread
    blkread_words init_metadata fwnode_config cell_of configure add_irqs blk_match find_id
    find_filter cisco_fpga_blks separate any_duplicate mark halves init_children default_id get
    reg_get starts
mfd_cells_run = refl
