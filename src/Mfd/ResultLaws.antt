-- ===== src/Mfd/ResultLaws.antt =====
-- What a scan that succeeds has found, and the information blocks that it refuses.
use mathlib.Core.Path.{subst, subst⁻¹}
use cisco_8000_kernel_module.Common.{
  ltb, leb, ◌==◌, if◌then◌else◌, Bool-cases, length, set, ℕ, ◌+◌, ◌-◌, ◌%◌, ◌^◌, ◌≤◌, ◌<◌, ◌≡◌, inl,
  inr, Bool, true, not, Option, List, [], ◌∷◌, map, arith,
}
use cisco_8000_kernel_module.Env.{
  History, Result, Env, enxio, enodev, einval, Result-cases, ok, err,
}
use cisco_8000_kernel_module.Reg.{get}
use cisco_8000_kernel_module.Mfd.Blocks.{Blk, blk_match}
use cisco_8000_kernel_module.Mfd.Cells.{ParentProps, Cell, Meta, fwnode_config}
use cisco_8000_kernel_module.Mfd.Scan.{
  cisco_fpga_magic, hdr_maj, hdr_id, word_at, magic_of, num_blocks_of, info_bytes, blkread,
  init_metadata, next_offset, max_irqs_from, add_blocks, separate, read_offsets, scan_blocks,
  mfd_cells,
}
use cisco_8000_kernel_module.Mfd.DuplicateLaws.{
  AreApart, AreRelaxed, length-AreRelaxed, separate_lem,
}
use cisco_8000_kernel_module.Mfd.CellLaws.{
  AllBelow, IrqsBelow, IsSound, Sound, SoundPair, fwnode_config-SoundPair,
}
use cisco_8000_kernel_module.Mfd.ScanLaws.{add_blocks-Sound}

-- The result of a scan: the invariant, and cells that can be told apart.
abbrev pub Scanned : Result Meta × History → Type 0
Scanned (ok m, h) = IsSound m × AreApart m.cells
Scanned (err e, h) = Unit {0}

IrqsBelow-AreRelaxed :
    (n : ℕ) (cs ds : List Cell) → AreRelaxed cs ds → IrqsBelow n cs → IrqsBelow n ds
IrqsBelow-AreRelaxed n [] [] r b = tt
IrqsBelow-AreRelaxed n (c ∷ cs) (d ∷ ds) r b =
    (subst⁻¹ (AllBelow n) r.0.3 b.0, IrqsBelow-AreRelaxed n cs ds r.1 b.1)
IrqsBelow-AreRelaxed n [] (d ∷ ds) r b = elim r [ ]
IrqsBelow-AreRelaxed n (c ∷ cs) [] r b = tt

separated : Meta → Meta
separated m = record m { cells = separate (length m.cells) m.cells }

separated-IsSound : (m : Meta) → IsSound m → IsSound (separated m) × AreApart (separated m).cells
unfolding separated
separated-IsSound m s =
    let laws = separate_lem m.cells in
    (
      record {
        room =
            subst⁻¹ (λ t. t ≤ m.max_cells)
              (length-AreRelaxed m.cells (separate (length m.cells) m.cells) laws.0) s.room;
        irqs =
            IrqsBelow-AreRelaxed m.max_irqs m.cells (separate (length m.cells) m.cells) laws.0
              s.irqs;
        limit = s.limit;
      },
      laws.1,
    )

finish :
    (r : Result Meta × History)
    → Sound r
    → Scanned (elim r.0 [
      | ok m ↦ (ok (record m { cells = separate (length m.cells) m.cells }), r.1)
      | err e ↦ (err e, r.1)
    ])
unfolding separated
finish (ok m, h) s = separated-IsSound m s
finish (err e, h) s = tt

begin :
    (r : Result (Bool × Meta) × History) (k : Meta → History → Result Meta × History)
    → SoundPair r
    → ((m : Meta) (h : History) → IsSound m → Scanned (k m h))
    → Scanned (elim r.0 [ ok a ↦ k a.1 r.1 | err e ↦ (err e, r.1) ])
begin (ok (i, m), h) k s next = next m h s
begin (err e, h) k s next = tt

scan_blocks-Scanned :
    (map info_ver n filter : ℕ) (b : Blk) (meta : Meta) (env : Env) (h : History)
    → IsSound meta
    → Scanned (scan_blocks map info_ver n filter b meta env h)
unfolding scan_blocks
scan_blocks-Scanned map info_ver n filter b meta env h s =
    elim (Result-cases (next_offset meta 0 0 env h).0) [
      | inr (e, bad) ↦ let step : run ≡ (err e, h1) = ground arith in subst⁻¹ Scanned step tt
      | inl (nxtoff, good) ↦
          let step : run ≡ rest nxtoff = ground arith in
          subst⁻¹ Scanned step (
            begin (fwnode_config meta b 0 nxtoff b.id env h1) (λ m h'. last nxtoff m h')
              (fwnode_config-SoundPair meta b 0 nxtoff b.id env h1 s)
              (λ m h' s'.
                finish (add_blocks (n - 1) map info_ver filter 1 nxtoff m env h')
                  (add_blocks-Sound (n - 1) map info_ver filter 1 nxtoff m env h' s')))
    ]
  where
    run : Result Meta × History
    run = scan_blocks map info_ver n filter b meta env h

    h1 : History
    h1 = (next_offset meta 0 0 env h).1

    last : ℕ → Meta → History → Result Meta × History
    last nxtoff m h' =
        let r = add_blocks (n - 1) map info_ver filter 1 nxtoff m env h' in
        elim r.0 [
          | ok m' ↦ (ok (record m' { cells = separate (length m'.cells) m'.cells }), r.1)
          | err e ↦ (err e, r.1)
        ]

    rest : ℕ → Result Meta × History
    rest nxtoff =
        let r = fwnode_config meta b 0 nxtoff b.id env h1 in
        elim r.0 [ ok a ↦ last nxtoff a.1 r.1 | err e ↦ (err e, r.1) ]

init_metadata-IsSound :
    (n : ℕ) (allocated : Bool) (firmware : Option ParentProps) (offsets : List ℕ) (irqs : ℕ)
    (m : Meta)
    → init_metadata n allocated firmware ≡ ok m
    → IsSound (record m { block_offset = offsets; max_irqs = irqs })
unfolding init_metadata
init_metadata-IsSound n allocated firmware offsets irqs m e = elim (Bool-cases (not allocated)) [
  | inl failed ↦ ground arith
  | inr given ↦ elim (Bool-cases (leb 256 ((n + 1) % 2 ^ 32))) [
    | inl large ↦ ground arith
    | inr small ↦
        let none_yet : [] ≡ m.cells = ground arith in
        let size : (n + 1) % 2 ^ 32 ≡ m.max_cells = ground arith in
        record {
          room = subst (λ t. length t ≤ m.max_cells) none_yet (omega arith);
          irqs = subst (IrqsBelow irqs) none_yet tt;
          limit = ground arith;
        }
  ]
]

-- If `cisco_fpga_mfd_cells` succeeds, it has found no more cells than it had made room for and fewer
-- than 256; the interrupts of every cell are below the number of the FPGA's interrupts; and two cells
-- of one name have different ids or the automatic id.
pub mfd_cells-Scanned :
    (map : ℕ) (allocated : Bool) (firmware : Option ParentProps) (filter : ℕ) (env : Env)
    (h : History)
    → Scanned (mfd_cells map allocated firmware filter env h)
unfolding mfd_cells
mfd_cells-Scanned map allocated firmware filter env h =
    elim (Result-cases (blkread map 0 info_bytes env h).0) [
      | inr (e, bad) ↦ let step : run ≡ (err e, h1) = ground arith in subst⁻¹ Scanned step tt
      | inl (info, good) ↦ elim (Bool-cases (not (magic_of info == cisco_fpga_magic))) [
        | inl wrong ↦ let step : run ≡ (err enodev, h1) = ground arith in subst⁻¹ Scanned step tt
        | inr right ↦ elim (Result-cases (init_metadata (count info) allocated firmware)) [
          | inr (e, bad) ↦ let step : run ≡ (err e, h1) = ground arith in subst⁻¹ Scanned step tt
          | inl (m, fits) ↦ elim (Result-cases (read_offsets map (version info) env h1).0) [
            | inr (e, bad) ↦
                let step : run ≡ (err e, h2 info) = ground arith in subst⁻¹ Scanned step tt
            | inl (offsets, well) ↦ elim (Bool-cases (not ((block info).id == 35))) [
              | inl strange ↦
                  let step : run ≡ (err enxio, h2 info) = ground arith in subst⁻¹ Scanned step tt
              | inr known ↦
                  elim (Result-cases
                    (max_irqs_from (count info) map 0 0 (meta m offsets) info env (h2 info)).0) [
                      | inr (e, bad) ↦
                          let step : run ≡ (err e, h3 info m offsets) = ground arith in
                          subst⁻¹ Scanned step tt
                      | inl (irqs, set) ↦
                          let step : run
                              ≡ scan_blocks map (version info) (count info) filter (block info)
                                  (record (meta m offsets) { max_irqs = irqs }) env
                                  (h3 info m offsets) =
                            ground arith in
                          subst⁻¹ Scanned step (
                            scan_blocks-Scanned map (version info) (count info) filter (block info)
                              (record (meta m offsets) { max_irqs = irqs }) env (h3 info m offsets)
                              (init_metadata-IsSound (count info) allocated firmware offsets irqs m
                                fits))
                    ]
            ]
          ]
        ]
      ]
    ]
  where
    run : Result Meta × History
    run = mfd_cells map allocated firmware filter env h

    h1 : History
    h1 = (blkread map 0 info_bytes env h).1

    version : List ℕ → ℕ
    version info = get hdr_maj (word_at info 0)

    count : List ℕ → ℕ
    count info = if ltb (version info) 6 then 255 else num_blocks_of info

    block : List ℕ → Blk
    block info = blk_match (get hdr_id (word_at info 0)) filter

    h2 : List ℕ → History
    h2 info = (read_offsets map (version info) env h1).1

    meta : Meta → List ℕ → Meta
    meta m offsets = record m { block_offset = offsets }

    h3 : List ℕ → Meta → List ℕ → History
    h3 info m offsets = (max_irqs_from (count info) map 0 0 (meta m offsets) info env (h2 info)).1

-- An FPGA whose information block has the right magic number and a version below 6 is refused with
-- -EINVAL whenever memory can be allocated, although the scan has a table of offsets for it.
pub mfd_cells-ne_old :
    (map : ℕ) (firmware : Option ParentProps) (filter : ℕ) (env : Env) (h : History) (info : List ℕ)
    (h1 : History)
    → blkread map 0 info_bytes env h ≡ (ok info, h1)
    → magic_of info ≡ cisco_fpga_magic
    → get hdr_maj (word_at info 0) < 6
    → mfd_cells map true firmware filter env h ≡ (err einval, h1)
unfolding mfd_cells init_metadata
mfd_cells-ne_old map firmware filter env h info h1 r m v = ground arith
