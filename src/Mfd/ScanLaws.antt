-- ===== src/Mfd/ScanLaws.antt =====
-- The invariant of the scan, and what a scan that succeeds has found.
use mathlib.Core.Path.{subst⁻¹}
use cisco_8000_kernel_module.Common.{
  leb, ◌==◌, Bool-cases, Option-cases, ℕ, zero, suc, ◌≡◌, inl, inr, Bool, not, ◌&&◌, Option, none,
  some, List, map, arith,
}
use cisco_8000_kernel_module.Env.{History, Result, Env, pure, ◌>>=◌, Result-cases, ok, err}
use cisco_8000_kernel_module.Reg.{get}
use cisco_8000_kernel_module.Mfd.Blocks.{Blk, irq_blk, blk_match}
use cisco_8000_kernel_module.Mfd.Cells.{Meta, fwnode_config}
use cisco_8000_kernel_module.Mfd.Scan.{
  cisco_fpga_magic, hdr_id, word_at, magic_of, hdr_bytes, blkread, next_offset, add_block,
  add_blocks,
}
use cisco_8000_kernel_module.Mfd.CellLaws.{
  IsSound, Sound, SoundPair, SoundOption, fwnode_config-SoundPair,
}

-- A block that is configured keeps the invariant.
configured :
    (meta : Meta) (b : Blk) (absoff nxtoff id : ℕ) (env : Env) (h : History)
    → IsSound meta
    → SoundOption ((fwnode_config meta b absoff nxtoff id >>= λ r. pure (some r.1)) env h)
configured meta b absoff nxtoff id env h s =
    from (fwnode_config meta b absoff nxtoff id env h)
      (fwnode_config-SoundPair meta b absoff nxtoff id env h s)
  where
    from :
        (r : Result (Bool × Meta) × History)
        → SoundPair r
        → SoundOption (elim r.0 [ ok a ↦ (ok (some a.1), r.1) | err e ↦ (err e, r.1) ])
    from (ok (i, m), h') s' = s'
    from (err e, h') s' = tt

add_block-SoundOption :
    (info_ver filter : ℕ) (hdr : List ℕ) (absoff nxtoff : ℕ) (meta : Meta) (env : Env) (h : History)
    → IsSound meta
    → SoundOption (add_block info_ver filter hdr absoff nxtoff meta env h)
unfolding add_block
add_block-SoundOption info_ver filter hdr absoff nxtoff meta env h s =
    elim (Bool-cases (not (magic_of hdr == cisco_fpga_magic))) [
      | inl bad ↦ elim (Bool-cases (leb 6 info_ver && absoff == 0x20000)) [
        | inl irq ↦
            let step : run ≡ config irq_blk 38 = ground arith in
            subst⁻¹ SoundOption step (configured meta irq_blk absoff nxtoff 38 env h s)
        | inr skip ↦
            let step : run ≡ (ok (some meta), h) = ground arith in subst⁻¹ SoundOption step s
      ]
      | inr good ↦ elim (Bool-cases (id == 255)) [
        | inl tail ↦ let step : run ≡ (ok none, h) = ground arith in subst⁻¹ SoundOption step tt
        | inr block ↦ elim (Bool-cases (id == 38)) [
          | inl irq ↦
              let step : run ≡ config irq_blk id = ground arith in
              subst⁻¹ SoundOption step (configured meta irq_blk absoff nxtoff id env h s)
          | inr other ↦ elim (Option-cases (blk_match id filter).name) [
            | inl e ↦
                let step : run ≡ (ok (some meta), h) = ground arith in subst⁻¹ SoundOption step s
            | inr (n, e) ↦
                let step : run ≡ config (blk_match id filter) id = ground arith in
                subst⁻¹ SoundOption step
                  (configured meta (blk_match id filter) absoff nxtoff id env h s)
          ]
        ]
      ]
    ]
  where
    id : ℕ
    id = get hdr_id (word_at hdr 0)

    run : Result (Option Meta) × History
    run = add_block info_ver filter hdr absoff nxtoff meta env h

    config : Blk → ℕ → Result (Option Meta) × History
    config b i = (fwnode_config meta b absoff nxtoff i >>= λ r. pure (some r.1)) env h

-- One round of the loop, given the rest.
round :
    (r : Result (Option Meta) × History) (meta : Meta) (k : Meta → History → Result Meta × History)
    → IsSound meta
    → SoundOption r
    → ((m : Meta) (h : History) → IsSound m → Sound (k m h))
    → Sound (elim r.0 [
      | ok o ↦ elim o [ none ↦ (ok meta, r.1) | some m ↦ k m r.1 ]
      | err e ↦ (err e, r.1)
    ])
round (ok none, h) meta k s o next = s
round (ok (some m), h) meta k s o next = next m h o
round (err e, h) meta k s o next = tt

pub add_blocks-Sound :
    (n map info_ver filter i absoff : ℕ) (meta : Meta) (env : Env) (h : History)
    → IsSound meta
    → Sound (add_blocks n map info_ver filter i absoff meta env h)
unfolding add_blocks
add_blocks-Sound zero map info_ver filter i absoff meta env h s = s
add_blocks-Sound (suc n) map info_ver filter i absoff meta env h s =
    elim (Result-cases (next_offset meta i absoff env h).0) [
      | inr (e, bad) ↦ let step : run ≡ (err e, h1) = ground arith in subst⁻¹ Sound step tt
      | inl (nxtoff, good) ↦ elim (Result-cases (blkread map absoff hdr_bytes env h1).0) [
        | inr (e, bad) ↦ let step : run ≡ (err e, h2) = ground arith in subst⁻¹ Sound step tt
        | inl (hdr, read_well) ↦
            let step : run ≡ rest nxtoff hdr = ground arith in
            subst⁻¹ Sound step (
              round (add_block info_ver filter hdr absoff nxtoff meta env h2) meta
                (λ m h'. add_blocks n map info_ver filter (suc i) nxtoff m env h') s
                (add_block-SoundOption info_ver filter hdr absoff nxtoff meta env h2 s)
                (λ m h' s'. add_blocks-Sound n map info_ver filter (suc i) nxtoff m env h' s'))
      ]
    ]
  where
    run : Result Meta × History
    run = add_blocks (suc n) map info_ver filter i absoff meta env h

    h1 : History
    h1 = (next_offset meta i absoff env h).1

    h2 : History
    h2 = (blkread map absoff hdr_bytes env h1).1

    rest : ℕ → List ℕ → Result Meta × History
    rest nxtoff hdr =
        let r = add_block info_ver filter hdr absoff nxtoff meta env h2 in
        elim r.0 [
          | ok o ↦ elim o [
            | none ↦ (ok meta, r.1)
            | some m ↦ add_blocks n map info_ver filter (suc i) nxtoff m env r.1
          ]
          | err e ↦ (err e, r.1)
        ]
