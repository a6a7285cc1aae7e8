-- ===== src/Xil/ScratchLaws.antt =====
-- What the scratch memory holds after a store.
use mathlib.Core.Path.{subst⁻¹}
use cisco_8000_kernel_module.Common.{
  ltb, ◌==◌, if◌then◌else◌, lt→ltb, length, ℕ, ◌+◌, ◌*◌, ◌^◌, ◌<◌, bit_and, bit_or, ◌≡◌, refl, ◌∙◌,
  true, some, List, ◌∷◌, map, arith,
}
use cisco_8000_kernel_module.Env.{History, Result, Env, einval, write, ok, err}
use cisco_8000_kernel_module.Env.Contents.{contents, Memory}
use cisco_8000_kernel_module.Bits.{bit_and_mask, bit_or-add, bit_or_comm}
use cisco_8000_kernel_module.Reg.{shl32, shr32}
use cisco_8000_kernel_module.Xil.Scratch.{
  ScratchAttr, show_hw_ver, VersionScan, version_of, store_hw_ver, cut_line, store_str,
}

-- The status of the writes is lost: whatever the environment answers, a text that fits is reported
-- as stored, and any other is refused.
pub store_str-loses_status :
    (map : ℕ) (a : ScratchAttr) (buf : List ℕ) (env : Env) (h : History)
    → (store_str (some map) a true buf env h).0
      ≡ (if (cut_line a.len buf).1 == length buf then ok (length buf) else err einval)
unfolding store_str
store_str-loses_status map a buf env h = ground arith

packed_version :
    (major minor : ℕ)
    → major < 2 ^ 16
    → minor < 2 ^ 16
    → bit_or (shl32 major 16) minor ≡ minor + major * 2 ^ 16
packed_version major minor p q =
    let e : shl32 major 16 ≡ major * 2 ^ 16 = omega arith in
    rw (e, bit_or_comm (major * 2 ^ 16) minor)
      (bit_or-add minor major 16 (omega arith) (omega arith))

-- A store that returns its length, and a show after it that gives the version.
abbrev pub ShowsVersion : ℕ → ℕ × ℕ → Result ℕ × History → (History → Result (ℕ × ℕ)) → Type 0
ShowsVersion n v (r, h) printed = (r ≡ ok n) × (printed h ≡ ok v)

-- A hardware version whose numbers fit 16 bits each, stored while the registers keep what is written,
-- is shown again as it was.
pub show_hw_ver-store_hw_ver :
    (held : ℕ → ℕ) (map : ℕ) (a : ScratchAttr) (s : VersionScan) (n major minor : ℕ) (env : Env)
    (h : History)
    → Memory held map env
    → version_of s n ≡ some (major, minor)
    → major < 2 ^ 16
    → minor < 2 ^ 16
    → ShowsVersion n
        (major, minor)
        (store_hw_ver (some map) a s n env h)
        (λ h1. (show_hw_ver (some map) a env h1).0)
unfolding store_hw_ver show_hw_ver
show_hw_ver-store_hw_ver held map a s n major minor env h m v p q =
    let w : ℕ = bit_or (shl32 major 16) minor in
    let h1 : History = write map a.reg_offset w ∷ h in
    let a1 : ltb major 0x10000 ≡ true = lt→ltb _ _ (omega arith) in
    let a2 : ltb minor 0x10000 ≡ true = lt→ltb _ _ (omega arith) in
    let stored : store_hw_ver (some map) a s n env h ≡ (ok n, h1) =
      ground (arith, v, a1, a2, m.stores h a.reg_offset w) in
    let now : contents held map h1 a.reg_offset ≡ w = ground arith in
    let packed : w ≡ minor + major * 2 ^ 16 = packed_version major minor p q in
    let high : shr32 w 16 ≡ major = rw packed (omega arith) in
    let low : bit_and w 0xffff ≡ minor = bit_and_mask w 16 ∙ (rw packed (omega arith)) in
    let shown : (show_hw_ver (some map) a env h1).0 ≡ ok (major, minor) =
      ground (arith, m.recalls h1 a.reg_offset, now, high, low) in
    subst⁻¹ (λ t. ShowsVersion n (major, minor) t (λ h2. (show_hw_ver (some map) a env h2).0))
      stored (refl, shown)
