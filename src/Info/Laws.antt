-- ===== src/Info/Laws.antt =====
-- What the attributes of the information block print.
use mathlib.Core.Path.{subst, subst⁻¹}
use cisco_8000_kernel_module.Common.{
  length, get_elem?, get_or, take, ℕ, zero, suc, ◌+◌, ◌*◌, ◌^◌, ◌<◌, ◌≡◌, refl, ap, ◌≢◌, inl, inr,
  none, some, List, [], ◌∷◌, ◌++◌, map, arith,
}
use cisco_8000_kernel_module.Env.{History, Result, Env, pure, ◌>>=◌, Result-cases, read, ok}
use cisco_8000_kernel_module.Env.Contents.{contents, Memory}
use cisco_8000_kernel_module.Env.Rules.{Post, Post-err}
use cisco_8000_kernel_module.Text.{codes}
use cisco_8000_kernel_module.Reg.{get, get_lem}
use cisco_8000_kernel_module.Attributes.Attr.{not_present, read_present, read_regs}
use cisco_8000_kernel_module.Xil.Scratch.{ScratchAttr, word_bytes, read_str, until_nul, show_str}
use cisco_8000_kernel_module.Info.Shows.{
  info_version, info_build, comment_str, cfg_info, version_rev_dbg, version_rev_maj,
  version_rev_min, build_bld_no, cfg_info_names, config_info_fmt, Version, version_fmt, info_show,
  version_show, comment_words, union_bytes, comment_show,
}

-- The words of the comment are read as the bytes of a text are.
comment_words-read_str :
    (map i left : ℕ) (env : Env) (h : History)
    → (comment_words map i left >>= λ vs. pure (union_bytes vs)) env h
      ≡ read_str map left (comment_str + 4 * i) env h
unfolding comment_words union_bytes read_str
comment_words-read_str map i zero env h = refl
comment_words-read_str map i (suc left) env h =
    elim (Result-cases (env.read_answer h map (comment_str + 4 * i))) [
      | inr (x, e) ↦ ground arith
      | inl (v, e) ↦
          let h1 : History = read map (comment_str + 4 * i) ∷ h in
          let next : comment_str + 4 * suc i ≡ comment_str + 4 * i + 4 = omega arith in
          let rest = comment_words-read_str map (suc i) left env h1 in
          let same = ap (λ off. read_str map left off env h1) next in
          elim (Result-cases (comment_words map (suc i) left env h1).0) [
            | inl (vs, f) ↦ ground (arith, rest, same)
            | inr (x, f) ↦ ground (arith, rest, same)
          ]
    ]

comment_words-length :
    (map i left : ℕ) (env : Env) (h : History)
    → Post (λ vs. length vs ≡ left) (comment_words map i left env h).0
unfolding comment_words
comment_words-length map i zero env h = refl
comment_words-length map i (suc left) env h =
    elim (Result-cases (env.read_answer h map (comment_str + 4 * i))) [
      | inr (x, e) ↦ Post-err fits run x (ground arith)
      | inl (v, e) ↦
          let h1 : History = read map (comment_str + 4 * i) ∷ h in
          elim (Result-cases (comment_words map (suc i) left env h1).0) [
            | inr (x, f) ↦ Post-err fits run x (ground arith)
            | inl (vs, f) ↦
                let step : run ≡ ok (v ∷ vs) = ground arith in
                let len : length vs ≡ left =
                  subst (Post (λ ws. length ws ≡ left)) f
                    (comment_words-length map (suc i) left env h1) in
                subst⁻¹ (Post fits) step (omega arith)
          ]
    ]
  where
    fits : List ℕ → Type 0
    fits vs = length vs ≡ suc left

    run : Result (List ℕ)
    run = (comment_words map i (suc left) env h).0

take-union_bytes :
    (n : ℕ) (vs : List ℕ) → length vs ≡ n → take (4 * n) (union_bytes vs) ≡ union_bytes vs
unfolding union_bytes
take-union_bytes n [] e = subst (λ m. take {A = ℕ} (4 * m) [] ≡ []) e refl
take-union_bytes zero (v ∷ vs) e = ground arith
take-union_bytes (suc n) (v ∷ vs) e =
    let four : 4 * suc n ≡ suc (suc (suc (suc (4 * n)))) = omega arith in
    rw four (ap (λ bs. word_bytes v ++ bs) (take-union_bytes n vs (omega arith)))

-- The comment as a text of the scratch memory.
abbrev pub comment_text : ScratchAttr
comment_text = record { reg_offset = comment_str; len = 24; names = none }

-- "comment" prints what `_scratch_show_str` of drivers/cisco/msd_xil_sysfs.c prints of a text of 24
-- bytes in its place, with the same requests, and fails with the same status, whatever the registers
-- answer.
pub comment_show-show_str :
    (map : ℕ) (env : Env) (h : History)
    → comment_show (some map) env h ≡ show_str (some map) comment_text env h
unfolding comment_show show_str
comment_show-show_str map env h =
    let same = comment_words-read_str map 0 6 env h in
    elim (Result-cases (comment_words map 0 6 env h).0) [
      | inr (x, e) ↦ ground (arith, same)
      | inl (vs, e) ↦
          let len : length vs ≡ 6 =
            subst (Post (λ ws. length ws ≡ 6)) e (comment_words-length map 0 6 env h) in
          ground (arith, same, ap until_nul (take-union_bytes 6 vs len))
    ]

-- A show of two registers, while the registers keep what is written.
show_two :
    {A : Type 0} (held : ℕ → ℕ) (map reg0 reg1 : ℕ) (fmt : List ℕ → Result A) (env : Env)
    (h : History)
    → Memory held map env
    → reg0 ≢ not_present
    → reg1 ≢ not_present
    → (info_show reg0 reg1 fmt (some map) env h).0
      ≡ fmt (contents held map h reg0 ∷ contents held map h reg1 ∷ [])
unfolding info_show read_regs read_present
show_two held map reg0 reg1 fmt env h mem p q =
    ground (arith, mem.recalls h reg0, mem.recalls (read map reg0 ∷ h) reg1)

-- The attribute "version" shows all of its two registers: their words are made up of the four numbers
-- that it prints, while the registers keep what is written.
pub version_show-words :
    (held : ℕ → ℕ) (map : ℕ) (env : Env) (h : History)
    → Memory held map env
    → contents held map h info_version < 2 ^ 32
    → contents held map h info_build < 2 ^ 32
    → (v : Version) × ((version_show (some map) env h).0 ≡ ok v)
      × (contents held map h info_version ≡ v.debug * 2 ^ 24 + v.major * 2 ^ 16 + v.minor)
      × (contents held map h info_build ≡ v.build)
unfolding version_show version_fmt
version_show-words held map env h mem p q =
    let w0 : ℕ = contents held map h info_version in
    let w1 : ℕ = contents held map h info_build in
    (
      record {
        major = get version_rev_maj w0;
        minor = get version_rev_min w0;
        debug = get version_rev_dbg w0;
        build = get build_bld_no w1;
      },
      show_two held map info_version info_build version_fmt env h mem (ground arith) (ground arith),
      omega (
        arith,
        get_lem version_rev_maj w0 (omega arith, omega arith),
        get_lem version_rev_min w0 (omega arith, omega arith),
        get_lem version_rev_dbg w0 (omega arith, omega arith),
      ),
      omega (arith, get_lem build_bld_no w1 (omega arith, omega arith)),
    )

named_cfg_info : (i : ℕ) → i < 4 → (name : List ℕ) × (get_elem? cfg_info_names i ≡ some (some name))
unfolding cfg_info_names
named_cfg_info zero p = (codes "0: reserved", refl)
named_cfg_info (suc zero) p = (codes "1: reserved", refl)
named_cfg_info (suc (suc zero)) p = (codes "Golden image", refl)
named_cfg_info (suc (suc (suc zero))) p = (codes "Upgrade image", refl)
named_cfg_info (suc (suc (suc (suc i)))) p = ground arith

-- "config_info" prints a name for every word: the table has one for each value of its field.
pub config_info_fmt-name :
    (datas : List ℕ) → (name : List ℕ) × (config_info_fmt datas ≡ ok (inl name))
unfolding config_info_fmt
config_info_fmt-name datas =
    let index : ℕ = get cfg_info (get_or datas 0 0) in
    let (name, e) =
      named_cfg_info index
        (omega (arith, get_lem cfg_info (get_or datas 0 0) (omega arith, omega arith))) in
    (name, ground arith)
