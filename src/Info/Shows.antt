-- ===== src/Info/Shows.antt =====
-- The attributes of drivers/cisco/cisco-fpga-info.c. A format gives the numbers that it prints, or the
-- character codes of a text without its newline.
use cisco_8000_kernel_module.Common.{
  ltb, if◌then◌else◌, length, get_elem?, get_or, take, ℕ, zero, suc, ◌+◌, ◌*◌, ◌⊎◌, inl, inr, Bool,
  Option, none, some, List, [], ◌∷◌, ◌++◌, map,
}
use cisco_8000_kernel_module.Env.{
  Result, M, pure, fail, lift, ◌>>=◌, regmap_read, bug_on, enxio, ok, err,
}
use cisco_8000_kernel_module.Text.{codes}
use cisco_8000_kernel_module.Reg.{Field, field, get}
use cisco_8000_kernel_module.Attributes.Attr.{not_present, read_regs, zeros}
use cisco_8000_kernel_module.Xil.Scratch.{word_bytes, until_nul}

-- The offsets of `struct info_regs_v6_t`.
abbrev pub info_device : ℕ
info_device = 0x14

abbrev pub info_fpga_id : ℕ
info_fpga_id = 0x18

abbrev pub info_cfg_info : ℕ
info_cfg_info = 0x1c

abbrev pub info_version : ℕ
info_version = 0x20

abbrev pub info_build : ℕ
info_build = 0x24

abbrev pub comment_str : ℕ
comment_str = 0x28

abbrev pub device_family : Field
device_family = field 31 16

abbrev pub device_vendor : Field
device_vendor = field 15 0

abbrev pub cfg_info : Field
cfg_info = field 1 0

abbrev pub version_rev_dbg : Field
version_rev_dbg = field 31 24

abbrev pub version_rev_maj : Field
version_rev_maj = field 23 16

abbrev pub version_rev_min : Field
version_rev_min = field 15 0

abbrev pub build_bld_no : Field
build_bld_no = field 31 0

-- `_fpga_family_fmt`, `_fpga_vendor_fmt` and `_fpga_id_fmt`.
unfoldable pub fpga_family_fmt : List ℕ → Result ℕ
fpga_family_fmt datas = ok (get device_family (get_or datas 0 0))

unfoldable pub fpga_vendor_fmt : List ℕ → Result ℕ
fpga_vendor_fmt datas = ok (get device_vendor (get_or datas 0 0))

unfoldable pub fpga_id_fmt : List ℕ → Result ℕ
fpga_id_fmt datas = ok (get_or datas 0 0)

-- `_cfg_info`.
unfoldable pub cfg_info_names : List (Option (List ℕ))
cfg_info_names =
    some (codes "0: reserved")
    ∷ some (codes "1: reserved")
    ∷ some (codes "Golden image")
    ∷ some (codes "Upgrade image")
    ∷ []

-- `_config_info_fmt`: the name, or the number of an illegal value.
unfoldable pub config_info_fmt : List ℕ → Result (List ℕ ⊎ ℕ)
config_info_fmt datas =
    let index : ℕ = get cfg_info (get_or datas 0 0) in
    elim (get_elem? cfg_info_names index) [
      | none ↦ err bug_on
      | some s ↦ elim s [ none ↦ ok (inr index) | some name ↦ ok (inl name) ]
    ]

-- The four numbers of a version.
pub record Version : Type 0 where
  pub major : ℕ
  pub minor : ℕ
  pub debug : ℕ
  pub build : ℕ

-- `_version_fmt`.
unfoldable pub version_fmt : List ℕ → Result Version
version_fmt datas =
    if ltb (length datas) 2
    then err bug_on
    else (let version : ℕ = get_or datas 0 0 in
        ok (record {
          major = get version_rev_maj version;
          minor = get version_rev_min version;
          debug = get version_rev_dbg version;
          build = get build_bld_no (get_or datas 1 0);
        }))

-- `cisco_fpga_sysfs_show` of an attribute with the registers `reg0` and `reg1`.
unfoldable pub info_show : {A : Type 0} → ℕ → ℕ → (List ℕ → Result A) → Option ℕ → M A
info_show reg0 reg1 fmt none = fail enxio
info_show reg0 reg1 fmt (some map) =
    read_regs map (reg0 ∷ reg1 ∷ []) zeros >>= λ datas. lift (fmt datas)

unfoldable pub version_show : Option ℕ → M Version
version_show = info_show info_version info_build version_fmt

unfoldable pub config_info_show : Option ℕ → M (List ℕ ⊎ ℕ)
config_info_show = info_show info_cfg_info not_present config_info_fmt

-- The loop of `comment_show` from the word `i` on.
unfoldable pub comment_words : ℕ → ℕ → ℕ → M (List ℕ)
comment_words map i zero = pure []
comment_words map i (suc left) = do
  v ← regmap_read map (comment_str + 4 * i)
  rest ← comment_words map (suc i) left
  pure (v ∷ rest)

-- The bytes of the words, as the union gives them on a little-endian machine.
unfoldable pub union_bytes : List ℕ → List ℕ
union_bytes [] = []
union_bytes (v ∷ vs) = word_bytes v ++ union_bytes vs

-- `comment_show`, which prints at most 24 bytes, up to a NUL.
unfoldable pub comment_show : Option ℕ → M (List ℕ)
comment_show none = fail enxio
comment_show (some map) = do
  datas ← comment_words map 0 6
  pure (until_nul (take 24 (union_bytes datas)))

-- `name_show` and `description_show`, with the property "fpd-name" or "fpd-description".
unfoldable pub property_show : Result (List ℕ) → Result (List ℕ)
property_show (ok value) = ok value
property_show (err e) = err e

-- `_info_sys_acpi_is_visible`: the mode of the attribute, or 0 without a property of its name.
unfoldable pub is_visible : (List ℕ → Bool) → List ℕ → ℕ → ℕ
is_visible present name mode = if present (codes "fpd-" ++ name) then mode else 0
