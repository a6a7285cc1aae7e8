-- ===== src/Xil/Boards.antt =====
-- The boards that drivers/cisco/cisco-fpga-xil.c tells apart by the register status0, and the NPU
-- status bits that each of them has.
use cisco_8000_kernel_module.Common.{
  ltb, ◌==◌, if◌then◌else◌, ℕ, zero, suc, ◌+◌, ◌*◌, ◌%◌, ◌^◌, Bool, not, ◌&&◌, ◌||◌, Option, none,
  some, List, [], ◌∷◌, map,
}
use cisco_8000_kernel_module.Env.{
  Result, Done, M, pure, fail, lift, ◌>>=◌, ◌>>◌, regmap_read, enxio, ok, err,
}
use cisco_8000_kernel_module.Reg.{shr32, get}
use cisco_8000_kernel_module.Xil.Regs.{
  status0, status1, status2, platform_id, fpga_id, fixed, distributed, central,
}

-- `XIL_NNPUS` and `XIL_NATTRS`.
abbrev pub xil_nnpus : ℕ
xil_nnpus = 6

abbrev pub xil_nattrs : ℕ
xil_nattrs = 4

-- One of the comparisons: this FPGA on this platform.
abbrev pub on : ℕ → ℕ → ℕ → Bool
on platform fpga data0 = get fpga_id data0 == fpga && get platform_id data0 == platform

unfoldable pub is_fowlmere : ℕ → Bool
is_fowlmere data0 = on distributed 0x61 data0

unfoldable pub is_filton : ℕ → Bool
is_filton data0 = on distributed 0x60 data0

unfoldable pub is_kenley : ℕ → Bool
is_kenley data0 = on distributed 0x40 data0 || on distributed 0x41 data0

unfoldable pub is_kirkwall : ℕ → Bool
is_kirkwall data0 = on distributed 0x42 data0 || on distributed 0x43 data0

unfoldable pub is_pembrey : ℕ → Bool
is_pembrey data0 = on distributed 0x20 data0

unfoldable pub is_zenith : ℕ → Bool
is_zenith data0 = on distributed 0x21 data0

unfoldable pub is_sherman : ℕ → Bool
is_sherman data0 = on fixed 3 data0

unfoldable pub is_churchill : ℕ → Bool
is_churchill data0 = on fixed 7 data0

unfoldable pub is_crocodile : ℕ → Bool
is_crocodile data0 = on fixed 12 data0

unfoldable pub is_matilda : ℕ → Bool
is_matilda data0 = on fixed 11 data0 || on fixed 10 data0

unfoldable pub is_pershing : ℕ → Bool
is_pershing data0 = on fixed 5 data0 || on fixed 6 data0

unfoldable pub is_kodiak : ℕ → Bool
is_kodiak data0 = on central 0x19 data0 || on central 0x68 data0 || on central 0x69 data0

-- The variables that the chain of `_xil_sysfs_init` sets.
pub record Board : Type 0 where
  pub max_nnpus : ℕ
  pub status_reg : ℕ
  pub bit_offset : ℕ

abbrev pub npus : ℕ → Board
npus n = record { max_nnpus = n; status_reg = status2; bit_offset = 0 }

-- The boards without NPUs, and a word that is not supported, leave the same values.
unfoldable pub board_of : ℕ → Board
board_of data0 =
    if is_fowlmere data0
    then npus 2
    else (if is_filton data0
        then npus 6
        else (if is_kenley data0
            then npus 4
            else (if is_kirkwall data0
                then npus 3
                else (if is_sherman data0
                    then record { max_nnpus = 1; status_reg = status1; bit_offset = 24 }
                    else npus 0))))

-- The number of NPUs, from the device's property "nnpus" if the block is active.
unfoldable pub count_npus : Board → Bool → Result ℕ → ℕ
count_npus b active property =
    if b.max_nnpus == 0
    then 0
    else (if not active then b.max_nnpus else (elim property [
      | err _ ↦ b.max_nnpus
      | ok n ↦ if ltb b.max_nnpus n then b.max_nnpus else n
    ]))

-- `struct xil_ext_attribute`, and the one for an NPU and the number of an attribute.
pub record NpuAttr : Type 0 where
  pub reg : ℕ
  pub npu : ℕ
  pub attr_no : ℕ
  pub bit_no : ℕ

unfoldable pub npu_attr : Board → ℕ → ℕ → ℕ → NpuAttr
npu_attr b nnpus npu attr_no = record {
  reg = b.status_reg;
  npu = npu;
  attr_no = attr_no;
  bit_no = (attr_no * nnpus + npu + b.bit_offset) % 2 ^ 8;
}

-- The inner and the outer loop that fill in the attributes.
abbrev pub attrs_from : ℕ → Board → ℕ → ℕ → ℕ → List NpuAttr
attrs_from zero b nnpus npu attr_no = []
attrs_from (suc left) b nnpus npu attr_no =
    npu_attr b nnpus npu attr_no ∷ attrs_from left b nnpus npu (suc attr_no)

abbrev pub npus_from : ℕ → Board → ℕ → ℕ → List (List NpuAttr)
npus_from zero b nnpus npu = []
npus_from (suc left) b nnpus npu =
    attrs_from xil_nattrs b nnpus npu 0 ∷ npus_from left b nnpus (suc npu)

-- What `_xil_sysfs_init` leaves: `priv->nnpus`, and the attributes of each NPU's group.
pub record Layout : Type 0 where
  pub nnpus : ℕ
  pub npu_sysfs : List (List NpuAttr)

-- `_xil_sysfs_init`, with the status of `devm_device_add_groups`.
unfoldable pub sysfs_init : ℕ → Bool → Result ℕ → Done → M Layout
sysfs_init map active property added = do
  data0 ← regmap_read map status0
  let b : Board = board_of data0
  let nnpus : ℕ = count_npus b active property
  lift added
  pure (record { nnpus = nnpus; npu_sysfs = npus_from nnpus b nnpus 0 })

-- `groups` gets a group for each NPU, seven more and the NULL at its end.
abbrev pub groups_len : ℕ → ℕ
groups_len nnpus = nnpus + 7 + 1

-- `_npu_show`: the number that it prints.
unfoldable pub npu_show : Option ℕ → NpuAttr → M ℕ
npu_show none a = fail enxio
npu_show (some map) a = do word ← regmap_read map a.reg; pure (shr32 word a.bit_no % 2)
