-- ===== src/Tests/Npus.antt =====
-- The XIL block.
use cisco_8000_kernel_module.Common.{ℕ, ◌≡◌, refl, true, false, Option, some, [], arith}
use cisco_8000_kernel_module.Env.{einval, ok, err}
use cisco_8000_kernel_module.Env.Rules.{Post}
use cisco_8000_kernel_module.Reg.{get}
use cisco_8000_kernel_module.Xil.Boards.{
  is_fowlmere, is_kenley, is_kirkwall, is_zenith, is_sherman, sysfs_init,
}
use cisco_8000_kernel_module.Xil.BoardLaws.{IsLaidOut, sysfs_init-IsLaidOut}
use cisco_8000_kernel_module.Text.{codes}
use cisco_8000_kernel_module.Xil.Cards.{card_of}
use cisco_8000_kernel_module.Xil.CardLaws.{Names, board_name, card_of-board_name}
use cisco_8000_kernel_module.Xil.Npus.{NpuName, Priv, driver_of, npu_status}
use cisco_8000_kernel_module.Xil.NpuLaws.{npu_status-refused}
use cisco_8000_kernel_module.Tests.Machines.{steady}

-- status0 of a fabric card: FPGA 0x60 on the distributed platform.
sysfs_init_example : Post IsLaidOut (sysfs_init 2 true (ok 4) (ok tt) (steady 0x26000000) []).0
sysfs_init_example = sysfs_init-IsLaidOut (steady 0x26000000) 2 true (ok 4) (ok tt) []

abbrev npu7 : NpuName
npu7 = record { npu_at = some 0; fabric_card = false; slot = 78; number = ok 7 }

abbrev four : Option ℕ → Option (Option Priv)
four driver = some (some (record { regmap = 2; nnpus = 4 }))

npu_status_example : (npu_status npu7 four (steady 0) []).0 ≡ err einval
unfolding driver_of
npu_status_example = npu_status-refused npu7 four 0 7 (steady 0) [] refl refl (omega arith)

-- status0 of the Sherman board: FPGA 3 on the fixed platform.
card_example : Names (codes "Sherman") (card_of 0x10300000)
unfolding board_name is_fowlmere is_kenley is_kirkwall is_zenith is_sherman get
card_example = card_of-board_name 0x10300000 (codes "Sherman") refl
