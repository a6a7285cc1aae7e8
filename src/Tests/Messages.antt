-- ===== src/Tests/Messages.antt =====
-- The SMBus controller: a write of three bytes, a block read and a transfer that times out.
use cisco_8000_kernel_module.Common.{◌<◌, ◌≡◌, false, some, [], ◌∷◌, arith}
use cisco_8000_kernel_module.Env.{einval, err}
use cisco_8000_kernel_module.I2cExt.Regs.{Msg}
use cisco_8000_kernel_module.I2cSmb.Wait.{Smb, recover_bus, smb_wait_done}
use cisco_8000_kernel_module.I2cSmb.WaitLaws.{
  Completes, recover_bus-Completes, smb_wait_done-Completes,
}
use cisco_8000_kernel_module.I2cSmb.Xfer.{msglen, smb_xfer}
use cisco_8000_kernel_module.I2cSmb.XferLaws.{Reports, smb_xfer-Reports}
use cisco_8000_kernel_module.Tests.Machines.{steady, steady-Clock}

abbrev smbus : Smb
smbus = record { map = 3; ver = 5; ten_bit = false; index = 2; timeout = 4 }

abbrev address : Msg
address = record { addr = 0x50; flags = 0; len = 2; buf = 0x12 ∷ 0x34 ∷ [] }

abbrev block : Msg
block = record { addr = 0x50; flags = 0x401; len = 1; buf = [] }

smb_wait_done_example : Completes (smb_wait_done (λ t. 1) 6 smbus (steady 0x4000) [])
smb_wait_done_example =
    smb_wait_done-Completes (λ t. 1) 6 smbus (steady 0x4000) [] (steady-Clock 0x4000)
      (record { reads = λ h map reg. cc; writes = λ h map reg v. cc })
      (omega arith, omega arith, omega arith, omega arith) (omega arith) (omega arith)

recover_bus_example : Completes (recover_bus (λ t. 1) 6 smbus (steady 0x4000) [])
recover_bus_example =
    recover_bus-Completes (λ t. 1) 6 smbus (steady 0x4000) [] (steady-Clock 0x4000)
      (record { reads = λ h map reg. cc; writes = λ h map reg v. cc })
      (omega arith, omega arith, omega arith, omega arith) (omega arith) (omega arith)

smb_xfer_example :
    Reports (smb_xfer (λ t. 1) 5 smbus address (some block) (steady 7) [])
    × (511 < msglen address (some block)
        → smb_xfer (λ t. 1) 5 smbus address (some block) (steady 7) [] ≡ (err einval, []))
smb_xfer_example =
    smb_xfer-Reports (λ t. 1) 5 smbus address (some block) (steady 7) [] (omega arith)
