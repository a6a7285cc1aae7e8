-- ===== src/Tests/Devices.antt =====
-- The reboot notifier and the FPGA behind an I2C client.
use cisco_8000_kernel_module.Common.{some, [], arith}
use cisco_8000_kernel_module.Env.{einval, ok, err}
use cisco_8000_kernel_module.Reboot.Notify.{Action, regmap_update, Properties}
use cisco_8000_kernel_module.Reboot.UpdateLaws.{Updates, regmap_update-Updates}
use cisco_8000_kernel_module.Bmc.Bus.{Bmc}
use cisco_8000_kernel_module.Tests.Machines.{steady}

abbrev cycle : Action
cycle = record { reg = 0x40; mask = 0xff; value = 0x5a }

abbrev properties : Properties
properties = record {
  probe = err einval;
  enable = ok 1;
  restart = ok cycle;
  halt = err einval;
  power_off = err einval;
  priority = err einval;
}

regmap_update_example :
    Updates (λ reg. 0x1234) 2 cycle [] (regmap_update (some 2) cycle (steady 7) [])
regmap_update_example = regmap_update-Updates (λ reg. 0x1234) 2 cycle (steady 7) [] (omega arith)

abbrev client : Bmc
client = record { addr = 0x30; adapter = 4; base = 0x1000 }
