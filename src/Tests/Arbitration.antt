-- ===== src/Tests/Arbitration.antt =====
-- Arbitration over a bus whose peer does not answer.
use cisco_8000_kernel_module.Common.{
  leb, ◌==◌, if◌then◌else◌, ℕ, ◌/◌, ◌≡◌, refl, Bool, true, false, ◌&&◌, some, [], ◌∷◌, arith,
}
use cisco_8000_kernel_module.Env.{History, Env, M, einval, write, unlock, ok, err}
use cisco_8000_kernel_module.Arbitrate.State.{Arb, arbi}
use cisco_8000_kernel_module.Arbitrate.Bus.{obtain_arbitration, arb_unlock_bus}
use cisco_8000_kernel_module.Arbitrate.Laws.{
  Obtains, obtain_arbitration-Obtains, arb_unlock_bus_lem,
}
use cisco_8000_kernel_module.Arbitrate.Register.{I2cCore, register_from}
use cisco_8000_kernel_module.Arbitrate.RegisterLaws.{held, KeptLocked, Keeps, register_from-Keeps}
use cisco_8000_kernel_module.I2cExt.Regs.{Hw, rdata_v5_base}
use cisco_8000_kernel_module.I2cExt.Access.{i2c_reset}
use cisco_8000_kernel_module.Arbitrate.Config.{noarb_ops, Setup, i2c_init}
use cisco_8000_kernel_module.Arbitrate.ConfigLaws.{Configured, i2c_init-Configured}
use cisco_8000_kernel_module.Tests.Machines.{slept, steady, refusing, steady-Clock}

abbrev master : Arb
master = record {
  map = 1;
  info_map = some 2;
  bus_lock = 7;
  peer = 12;
  local = 8;
  index = 3;
  timeout_msecs = 4;
  peer_grant_msecs = 2;
  peer_retry_msecs = 1;
  timeout_jiffies = 4;
  peer_grant_jiffies = 2;
  peer_retry_jiffies = 1;
  disputed = 5;
  undisputed = 6;
  write_local_err = 0;
  read_peer_err = 0;
  read_arb_err = 0;
  write_arb_err = 0;
  expires = 0;
  total_wait_msecs = 0;
  max_wait_msecs = 0;
  min_wait_msecs = 4;
}

-- Every register reads as 1: the bus is taken, and stays so.
obtain_arbitration_example :
    (free : Bool) × Obtains free master (obtain_arbitration (λ t. t) 6 master (steady 1) [])
    × (free ≡ false)
obtain_arbitration_example =
    obtain_arbitration-Obtains (λ t. t) 6 master (steady 1) [] (steady-Clock 1)
      (omega arith, omega arith, omega arith, omega arith) (omega arith)

-- The peer asks for the bus and gives it up at the tick 3.
abbrev yielding : Env
yielding = record (steady 1) {
  read_answer = λ h map reg. if map == 2 && leb 3 (slept h / 1000) then ok 0 else ok 1;
}

arb_unlock_bus_example :
    (hw' : Arb) × (arb_unlock_bus master (refusing 8 1) []
      ≡ (ok hw', unlock 7 ∷ write 2 (arbi 3) 0 ∷ write 1 8 0 ∷ []))
    × (hw'.write_local_err ≡ 1)
arb_unlock_bus_example = arb_unlock_bus_lem master (refusing 8 1) []

abbrev shared_setup : Setup
shared_setup = record {
  multi_master = ok 1;
  arbitration_request = err einval;
  arbitration_index = ok 3;
  timeout = ok 500;
  peer_grant = err einval;
  peer_retry = err einval;
  block = some 1;
  handle = some 1;
  device = some (some 2);
  action = ok tt;
}

i2c_init_example :
    Configured (λ t. t) (i2c_init (λ t. t) shared_setup (ok 3) (ok tt) master (steady 0x10) [])
i2c_init_example = i2c_init-Configured (λ t. t) shared_setup (ok 3) (ok tt) master (steady 0x10) []

-- Every write stands between taking and giving back the lock.
abbrev guarded : History → Bool
guarded [] = true
guarded (write m r v ∷ h) = let before = guarded h in held 7 h && before
guarded (_ ∷ h) = guarded h

abbrev IsGuarded : History → Type 0
IsGuarded h = guarded h ≡ true

-- The reset of the I2C-EXT controller.
abbrev controller : Hw
controller = record {
  map = 1;
  ten_bit = false;
  bufsize = 512;
  rdata_ptr = rdata_v5_base;
  index = 0;
  timeout = 3;
  retries = 3;
}

abbrev reset_ext : ℕ → M (Unit {0})
reset_ext i = i2c_reset controller

reset_ext-KeptLocked : KeptLocked reset_ext (steady 1) 7 IsGuarded
unfolding i2c_reset
reset_ext-KeptLocked = record {
  by_lock = λ h p. p;
  by_unlock = λ h p. p;
  by_reset = λ i h taken p. ground arith;
}

abbrev granting : I2cCore
granting = record { added = λ i. ok tt; action = λ i. ok tt; groups = λ a. ok tt }

-- Two adapters are reset one after the other.
register_example :
    Keeps IsGuarded 7
      (register_from
        (λ t. t)
        6
        granting
        (some reset_ext)
        0
        (noarb_ops ∷ noarb_ops ∷ [])
        master
        (steady 1)
        []).1
register_example =
    register_from-Keeps (λ t. t) 6 granting reset_ext IsGuarded 0 (noarb_ops ∷ noarb_ops ∷ [])
      master (steady 1) [] ((λ e. ground arith), ((λ e. ground arith), tt)) reset_ext-KeptLocked
      (refl, refl)
