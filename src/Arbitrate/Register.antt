-- ===== src/Arbitrate/Register.antt =====
-- `cisco_i2c_register` of drivers/cisco/i2c-arbitrate.c.
use cisco_8000_kernel_module.Common.{
  get_or, ℕ, suc, Bool, true, false, Option, none, some, List, [], ◌∷◌,
}
use cisco_8000_kernel_module.Env.{Done, M, pure, lift, ◌>>=◌, ◌>>◌, attempt, emit, lock, unlock}
use cisco_8000_kernel_module.Arbitrate.State.{Arb}
use cisco_8000_kernel_module.Arbitrate.Bus.{
  arb_lock_bus, arb_unlock_bus, noarb_lock_bus, noarb_unlock_bus,
}
use cisco_8000_kernel_module.Arbitrate.Config.{LockOps, Adapters, default_ops, arb_ops, noarb_ops}

-- The answers of `i2c_add_adapter` and `devm_add_action_or_reset` for an adapter, and of
-- `devm_device_add_groups` with or without the settings of arbitration.
pub record I2cCore : Type 0 where
  pub added : ℕ → Done
  pub action : ℕ → Done
  pub groups : Bool → Done

module _ (to_msecs : ℕ → ℕ) (fuel : ℕ) where
  -- `i2c_lock_bus` and `i2c_unlock_bus` through the adapter's operations. An adapter without any is the
  -- only one, and its own lock is the one that `bus_lock` points to.
  unfoldable pub lock_bus : LockOps → Arb → M Arb
  lock_bus default_ops hw = emit (lock hw.bus_lock) >> pure hw
  lock_bus arb_ops hw = arb_lock_bus to_msecs fuel hw
  lock_bus noarb_ops hw = noarb_lock_bus hw >> pure hw

  unfoldable pub unlock_bus : LockOps → Arb → M Arb
  unlock_bus default_ops hw = emit (unlock hw.bus_lock) >> pure hw
  unlock_bus arb_ops hw = arb_unlock_bus hw
  unlock_bus noarb_ops hw = noarb_unlock_bus hw >> pure hw

  -- The callback `reset` on the adapter `i`, under the lock of its bus.
  unfoldable pub reset_adapter : Option (ℕ → M (Unit {0})) → ℕ → LockOps → Arb → M Arb
  reset_adapter none i ops hw = pure hw
  reset_adapter (some reset) i ops hw = do
    hw1 ← lock_bus ops hw
    e ← attempt (reset i)
    hw2 ← unlock_bus ops hw1
    lift e
    pure hw2

  -- The loop over the adapters from `i` on.
  unfoldable pub register_from :
      I2cCore → Option (ℕ → M (Unit {0})) → ℕ → List LockOps → Arb → M Arb
  register_from k reset i [] hw = pure hw
  register_from k reset i (ops ∷ rest) hw = do
    lift (k.added i)
    lift (k.action i)
    hw' ← reset_adapter reset i ops hw
    register_from k reset (suc i) rest hw'

  -- `cisco_i2c_register`; the first adapter decides which groups are added.
  unfoldable pub i2c_register : I2cCore → Option (ℕ → M (Unit {0})) → Adapters → M Arb
  i2c_register k reset a = do
    hw ← register_from k reset 0 a.lock_ops a.arb
    lift (
        k.groups (elim (get_or a.lock_ops 0 default_ops) [
          | arb_ops ↦ true
          | default_ops ↦ false
          | noarb_ops ↦ false
        ]))
    pure hw
