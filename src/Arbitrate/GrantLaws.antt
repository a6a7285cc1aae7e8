-- ===== src/Arbitrate/GrantLaws.antt =====
-- A bus that its peer gives up in time is obtained.
use cisco_8000_kernel_module.Common.{ℕ, map}
use cisco_8000_kernel_module.Env.{History, Result, Env, ok, err}
use cisco_8000_kernel_module.Arbitrate.State.{Arb}
use cisco_8000_kernel_module.Arbitrate.WaitLaws.{SameFaults, IsGranted}

-- A run that ends with the bus granted.
abbrev pub Grants : Env → ℕ → ℕ → Arb → Result Arb × History → Type 0
Grants env map reg hw (ok hw', h) = SameFaults hw hw' × IsGranted env map reg h
Grants env map reg hw (err e, h) = ⊥
