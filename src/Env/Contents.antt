-- ===== src/Env/Contents.antt =====
-- Registers as memory: what a driver's writes leave in the registers of a regmap.
use cisco_8000_kernel_module.Common.{
  ◌==◌, if◌then◌else◌, ℕ, bit_and, bit_or, ◌≡◌, ◌&&◌, [], ◌∷◌, map,
}
use cisco_8000_kernel_module.Env.{History, Env, write, update_bits, ok}
use cisco_8000_kernel_module.Reg.{not32}

-- The registers of a regmap after a run whose requests have all succeeded, from what they held.
abbrev pub contents : (ℕ → ℕ) → ℕ → History → ℕ → ℕ
contents held map [] reg = held reg
contents held map (write m r v ∷ h) reg =
    if m == map && r == reg then v else contents held map h reg
contents held map (update_bits m r mask v ∷ h) reg =
    let old = contents held map h reg in
    if m == map && r == reg then bit_or (bit_and old (not32 mask)) (bit_and v mask) else old
contents held map (_ ∷ h) reg = contents held map h reg

-- Registers that nothing but the driver changes, and requests that do not fail.
pub record Memory (held : ℕ → ℕ) (map : ℕ) (env : Env) : Type 0 where
  pub recalls : (h : History) (reg : ℕ) → env.read_answer h map reg ≡ ok (contents held map h reg)
  pub stores : (h : History) (reg v : ℕ) → env.write_answer h map reg v ≡ ok tt
  pub updates : (h : History) (reg m v : ℕ) → env.update_answer h map reg m v ≡ ok tt
