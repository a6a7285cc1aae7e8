-- ===== src/Msd/NotifyLaws.antt =====
-- The notifier of the MSD block, and what its notifications leave in the registers.
use mathlib.Core.Path.{subst⁻¹}
use cisco_8000_kernel_module.Common.{
  ◌==◌, if◌then◌else◌, ==_iff, Bool-cases, ℕ, ◌^◌, bit_and, bit_or, ◌≡◌, refl, inl, inr, true, ◌||◌,
  Option, none, some, ◌∷◌, map, arith,
}
use cisco_8000_kernel_module.Env.{History, Env, read, update_bits, ok, err}
use cisco_8000_kernel_module.Env.Contents.{Memory}
use cisco_8000_kernel_module.Bits.{testbit-bit_and, testbit-bit_or, eq_of_testbit, testbit-zero}
use cisco_8000_kernel_module.Reg.{bit}
use cisco_8000_kernel_module.Reboot.Notify.{
  Notifier, sys_restart, sys_halt, sys_power_off, regmap_update, action_of, reboot_notifier,
  init_action, Properties, init_notifier, register_reboot_notifier,
}
use cisco_8000_kernel_module.Msd.Probe.{msd_cfg7, msd_action, msd_reboot_info}

-- A device without properties about reboots.
abbrev pub no_properties : ℕ → Properties
no_properties e = record {
  probe = err e;
  enable = err e;
  restart = err e;
  halt = err e;
  power_off = err e;
  priority = err e;
}

-- The notifier that the probe registers.
abbrev pub msd_notifier : Notifier
msd_notifier = record {
  notifier_mode = 14;
  priority = 32;
  restart = msd_reboot_info.restart;
  halt = msd_reboot_info.halt;
  power_off = msd_reboot_info.poweroff;
}

pub register_msd :
    (map e : ℕ) (env : Env) (h : History)
    → register_reboot_notifier
        (some map)
        (some msd_reboot_info)
        (no_properties e)
        true
        (ok tt)
        env
        h
      ≡ (ok (some msd_notifier), h)
unfolding register_reboot_notifier init_notifier init_action
register_msd map e env h = refl

-- What the two updates of an action leave of a word.
abbrev pub cycled : ℕ → ℕ → ℕ
cycled old value =
    let cleared : ℕ = bit_or (bit_and old (bit 11)) (bit_and 0 0xfffff7ff) in
    bit_or (bit_and cleared (bit 11)) (bit_and value 0xfffff7ff)

pub cycled_lem :
    (old k : ℕ) → cycled old (2 ^ k) ≡ bit_or (bit_and old (bit 11)) (bit_and (2 ^ k) 0xfffff7ff)
cycled_lem old k = eq_of_testbit _ _ (λ i. ground (
  arith,
  testbit-bit_or (bit_and (bit_or (bit_and old (2 ^ 11)) 0) (2 ^ 11)) (bit_and (2 ^ k) 0xfffff7ff)
      i,
  testbit-bit_or (bit_and old (2 ^ 11)) (bit_and (2 ^ k) 0xfffff7ff) i,
  testbit-bit_and (bit_or (bit_and old (2 ^ 11)) 0) (2 ^ 11) i,
  testbit-bit_or (bit_and old (2 ^ 11)) 0 i,
  testbit-bit_and old (2 ^ 11) i,
  testbit-zero i,
))

pub bit_or-zero : (x : ℕ) → bit_or x 0 ≡ x
bit_or-zero x = eq_of_testbit _ _ (λ i. ground (arith, testbit-bit_or x 0 i, testbit-zero i))

msd_update :
    (held : ℕ → ℕ) (map k : ℕ) (env : Env) (h : History)
    → Memory held map env
    → regmap_update (some map) (msd_action (2 ^ k)) env h ≡ (
      ok tt,
      update_bits map msd_cfg7 0xfffff7ff (2 ^ k)
          ∷ update_bits map msd_cfg7 0xfffff7ff 0
          ∷ read map msd_cfg7
          ∷ h,
    )
unfolding regmap_update
msd_update held map k env h mem =
    let h1 : History = read map msd_cfg7 ∷ h in
    ground (
      arith,
      mem.recalls h msd_cfg7,
      mem.updates h1 msd_cfg7 0xfffff7ff 0,
      mem.updates (update_bits map msd_cfg7 0xfffff7ff 0 ∷ h1) msd_cfg7 0xfffff7ff (2 ^ k),
    )

-- The bit that a notification sets in `cfg7`.
abbrev pub cycle_bit : ℕ → Option ℕ
cycle_bit mode =
    if mode == sys_restart
    then some 10
    else (if mode == sys_halt || mode == sys_power_off then some 3 else none)

abbrev pub cycled_history : ℕ → Option ℕ → History → History
cycled_history map none h = h
cycled_history map (some k) h =
    update_bits map msd_cfg7 0xfffff7ff (2 ^ k)
    ∷ update_bits map msd_cfg7 0xfffff7ff 0
    ∷ read map msd_cfg7
    ∷ h

pub notify_msd :
    (held : ℕ → ℕ) (map mode : ℕ) (env : Env) (h : History)
    → Memory held map env
    → reboot_notifier (some map) msd_notifier mode env h
      ≡ (ok 0, cycled_history map (cycle_bit mode) h)
unfolding reboot_notifier action_of
notify_msd held map mode env h mem = elim (Bool-cases (mode == sys_restart)) [
  | inl is ↦
      subst⁻¹ same ((==_iff mode sys_restart).0 is)
        (ground (arith, msd_update held map 10 env h mem))
  | inr not_restart ↦ elim (Bool-cases (mode == sys_halt)) [
    | inl is ↦
        subst⁻¹ same ((==_iff mode sys_halt).0 is) (ground (arith, msd_update held map 3 env h mem))
    | inr not_halt ↦ elim (Bool-cases (mode == sys_power_off)) [
      | inl is ↦
          subst⁻¹ same ((==_iff mode sys_power_off).0 is)
            (ground (arith, msd_update held map 3 env h mem))
      | inr other ↦ ground arith
    ]
  ]
]
  where
    same : ℕ → Type 0
    same m =
        reboot_notifier (some map) msd_notifier m env h ≡ (ok 0, cycled_history map (cycle_bit m) h)
