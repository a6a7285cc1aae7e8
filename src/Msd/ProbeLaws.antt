-- ===== src/Msd/ProbeLaws.antt =====
-- What the registers hold after the probe of the MSD block and the reboot that follows it.
use mathlib.Core.Path.{subst⁻¹}
use cisco_8000_kernel_module.Common.{
  false, zero, suc, ◌%◌, leb, ◌==◌, if◌then◌else◌, Bool-cases, ℕ, bit_and, bit_or, ◌≡◌, refl, inl,
  inr, Bool, true, not, ◌&&◌, ◌||◌, Option, none, some, ◌∷◌, map, arith,
}
use cisco_8000_kernel_module.Env.{History, Result, Env, M, pure, read, write, update_bits, ok, err}
use cisco_8000_kernel_module.Env.Contents.{contents, Memory}
use cisco_8000_kernel_module.Reg.{get_lem, not32, bit, reg_mask, reg_mask_lo, reg_set, get, put}
use cisco_8000_kernel_module.Header.Scratch.{info0_reg, info0_major_ver}
use cisco_8000_kernel_module.Reboot.Notify.{
  Notifier, sys_restart, sys_halt, sys_power_off, reboot_notifier,
}
use cisco_8000_kernel_module.Msd.Ready.{msd_cfg5}
use cisco_8000_kernel_module.Msd.Probe.{
  msd_cfg7, msd_scratchram, msd_master_select, master_x86, msd_active, Platform, init_active,
  msd_probe,
}
use cisco_8000_kernel_module.Msd.NotifyLaws.{
  no_properties, msd_notifier, register_msd, cycled_lem, bit_or-zero, cycle_bit, cycled_history,
  notify_msd,
}

-- A platform with this device, where the kernel grants what the probe asks for.
abbrev pub plain : Option ℕ → Option ℕ → Result ℕ → ℕ → Platform
plain cell id_entry standby e = record {
  cell = cell;
  id_entry = id_entry;
  standby = standby;
  added = λ _. ok tt;
  properties = no_properties e;
  allocated = true;
  registered = ok tt;
}

-- The history after the requests of an active block.
abbrev inited : ℕ → History → History
inited map h =
    read map msd_scratchram
    ∷ update_bits map msd_cfg5 (bit 10) 0
    ∷ read map msd_scratchram
    ∷ write map msd_scratchram 0
    ∷ h

-- The kernel calls the notifier, if one is registered.
abbrev pub reboot : ℕ → Option Notifier → ℕ → M ℕ
reboot map none mode = pure 0
reboot map (some n) mode = reboot_notifier (some map) n mode

-- What the driver makes of a register's word: an active block of version 5 or later has its scratch
-- memory's first word cleared, the x86 processor selected as the master of the I2C bus, and at a
-- restart, a halt or a power-off `cfg7` overwritten but for bit 11.
abbrev pub rebooted : Bool → ℕ → ℕ → ℕ → ℕ
rebooted armed mode reg old =
    let cycle : ℕ =
      if mode == sys_restart
      then bit_or (bit_and old (bit 11)) (bit 10)
      else (if mode == sys_halt || mode == sys_power_off
          then bit_or (bit_and old (bit 11)) (bit 3)
          else old) in
    if armed
    then (if reg == 0x100
        then 0
        else (if reg == 0x34
            then bit_and old (not32 (bit 10))
            else (if reg == 0x3c then cycle else old)))
    else old

-- What the device says: it is on standby if its property "standby" can be read and is not 0; otherwise
-- the byte of its platform data says whether it is active, without one the entry that it has matched,
-- and without either it is.
abbrev pub says_active : Option ℕ → Option ℕ → Result ℕ → Bool
says_active cell id_entry (ok (suc v)) = false
says_active (some zero) id_entry _ = false
says_active (some (suc b)) id_entry _ = true
says_active none (some d) _ = not (d % 256 == 0)
says_active none none _ = true

-- An active block whose version, the lower six bits of its header, is 5 or later.
abbrev pub is_armed : ℕ → Option ℕ → Option ℕ → Result ℕ → Bool
is_armed info0 cell id_entry standby = says_active cell id_entry standby && leb 5 (info0 % 64)

msd_active-says_active :
    (cell id_entry : Option ℕ) (standby : Result ℕ)
    → not (msd_active cell id_entry standby == 0) ≡ says_active cell id_entry standby
unfolding msd_active
msd_active-says_active cell id_entry (ok (suc v)) = ground arith
msd_active-says_active (some zero) id_entry (ok zero) = ground arith
msd_active-says_active (some zero) id_entry (err e) = ground arith
msd_active-says_active (some (suc b)) id_entry (ok zero) = ground arith
msd_active-says_active (some (suc b)) id_entry (err e) = ground arith
msd_active-says_active none (some d) (ok zero) = ground arith
msd_active-says_active none (some d) (err e) = ground arith
msd_active-says_active none none (ok zero) = ground arith
msd_active-says_active none none (err e) = ground arith

master_select_x86 :
    (reg_mask_lo msd_master_select.hi msd_master_select.lo ≡ bit 10)
    × (put msd_master_select master_x86 ≡ 0)
unfolding reg_mask_lo reg_mask put reg_set
master_select_x86 = (refl, refl)

init_active_lem :
    (held : ℕ → ℕ) (map : ℕ) (cell id_entry : Option ℕ) (standby : Result ℕ) (e : ℕ) (env : Env)
    (h : History)
    → Memory held map env
    → init_active map (plain cell id_entry standby e) env h ≡ (ok (some msd_notifier), inited map h)
unfolding init_active
init_active_lem held map cell id_entry standby e env h mem =
    ground (
      arith,
      mem.stores h msd_scratchram 0,
      master_select_x86,
      register_msd map e env (inited map h),
    )

-- The probe and then the notification of a reboot.
abbrev pub after_probe : ℕ → ℕ → Env → Result (Option Notifier) × History → Result ℕ × History
after_probe map mode env (ok n, h) = reboot map n mode env h
after_probe map mode env (err e, h) = (err e, h)

-- The run succeeds, and a register holds what `f` makes of its word.
abbrev pub Leaves : (ℕ → ℕ) → ℕ → (ℕ → ℕ → ℕ) → History → Result ℕ × History → Type 0
Leaves held map f h (r, h') =
    (r ≡ ok 0) × ((reg : ℕ) → contents held map h' reg ≡ f reg (contents held map h reg))

-- The probe of the MSD block followed by a reboot, for a device without properties about reboots, while
-- the registers keep what is written and the kernel grants what the probe asks for. Both succeed. The
-- block is on standby if the property "standby" can be read and is not 0, or else if the byte of its
-- platform data is 0, or, without that, the one of the entry that it has matched; otherwise it is
-- active. On a standby block and on one whose version, the lower six bits of its first register, is
-- below 5 no register changes. On any other the first word of the scratch memory is 0 and the x86
-- processor is the master of the I2C bus; in `cfg7` a restart leaves bit 10 set, a halt or a power-off
-- bit 3, all others but bit 11 are then 0, and any other notification changes nothing; every other
-- register, and bit 11 of `cfg7`, is as before.
pub msd_probe-rebooted :
    (held : ℕ → ℕ) (map : ℕ) (cell id_entry : Option ℕ) (standby : Result ℕ) (e mode : ℕ)
    (env : Env) (h : History)
    → Memory held map env
    → (let p = plain cell id_entry standby e in
        Leaves held map
          (rebooted (is_armed (contents held map h 0) cell id_entry standby) mode)
          h
          (after_probe map mode env (msd_probe map p env h)))
unfolding msd_probe
msd_probe-rebooted held map cell id_entry standby e mode env h mem =
    elim (Bool-cases (is_armed v cell id_entry standby)) [
      | inr idle ↦
          let step : run ≡ (ok 0, h1) = ground (arith, mem.recalls h info0_reg, known, version) in
          subst⁻¹ leaves step (refl, λ reg. ground arith)
      | inl armed ↦
          let step : run ≡ (ok 0, cycled_history map (cycle_bit mode) (inited map h1)) = ground (
            arith,
            mem.recalls h info0_reg,
            known,
            version,
            init_active_lem held map cell id_entry standby e env h1 mem,
            notify_msd held map mode env (inited map h1) mem,
          ) in
          subst⁻¹ leaves step (notified (is_armed v cell id_entry standby) armed)
    ]
  where
    p : Platform
    p = plain cell id_entry standby e

    v : ℕ
    v = contents held map h info0_reg

    known : not (msd_active cell id_entry standby == 0) ≡ says_active cell id_entry standby
    known = msd_active-says_active cell id_entry standby

    version : get info0_major_ver v ≡ v % 64
    version = omega (arith, get_lem info0_major_ver v (omega arith, omega arith))

    h1 : History
    h1 = read map info0_reg ∷ h

    run : Result ℕ × History
    run = after_probe map mode env (msd_probe map p env h)

    leaves : Result ℕ × History → Type 0
    leaves = Leaves held map (rebooted (is_armed v cell id_entry standby) mode) h

    old : ℕ → ℕ
    old reg = contents held map h reg

    notified :
        (b : Bool)
        → b ≡ true
        → Leaves held map
            (rebooted b mode)
            h
            (ok 0, cycled_history map (cycle_bit mode) (inited map h1))
    notified b armed = (
      refl,
      λ reg. ground (
        arith,
        cycled_lem (old msd_cfg7) 10,
        cycled_lem (old msd_cfg7) 3,
        bit_or-zero (bit_and (old msd_cfg5) (not32 (bit 10))),
      ),
    )
