-- ===== src/Gpio/ProbeLaws.antt =====
-- What the probe of the GPIO driver leaves: the adapter, the type of the reboot, and the registers.
use mathlib.Core.Path.{subst, subst⁻¹}
use cisco_8000_kernel_module.Common.{
  leb, ◌==◌, if◌then◌else◌, Bool-cases, length, All, ℕ, zero, suc, ◌+◌, ◌%◌, ◌≤◌, ◌&&◌, ◌≡◌, refl,
  ap, inl, inr, Bool, true, false, Option, none, some, List, map, arith,
}
use cisco_8000_kernel_module.Env.{
  History, Result, Env, M, pure, ◌>>=◌, ◌>>◌, attempt, regmap_write, enomem, ReadsWords,
  Result-cases, ok, err,
}
use cisco_8000_kernel_module.Env.Rules.{Post, Post-err, Gives, Gives-bind, Gives-any}
use cisco_8000_kernel_module.Bits.{bit_and_mask}
use cisco_8000_kernel_module.Gpio.Regs.{sw1, cfg0, max_gpios, IsAdapter}
use cisco_8000_kernel_module.Gpio.Scan.{scan_pins, PinSearch, Searches}
use cisco_8000_kernel_module.Gpio.Descriptor.{Scanner, fill_entries, gpio_init}
use cisco_8000_kernel_module.Gpio.InitLaws.{
  IsPin, scan_pins-IsPin, IsEntry, AreEntries, fill_entries-AreEntries, sorted-IsPin,
}
use cisco_8000_kernel_module.Gpio.Probe.{
  get_reboot_type, settle_reboot, get_reboot_type_str, clear_reboot_type, identity_from, line_count,
  fill_off, Probed, gpio_probe,
}

-- The assumption that a property read with room for `n` strings gives `n` of them.
abbrev pub ReadsAll : (ℕ → Result (List (List ℕ))) → Type 0
ReadsAll f = (n : ℕ) (ds : List (List ℕ)) → f n ≡ ok ds → length ds ≡ n

gpio_init-AreEntries :
    (env : Env) (k : Scanner) (s : PinSearch) (map reboot n : ℕ) (desc : Bool)
    (f : ℕ → Result (List (List ℕ))) (k_table : Bool)
    → Searches s
    → ReadsWords env
    → ReadsAll f
    → Gives env (AreEntries n) (gpio_init k s map reboot desc (f n) k_table)
unfolding gpio_init
gpio_init-AreEntries env k s map reboot n false f k_table ss w r h = tt
gpio_init-AreEntries env k s map reboot n true f k_table ss w r h = elim (Result-cases (f n)) [
  | inr (x, e) ↦ Post-err (AreEntries n) run x (ground arith)
  | inl (ds, e) ↦ elim (Bool-cases k_table) [
    | inr no_table ↦ Post-err (AreEntries n) run enomem (ground arith)
    | inl table ↦
        let m : M (List ℕ) = scan_pins map >>= λ t. fill_entries k s map reboot (s.sort t) ds in
        let step : run ≡ (m env h).0 = ground arith in
        subst⁻¹ entries step (
          Gives-bind env (All IsPin) (AreEntries n) (scan_pins map)
            (λ t. fill_entries k s map reboot (s.sort t) ds) (scan_pins-IsPin env map w)
            (λ t a.
              subst (λ j. Gives env (AreEntries j) (fill_entries k s map reboot (s.sort t) ds))
                (r n ds e)
                (fill_entries-AreEntries env k s map reboot (s.sort t) ds ss
                  (sorted-IsPin s t ss a)))
            h)
  ]
]
  where
    entries : Result (List ℕ) → Type 0
    entries = Post (AreEntries n)

    run : Result (List ℕ)
    run = (gpio_init k s map reboot true (f n) k_table env h).0

identity_from-AreEntries :
    (left e : ℕ) → left + e ≤ max_gpios → AreEntries left (identity_from left e)
identity_from-AreEntries zero e p = (refl, tt)
identity_from-AreEntries (suc left) e p =
    let rest = identity_from-AreEntries left (suc e) (omega arith) in
    (ap suc rest.0, (omega arith, rest.1))

-- The types of a reboot: cold, fast and warm.
abbrev pub IsReboot : ℕ → Type 0
IsReboot t = (1 ≤ t) × (t ≤ 3)

-- The type that a module parameter and an outcome of reading the scratch register come to: the
-- parameter if it is a type, else the lower two bits of the register if they are one, else cold.
abbrev pub resolved : ℕ → Result ℕ → ℕ
resolved given r =
    let held : ℕ = elim r [ ok v ↦ if v % 4 == 0 then 1 else v % 4 | err _ ↦ 1 ] in
    if leb 1 given && leb given 3 then given else held

resolved-IsReboot : (given : ℕ) (r : Result ℕ) → IsReboot (resolved given r)
resolved-IsReboot given (ok v) = ground arith
resolved-IsReboot given (err x) = ground arith

settle_reboot-resolved :
    (env : Env) (map given : ℕ) (h : History)
    → (settle_reboot map given env h).0 ≡ ok (resolved given (env.read_answer h map sw1))
unfolding settle_reboot get_reboot_type
settle_reboot-resolved env map given h = elim (Result-cases (env.read_answer h map sw1)) [
  | inl (v, e) ↦ ground (arith, bit_and_mask v 2)
  | inr (x, e) ↦ ground arith
]

-- The probe settles on one of the three types of reboot, 1 to 3, so that BUG_ON of `get_reboot_type_str`
-- does not fire: the module parameter if it is one of them, else the lower two bits of the scratch
-- register `sw1` if it can be read and they are one of them, and else 1, a cold reboot.
pub settle_reboot-IsReboot :
    (env : Env) (map given : ℕ) (h : History)
    → (let t = resolved given (env.read_answer h map sw1) in
        ((settle_reboot map given env h).0 ≡ ok t)
        × IsReboot t
        × (get_reboot_type_str t env h ≡ (ok tt, h)))
unfolding get_reboot_type_str
settle_reboot-IsReboot env map given h =
    let good = resolved-IsReboot given (env.read_answer h map sw1) in
    (settle_reboot-resolved env map given h, good, ground (arith, good))

-- An adapter that the callbacks of the lines can use.
abbrev pub IsProbed : Probed → Type 0
IsProbed p =
    IsAdapter p.adapter
    × (p.adapter.ngpio ≤ max_gpios)
    × All IsEntry p.adapter.off
    × IsReboot p.reboot_type

line_count_le : (c : Result ℕ) → line_count c ≤ max_gpios
unfolding line_count
line_count_le (ok n) = ground arith
line_count_le (err x) = omega arith

fill_off-AreEntries :
    (env : Env) (k : Scanner) (s : PinSearch) (map reboot : ℕ) (count : Result ℕ) (desc : Bool)
    (f : ℕ → Result (List (List ℕ))) (k_table : Bool)
    → Searches s
    → ReadsWords env
    → ReadsAll f
    → Gives env (AreEntries (line_count count)) (fill_off k s map reboot count desc f k_table)
unfolding fill_off line_count
fill_off-AreEntries env k s map reboot (ok n) desc f k_table ss w r h =
    gpio_init-AreEntries env k s map reboot (line_count (ok n)) desc f k_table ss w r h
fill_off-AreEntries env k s map reboot (err e) desc f k_table ss w r h =
    identity_from-AreEntries max_gpios 0 (omega arith)

settle_reboot-Gives : (env : Env) (map given : ℕ) → Gives env IsReboot (settle_reboot map given)
settle_reboot-Gives env map given h =
    subst⁻¹ (Post IsReboot) (settle_reboot-resolved env map given h)
      (resolved-IsReboot given (env.read_answer h map sw1))

-- The last steps of the probe.
finish :
    (env : Env) (map irq n reboot : ℕ) (off : List ℕ)
    → n ≤ max_gpios
    → IsReboot reboot
    → AreEntries n off
    → Gives env IsProbed (
        regmap_write map cfg0 0
        >> pure (record {
          adapter = record { map = map; irq = irq; ngpio = n; off = off };
          reboot_type = reboot;
        }))
finish env map irq n reboot off le r a =
    Gives-bind env (λ u. Unit {0}) IsProbed (regmap_write map cfg0 0)
      (λ u. pure (record {
        adapter = record { map = map; irq = irq; ngpio = n; off = off };
        reboot_type = reboot;
      }))
      (Gives-any env (regmap_write map cfg0 0)) (λ u _ h. (a.0, le, a.1, r))

-- If the probe succeeds, the table of lines has as many entries as the adapter has lines, at most
-- 1022, and no entry is beyond 1022, the mark of a line without a pin; and the type of the reboot is
-- one of the three. Reads give words of 32 bits, and a property read gives all the strings it has room
-- for.
gpio_probe-IsProbed :
    (env : Env) (k : Scanner) (s : PinSearch) (r : Option ℕ) (irq given : ℕ) (count : Result ℕ)
    (desc : Bool) (f : ℕ → Result (List (List ℕ))) (k_table : Bool)
    → Searches s
    → ReadsWords env
    → ReadsAll f
    → Gives env IsProbed (gpio_probe k s r irq given count desc f k_table)
unfolding gpio_probe
gpio_probe-IsProbed env k s none irq given count desc f k_table ss w ra = λ h. tt
gpio_probe-IsProbed env k s (some map) irq given count desc f k_table ss w ra =
    Gives-bind env IsReboot IsProbed (settle_reboot map given)
      (λ t.
        get_reboot_type_str t >> (attempt (clear_reboot_type map) >>= λ _. (lines t >>= last t)))
      (settle_reboot-Gives env map given)
      (λ t rt.
        Gives-bind env (λ u. Unit {0}) IsProbed (get_reboot_type_str t)
          (λ _. attempt (clear_reboot_type map) >>= λ _. (lines t >>= last t))
          (Gives-any env (get_reboot_type_str t))
          (λ _ _.
            Gives-bind env (λ u. Unit {0}) IsProbed (attempt (clear_reboot_type map))
              (λ _. lines t >>= last t) (Gives-any env (attempt (clear_reboot_type map)))
              (λ _ _.
                Gives-bind env (AreEntries (line_count count)) IsProbed (lines t) (last t)
                  (fill_off-AreEntries env k s map t count desc f k_table ss w ra)
                  (λ off a.
                    finish env map irq (line_count count) t off (line_count_le count) rt a))))
  where
    lines : ℕ → M (List ℕ)
    lines t = fill_off k s map t count desc f k_table

    last : ℕ → List ℕ → M Probed
    last t off =
        regmap_write map cfg0 0
        >> pure (record {
          adapter = record { map = map; irq = irq; ngpio = line_count count; off = off };
          reboot_type = t;
        })
