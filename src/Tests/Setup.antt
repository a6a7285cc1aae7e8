-- ===== src/Tests/Setup.antt =====
-- The set-up of the GPIO lines.
use mathlib.Core.List.{Memᴰ}
use cisco_8000_kernel_module.Common.{
  ◌==◌, if◌then◌else◌, ==_iff, Bool-cases, ℕ, zero, suc, ◌≡◌, sym, ap, ◌∙◌, inl, inr, true, Option,
  none, some, List, [], ◌∷◌, map, arith,
}
use cisco_8000_kernel_module.Env.{ReadsWords, ok}
use cisco_8000_kernel_module.Env.Rules.{changes}
use cisco_8000_kernel_module.Gpio.Scan.{Element, k_cmp, PinSearch, Searches}
use cisco_8000_kernel_module.Gpio.Descriptor.{Scanner, warm_reboot, gpio_init}
use cisco_8000_kernel_module.Gpio.DescriptorLaws.{gpio_init-IsQuiet}
use cisco_8000_kernel_module.Gpio.Probe.{settle_reboot, get_reboot_type_str}
use cisco_8000_kernel_module.Gpio.ProbeLaws.{IsReboot, resolved, settle_reboot-IsReboot}
use cisco_8000_kernel_module.Tests.Machines.{steady}

-- A search from the front, in a table that is not sorted.
linear : ℕ → List Element → Option Element
linear key [] = none
linear key (e ∷ t) = let rest = linear key t in if k_cmp key e.pin_id == 0 then some e else rest

linear-found :
    (key : ℕ) (t : List Element) (e : Element)
    → linear key t ≡ some e
    → Memᴰ e t × (k_cmp key e.pin_id ≡ 0)
unfolding linear
linear-found key [] e h = ground arith
linear-found key (x ∷ t) e h = elim (Bool-cases (k_cmp key x.pin_id == 0)) [
  | inl same ↦
      let this : x ≡ e = ground arith in
      (Memᴰ.head (sym this), ap (k_cmp key) (ap (λ y. y.pin_id) (sym this)) ∙ (==_iff _ 0).0 same)
  | inr other ↦ let later = linear-found key t e (ground arith) in (Memᴰ.tail later.0, later.1)
]

abbrev searching : PinSearch
searching = record { sort = λ t. t; bsearch = linear }

searching-Searches : Searches searching
searching-Searches = record { sorted = λ t e i. i; found = linear-found }

steady-ReadsWords : ReadsWords (steady 0x800)
steady-ReadsWords h map reg v e = ground arith

-- A scanner that reads pin 0x800, a comma, and that the interrupt is enabled.
abbrev scanner : Scanner
scanner = record {
  numbers = λ d. some (record { group_id = 0; pin_id = 0x800; active_low = 0; seen = some 8 });
  enable = λ d. some (record { int_enb = 1; seen = some 2 });
  unset = 0;
  beyond = [];
}

-- "a,0,2048,0,in,1,any-edge"
abbrev descriptor : List ℕ
descriptor =
    97 ∷ 44 ∷ 48 ∷ 44 ∷ 50 ∷ 48 ∷ 52 ∷ 56 ∷ 44 ∷ 48 ∷ 44 ∷ 105 ∷ 110 ∷ 44 ∷ 49 ∷ 44 ∷ 97 ∷ 110 ∷ 121
    ∷ 45 ∷ 101 ∷ 100 ∷ 103 ∷ 101 ∷ []

-- As many repeated as are asked for.
abbrev repeated : ℕ → List (List ℕ)
repeated zero = []
repeated (suc n) = descriptor ∷ repeated n

gpio_init_example :
    changes
      (gpio_init scanner searching 2 warm_reboot true (ok (repeated 3)) true (steady 0x800) []).1
    ≡ 0
gpio_init_example =
    gpio_init-IsQuiet (steady 0x800) scanner searching 2 warm_reboot
      (λ e. absurd (omega (arith, e))) true (ok (repeated 3)) true []

-- The scratch register names the type 3, which there is not.
settle_reboot_example :
    ((settle_reboot 2 0 (steady 0x803) []).0 ≡ ok (resolved 0 (ok 0x803)))
    × IsReboot (resolved 0 (ok 0x803))
    × (get_reboot_type_str (resolved 0 (ok 0x803)) (steady 0x803) [] ≡ (ok tt, []))
settle_reboot_example = settle_reboot-IsReboot (steady 0x803) 2 0 []
