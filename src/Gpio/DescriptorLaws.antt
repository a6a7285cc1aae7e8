-- ===== src/Gpio/DescriptorLaws.antt =====
-- What a descriptor makes of a pin's register, and when nothing is written.
use mathlib.Core.Path.{subst⁻¹}
use cisco_8000_kernel_module.Common.{
  ◌==◌, if◌then◌else◌, Option-cases, drop, ℕ, zero, suc, ◌≡◌, refl, ap, ◌∙◌, ◌≢◌, ◌⊎◌, inl, inr,
  Bool, true, false, List, [], ◌∷◌, map, arith,
}
use cisco_8000_kernel_module.Env.{
  Result, Env, M, pure, lift, ◌>>=◌, ◌>>◌, attempt, regmap_read, regmap_write, einval, ok, err,
}
use cisco_8000_kernel_module.Env.Rules.{changes, IsQuiet, IsQuiet-bind}
use cisco_8000_kernel_module.Text.{same_string, index_of}
use cisco_8000_kernel_module.Reg.{get, replace, get-replace, get-replace_ne}
use cisco_8000_kernel_module.Gpio.Regs.{
  cfg_stat, mem0, int_type, dir, int_enb, dir_input, int_disable, int_enable, type_disabled,
  max_gpios,
}
use cisco_8000_kernel_module.Gpio.Scan.{Element, Found, scan_word, scan_from, scan_pins, PinSearch}
use cisco_8000_kernel_module.Gpio.Descriptor.{
  comma, text_disable, Numbers, Scanner, advance, seen_or, input_word, descriptor_word, cold_reboot,
  apply_descriptor, parse_descriptor, entry_of, fill_entries, gpio_init,
}

scan_from-IsQuiet : (env : Env) (map left e : ℕ) (f : Found) → IsQuiet env (scan_from map left e f)
unfolding scan_from
scan_from-IsQuiet env map zero e f = λ h. refl
scan_from-IsQuiet env map (suc left) e f =
    IsQuiet-bind env (regmap_read map (mem0 e)) (λ v. scan_from map left (suc e) (scan_word e v f))
      (λ h. refl) (λ v. scan_from-IsQuiet env map left (suc e) (scan_word e v f))

scan_pins-IsQuiet : (env : Env) (map : ℕ) → IsQuiet env (scan_pins map)
unfolding scan_pins
scan_pins-IsQuiet env map =
    IsQuiet-bind env (scan_from map max_gpios 0 (record { group = 0; pins = 0; table = [] }))
      (λ f. pure f.table)
      (scan_from-IsQuiet env map max_gpios 0 (record { group = 0; pins = 0; table = [] }))
      (λ f h. refl)

module _ (env : Env) (k : Scanner) (s : PinSearch) (map reboot : ℕ)
    (ne : reboot ≢ cold_reboot) where
  apply_descriptor-IsQuiet :
      (e : Element) (n : Numbers) (d : List ℕ) → IsQuiet env (apply_descriptor k map reboot e n d)
  unfolding apply_descriptor
  apply_descriptor-IsQuiet e n d =
      IsQuiet-bind env (regmap_read map (cfg_stat e.offset))
        (λ v. lift (word v) >>= λ w. (store_word w >> pure e.offset)) (λ h. refl)
        (λ v.
          IsQuiet-bind env (lift (word v)) (λ w. store_word w >> pure e.offset) (λ h. refl)
            (λ w.
              IsQuiet-bind env (store_word w) (λ u. pure e.offset) (λ h. ground arith)
                (λ u h. refl)))
    where
      word : ℕ → Result ℕ
      word v = descriptor_word k (seen_or n.seen k.unset) (advance k (seen_or n.seen k.unset) d) v

      store_word : ℕ → M (Unit {0})
      store_word w =
          if reboot == cold_reboot then regmap_write map (cfg_stat e.offset) w else pure tt

  parse_descriptor-IsQuiet :
      (t : List Element) (d : List ℕ) → IsQuiet env (parse_descriptor k s map reboot t d)
  unfolding parse_descriptor
  parse_descriptor-IsQuiet t d h = elim (Option-cases (index_of comma d)) [
    | inl e ↦ ground arith
    | inr (len, e) ↦ elim (Option-cases (k.numbers (drop (suc len) d))) [
      | inl e1 ↦ ground arith
      | inr (n, e1) ↦ elim (Option-cases (s.bsearch n.pin_id t)) [
        | inl e2 ↦ ground arith
        | inr (x, e2) ↦
            let step : (parse_descriptor k s map reboot t d env h).1
                ≡ (apply_descriptor k map reboot x n (drop (suc len) d) env h).1 =
              ground arith in
            ap changes step ∙ apply_descriptor-IsQuiet x n (drop (suc len) d) h
      ]
    ]
  ]

  fill_entries-IsQuiet :
      (t : List Element) (ds : List (List ℕ)) → IsQuiet env (fill_entries k s map reboot t ds)
  unfolding fill_entries
  fill_entries-IsQuiet t [] = λ h. refl
  fill_entries-IsQuiet t (d ∷ ds) =
      IsQuiet-bind env (attempt (parse_descriptor k s map reboot t d))
        (λ r. fill_entries k s map reboot t ds >>= λ rest. pure (entry_of r ∷ rest))
        (parse_descriptor-IsQuiet t d)
        (λ r.
          IsQuiet-bind env (fill_entries k s map reboot t ds) (λ rest. pure (entry_of r ∷ rest))
            (fill_entries-IsQuiet t ds) (λ rest h. refl))

  -- Unless the reboot is cold, the set-up of the lines changes no register, whether it succeeds or
  -- fails and whatever the descriptors say.
  pub gpio_init-IsQuiet :
      (desc : Bool) (property : Result (List (List ℕ))) (k_table : Bool)
      → IsQuiet env (gpio_init k s map reboot desc property k_table)
  unfolding gpio_init
  gpio_init-IsQuiet false property k_table h = refl
  gpio_init-IsQuiet true (err e) k_table h = refl
  gpio_init-IsQuiet true (ok ds) false h = refl
  gpio_init-IsQuiet true (ok ds) true h =
      IsQuiet-bind env (scan_pins map) (λ t. fill_entries k s map reboot (s.sort t) ds)
        (scan_pins-IsQuiet env map) (λ t. fill_entries-IsQuiet (s.sort t) ds) h

-- What the word of an input has: its direction, its interrupt's enable bit, and a type that is the one
-- read or "disabled".
abbrev pub IsInputOf : ℕ → Result ℕ → Type 0
IsInputOf v (err e) = Unit {0}
IsInputOf v (ok w) =
    (get dir w ≡ dir_input) × ((get int_type w ≡ get int_type v) ⊎ (get int_type w ≡ type_disabled))

input_type :
    (v x : ℕ) (disable : Bool)
    → (let v1 = replace int_enb v x in
        let v2 = if disable then replace int_type v1 type_disabled else v1 in
        IsInputOf v (ok (replace dir v2 dir_input)))
input_type v x true =
    let v1 : ℕ = replace int_enb v x in
    let v2 : ℕ = replace int_type v1 type_disabled in
    (
      get-replace dir v2 dir_input (omega arith),
      inr (
          get-replace_ne dir int_type v2 dir_input (omega arith) (omega arith) (inl (omega arith))
          ∙ get-replace int_type v1 type_disabled (omega arith)),
    )
input_type v x false =
    let v1 : ℕ = replace int_enb v x in
    (
      get-replace dir v1 dir_input (omega arith),
      inl (
          get-replace_ne dir int_type v1 dir_input (omega arith) (omega arith) (inl (omega arith))
          ∙ get-replace_ne int_enb int_type v x (omega arith) (omega arith) (inl (omega arith))),
    )

-- A descriptor of an input makes the pin an input, and leaves the type of its interrupt as it was
-- read, or sets it to "disabled": a level or an edge that the descriptor asks for is not programmed.
pub input_word-IsInputOf :
    (k : Scanner) (seen : ℕ) (d : List ℕ) (v : ℕ) → IsInputOf v (input_word k seen d v)
unfolding input_word
input_word-IsInputOf k seen d v = elim (Option-cases (k.enable d)) [
  | inl e ↦
      let step : input_word k seen d v ≡ err einval = ground arith in subst⁻¹ (IsInputOf v) step tt
  | inr (s, e) ↦
      let x : ℕ = if s.int_enb == 0 then int_disable else int_enable in
      let disable : Bool = same_string (advance k (seen_or s.seen seen) d) text_disable in
      let v1 : ℕ = replace int_enb v x in
      let v2 : ℕ = if disable then replace int_type v1 type_disabled else v1 in
      let step : input_word k seen d v ≡ ok (replace dir v2 dir_input) = ground arith in
      subst⁻¹ (IsInputOf v) step (input_type v x disable)
]
