-- ===== src/Pseq/Rails.antt =====
-- The rails of the power sequencer in drivers/cisco/cisco-fpga-pseq.c: which are shown, and how the
-- text is cut to a page. `decimal` is what the kernel prints for "%u".
use cisco_8000_kernel_module.Common.{
  ltb, ◌==◌, if◌then◌else◌, length, get_or, take, drop, ℕ, zero, suc, ◌+◌, ◌-◌, bit_and, Bool, true,
  false, not, Option, none, some, List, [], ◌∷◌, ◌++◌, map,
}
use cisco_8000_kernel_module.Env.{
  Result, M, pure, fail, lift, ◌>>=◌, attempt, regmap_read, enxio, ok, err,
}
use cisco_8000_kernel_module.Reg.{not32, shl32}
use cisco_8000_kernel_module.Pseq.Attrs.{gen_stat, power_en0, power_good0, power_ov0}

-- The parts of `struct cisco_fpga_pseq` that the attributes use; a name that is NULL is `none`.
pub record Pseq : Type 0 where
  pub regmap : Option ℕ
  pub active : ℕ
  pub num_rails0 : ℕ
  pub num_rails1 : ℕ
  pub rail_names : List (Option (List ℕ))

-- `PAGE_SIZE`.
abbrev pub page_size : ℕ
page_size = 4096

-- What has been written, and the room that is left.
pub record Out : Type 0 where
  pub text : List ℕ
  pub len : ℕ

-- `scnprintf(buf, len, …)` of a text: it cuts the text to leave room for the NUL.
abbrev pub scnprintf : List ℕ → Out → Out
scnprintf t o =
    let wrote : List ℕ = take (o.len - 1) t in
    record { text = o.text ++ wrote; len = o.len - length wrote }

-- `data & (1 << bit)`.
abbrev pub rail_set : ℕ → ℕ → Bool
rail_set word b = not (bit_and word (shl32 1 b) == 0)

module _ (decimal : ℕ → List ℕ) where
  -- The line of a rail: "Rail @ bit %u\n", nothing for an empty name, or the name.
  unfoldable pub rail_line : Option (List ℕ) → ℕ → List ℕ
  rail_line none b =
      (82 ∷ 97 ∷ 105 ∷ 108 ∷ 32 ∷ 64 ∷ 32 ∷ 98 ∷ 105 ∷ 116 ∷ 32 ∷ []) ++ (decimal b ++ (10 ∷ []))
  rail_line (some []) b = []
  rail_line (some (c ∷ cs)) b = (c ∷ cs) ++ (10 ∷ [])

  -- One round of the inner loop.
  unfoldable pub show_rail : Option (List ℕ) → ℕ → ℕ → Out → Out
  show_rail name word b o = if rail_set word b then scnprintf (rail_line name b) o else o

  -- The inner loop, with `left` bits to go. The first list has the names from this bit on; a name
  -- beyond the array's end does not occur, since the array has 64.
  unfoldable pub show_bits : ℕ → ℕ → ℕ → List (Option (List ℕ)) → Out → Out
  show_bits zero word b names o = o
  show_bits (suc left) word b names o =
      let next =
        show_bits left word (suc b) (drop 1 names) (show_rail (get_or names 0 none) word b o) in
      if o.len == 0 then o else next

  -- `_show_rails`, on the two words.
  unfoldable pub show_rails : Pseq → ℕ → ℕ → ℕ → Out
  show_rails p word0 word1 len =
      show_bits p.num_rails1 word1 0 (drop p.num_rails0 p.rail_names)
        (show_bits p.num_rails0 word0 0 p.rail_names (record { text = []; len = len }))

-- `~*data` in a `u32`, if it is asked for.
abbrev pub inverted : Bool → ℕ → ℕ
inverted invert word = if invert then not32 word else word

-- `_read_reg`; `stack` is the second word if it is not read.
unfoldable pub read_reg : Pseq → ℕ → Bool → ℕ → M (ℕ × ℕ)
read_reg p reg invert stack = elim p.regmap [
  | none ↦ fail enxio
  | some map ↦ do
    word0 ← regmap_read map reg
    (if p.num_rails1 == 0
        then pure (inverted invert word0, stack)
        else (regmap_read map (reg + 4) >>= λ word1.
            pure (inverted invert word0, inverted invert word1)))
]

-- The show handlers: `power_enabled`, `power_disabled`, `power_good`, `power_bad` and
-- `power_over_voltage`.
unfoldable pub power_show : (ℕ → List ℕ) → ℕ → Bool → Pseq → ℕ → M (List ℕ)
power_show decimal reg invert p stack = do
  words ← read_reg p reg invert stack
  let out : Out = show_rails decimal p words.0 words.1 page_size
  pure out.text

unfoldable pub power_enabled_show : (ℕ → List ℕ) → Pseq → ℕ → M (List ℕ)
power_enabled_show decimal = power_show decimal power_en0 false

unfoldable pub power_disabled_show : (ℕ → List ℕ) → Pseq → ℕ → M (List ℕ)
power_disabled_show decimal = power_show decimal power_en0 true

unfoldable pub power_good_show : (ℕ → List ℕ) → Pseq → ℕ → M (List ℕ)
power_good_show decimal = power_show decimal power_good0 false

unfoldable pub power_bad_show : (ℕ → List ℕ) → Pseq → ℕ → M (List ℕ)
power_bad_show decimal = power_show decimal power_good0 true

unfoldable pub power_over_voltage_show : (ℕ → List ℕ) → Pseq → ℕ → M (List ℕ)
power_over_voltage_show decimal = power_show decimal power_ov0 true

-- The probe's numbers of rails, from the property "num-rails".
unfoldable pub split_rails : Result ℕ → ℕ × ℕ
split_rails property =
    let asked_for : ℕ = elim property [ ok n ↦ n | err _ ↦ 32 ] in
    let val : ℕ = if ltb 64 asked_for then 64 else asked_for in
    if ltb 32 val then (32, val - 32) else (val, 0)

-- `_probe_status`: the two words that it reports, if both can be read.
unfoldable pub probe_status : ℕ → M (ℕ × ℕ)
probe_status map = do
  good ← attempt (regmap_read map power_good0)
  stat ← attempt (regmap_read map gen_stat)
  g ← lift good
  s ← lift stat
  pure (g, s)
