-- ===== src/Gpio/IdentityLaws.antt =====
-- When the line is the group or the pin that a request in "config" names.

use cisco_8000_kernel_module.Common.{
  ◌==◌, if◌then◌else◌, All, ℕ, ◌≡◌, true, false, not, ◌&&◌, ◌||◌, List, [], ◌∷◌, arith,
}
use cisco_8000_kernel_module.Reg.{field, Field, get}
use cisco_8000_kernel_module.Gpio.Tokens.{
  token_group_id, token_pin_count, token_group_instance, token_pin_id, token_pin_instance, Request,
}
use cisco_8000_kernel_module.Gpio.Config.{param, kind_fits, mem_fits, mem_tokens}

-- The fields of a line's register `mem[0]`, as drivers/cisco/gpio.h lists them, each with its token.
abbrev pub mem_fields : List (ℕ × Field)
mem_fields =
    (token_group_id, field 27 16)
    ∷ (token_pin_count, field 15 8)
    ∷ (token_group_instance, field 7 0)
    ∷ (token_pin_id, field 30 8)
    ∷ (token_pin_instance, field 7 0)
    ∷ []

-- The line is the group or the pin that the request names: each part of the identity that the request
-- gives is what `mem[0]` holds, the parts of a group are given only of a group, and those of a pin only
-- of a pin.
pub record IsIdentified (r : Request) (mem : ℕ) : Type 0 where
  pub parts : All (λ p. (if r.seen p.0 then get p.1 mem else r.value p.0) ≡ r.value p.0) mem_fields
  pub of_group :
      ((r.seen token_group_id || r.seen token_pin_count || r.seen token_group_instance)
        && get (field 31 31) mem == 0)
      ≡ false
  pub of_pin :
      ((r.seen token_pin_id || r.seen token_pin_instance) && not (get (field 31 31) mem == 0))
      ≡ false

pub fits-IsIdentified :
    (r : Request) (mem : ℕ)
    → (kind_fits r mem && mem_fits r mem_tokens mem) ≡ true
    → IsIdentified r mem
unfolding kind_fits mem_fits param get
fits-IsIdentified r mem e = record {
  parts = (ground arith, (ground arith, (ground arith, (ground arith, (ground arith, tt)))));
  of_group = ground arith;
  of_pin = ground arith;
}

IsIdentified-fits :
    (r : Request) (mem : ℕ)
    → IsIdentified r mem
    → (kind_fits r mem && mem_fits r mem_tokens mem) ≡ true
unfolding kind_fits mem_fits param get
IsIdentified-fits r mem e = ground (arith, e.parts, e.of_group, e.of_pin)

pub not_fits :
    (r : Request) (mem : ℕ)
    → (kind_fits r mem && mem_fits r mem_tokens mem) ≡ false
    → ¬ IsIdentified r mem
not_fits r mem other same = ground (arith, IsIdentified-fits r mem same)
