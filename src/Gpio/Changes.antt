-- ===== src/Gpio/Changes.antt =====
-- What a store in the attribute "config" of drivers/cisco/cisco-fpga-gpio-sysfs.c may come to.

use cisco_8000_kernel_module.Common.{
  ◌==◌, if◌then◌else◌, ℕ, ◌%◌, ◌^◌, ◌≡◌, ◌⊎◌, Bool, true, false, ◌≤◌, ◌∷◌,
}
use cisco_8000_kernel_module.Env.{History, Result, Env, einval, read, write, ok, err}
use cisco_8000_kernel_module.Env.Rules.{changes}
use cisco_8000_kernel_module.Reg.{field, get}
use cisco_8000_kernel_module.Gpio.Regs.{cfg_stat, clr_reg, mem0, Adapter, gpio_io}
use cisco_8000_kernel_module.Gpio.Tokens.{token_index, Kernel, Request}
use cisco_8000_kernel_module.Gpio.Config.{Names, rename}
use cisco_8000_kernel_module.Gpio.IdentityLaws.{IsIdentified}
use cisco_8000_kernel_module.Gpio.ConfigLaws.{TooLarge, cfg_fields, IsConfigured}

-- What a line is asked to be, what its registers held and what the request makes of them.
pub record Change : Type 0 where
  pub request : Request
  pub pin : ℕ
  pub cfg : ℕ
  pub mem : ℕ
  pub written : ℕ

-- Why a request is refused with `e`: it names no line, or none of the chip's; a register of the line
-- cannot be read; the identity that it gives is not the line's; or a value is too large for its field.
abbrev pub Refused : Adapter → Request → Env → History → ℕ → Type 0
Refused p r env h e =
    let index : ℕ = r.value token_index % 2 ^ 32 in
    ((r.seen token_index ≡ false) × (e ≡ einval))
    ⊎ ((p.ngpio ≤ index) × (e ≡ einval))
    ⊎ (gpio_io p index ≡ err e)
    ⊎ ((pin : ℕ) × (gpio_io p index ≡ ok pin)
        × (let h1 : History = read p.map (cfg_stat pin) ∷ h in
            (env.read_answer h p.map (cfg_stat pin) ≡ err e)
            ⊎ (env.read_answer h1 p.map (mem0 pin) ≡ err e)
            ⊎ ((mem : ℕ) × (env.read_answer h1 p.map (mem0 pin) ≡ ok mem)
                × ¬ IsIdentified r mem
                × (e ≡ einval))
            ⊎ (TooLarge r cfg_fields × (e ≡ einval))))

-- The requests of a store that is carried out, from the history before it: the two reads; for an input,
-- a write that takes its interrupt's enable and its state away; and the write of the new word.
abbrev pub reads_of : Adapter → Change → History → History
reads_of p c h = read p.map (mem0 c.pin) ∷ read p.map (cfg_stat c.pin) ∷ h

abbrev pub is_input : Change → Bool
is_input c = get (field 24 24) c.written == 0

abbrev pub cleared_of : Adapter → Change → History → History
cleared_of p c h =
    if is_input c then write p.map (clr_reg c.pin) 0x22 ∷ reads_of p c h else reads_of p c h

abbrev pub carried_out : Adapter → Change → History → History
carried_out p c h = write p.map (cfg_stat c.pin) c.written ∷ cleared_of p c h

-- The line is one of the chip's, the identity that the request names is the one in `mem`, and the word
-- that is written is configured.
pub record IsChange (p : Adapter) (r : Request) (env : Env) (h : History) (c : Change)
    : Type 0 where
  pub asked_for : c.request ≡ r
  pub has_index : r.seen token_index ≡ true
  pub has_pin : gpio_io p (r.value token_index % 2 ^ 32) ≡ ok c.pin
  pub held : env.read_answer h p.map (cfg_stat c.pin) ≡ ok c.cfg
  pub known : env.read_answer (read p.map (cfg_stat c.pin) ∷ h) p.map (mem0 c.pin) ≡ ok c.mem
  pub identified : IsIdentified r c.mem
  pub configured : IsConfigured r c.cfg c.written

-- The first write, which an input alone has, or the last one fails with `e`, and nothing follows it.
abbrev pub WriteFails : Adapter → Change → Env → History → ℕ → History → Type 0
WriteFails p c env h e h' =
    ((is_input c ≡ true)
      × (env.write_answer (reads_of p c h) p.map (clr_reg c.pin) 0x22 ≡ err e)
      × (h' ≡ cleared_of p c h))
    ⊎ ((env.write_answer (cleared_of p c h) p.map (cfg_stat c.pin) c.written ≡ err e)
        × (h' ≡ carried_out p c h))

-- A run is refused for a reason and has changed no register, or the change is made but for a write that fails,
-- whose status it returns, or the change is carried out.
abbrev pub Outcome :
    Kernel → Adapter → Names → Request → ℕ → Env → History → Result (ℕ × Names) × History → Type 0
Outcome k p names r n env h (res, h') =
    ((e : ℕ) × Refused p r env h e × (res ≡ err e) × (changes h' ≡ changes h))
    ⊎ ((e : ℕ) × (c : Change) × IsChange p r env h c × (res ≡ err e) × WriteFails p c env h e h')
    ⊎ ((c : Change) × IsChange p r env h c
        × (res ≡ ok (n, rename k r (r.value token_index % 2 ^ 32) names))
        × (h' ≡ carried_out p c h))
