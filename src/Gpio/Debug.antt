-- ===== src/Gpio/Debug.antt =====
-- `cisco_fpga_gpio_dbg_show` of drivers/cisco/cisco-fpga-gpio-sysfs.c: what it shows of each line. The
-- numbers are left as numbers, and the punctuation between the parts is left out.
use Prim.Native.String.{String}
use cisco_8000_kernel_module.Common.{
  ◌==◌, if◌then◌else◌, get_or, ℕ, zero, suc, ◌+◌, ◌*◌, Bool, Option, none, some, List, [], ◌∷◌,
}
use cisco_8000_kernel_module.Env.{M, pure, lift, ◌>>=◌, attempt, regmap_read, ok, err}
use cisco_8000_kernel_module.Text.{codes}
use cisco_8000_kernel_module.Reg.{Field, get}
use cisco_8000_kernel_module.Gpio.Regs.{
  cfg_stat, mem0, int_type, dir, int_msi, dis_output, int_enb, out_state, int_state, in_state,
  mem_is_group, mem_group_id, mem_group_pin_count, mem_pin_id, mem_pin_instance, dir_input, Adapter,
  gpio_io,
}
use cisco_8000_kernel_module.Gpio.Config.{fit_sel, trigger, mem_group_instance}

-- `_intType` and the arrays after it.
abbrev pub int_type_labels : List String
int_type_labels =
    "disable" ∷ "level-high" ∷ "level-low" ∷ "positive-edge" ∷ "negative-edge" ∷ "any-edge" ∷ "6"
    ∷ "7" ∷ []

abbrev pub fit_sel_labels : List String
fit_sel_labels = "disable" ∷ "invert" ∷ "stuck-1" ∷ "stuck-0" ∷ []

abbrev pub trigger_labels : List String
trigger_labels = "clear-fault" ∷ "insert-fault" ∷ []

abbrev pub dir_labels : List String
dir_labels = "input" ∷ "output" ∷ []

abbrev pub dis_output_labels : List String
dis_output_labels = "enable" ∷ "tristate" ∷ []

abbrev pub int_enb_labels : List String
int_enb_labels = "disable" ∷ "enable" ∷ []

abbrev pub state_labels : List String
state_labels = "low" ∷ "high" ∷ []

-- An array at a field of a word; beyond its end is the empty text.
abbrev pub label : List String → Field → ℕ → List ℕ
label labels f word = codes (get_or labels (get f word) "")

-- The end of a line: the group, or the pin.
pub data Identity : Type 0 where
  of_group : ℕ → ℕ → ℕ → Identity  -- group, group_instance and pin_count
  of_pin : ℕ → ℕ → Identity  -- pin_id and pin_instance

-- What is shown of a line; the output mode is shown for outputs only.
pub record Shown : Type 0 where
  pub index : ℕ
  pub offset : ℕ
  pub name : Option (List ℕ)
  pub direction : List ℕ
  pub output : Option (List ℕ)
  pub state : List ℕ
  pub interrupt : List ℕ
  pub interrupt_type : List ℕ
  pub intr_data : ℕ
  pub msi : ℕ
  pub pending : ℕ
  pub fault : List ℕ
  pub fault_trigger : List ℕ
  pub identity : Identity

abbrev pub intr_data_reg : ℕ → ℕ
intr_data_reg pin = 0x40 + 0x20 * pin + 0xc

unfoldable pub identity_of : ℕ → Identity
identity_of mem =
    if get mem_is_group mem == 0
    then of_pin (get mem_pin_id mem) (get mem_pin_instance mem)
    else of_group (get mem_group_id mem) (get mem_group_instance mem) (get mem_group_pin_count mem)

-- The line from the three words.
unfoldable pub shown_of : ℕ → ℕ → Option (List ℕ) → ℕ → ℕ → ℕ → Shown
shown_of i off name v intr mem =
    let is_input : Bool = get dir v == dir_input in
    record {
      index = i;
      offset = off;
      name = name;
      direction = label dir_labels dir v;
      output = if is_input then none else some (label dis_output_labels dis_output v);
      state = if is_input then label state_labels in_state v else label state_labels out_state v;
      interrupt = label int_enb_labels int_enb v;
      interrupt_type = label int_type_labels int_type v;
      intr_data = intr;
      msi = get int_msi v;
      pending = get int_state v;
      fault = label fit_sel_labels fit_sel v;
      fault_trigger = label trigger_labels trigger v;
      identity = identity_of mem;
    }

-- The three reads of a line, which end at the first failure.
unfoldable pub read_line : Adapter → ℕ → M (ℕ × ℕ × ℕ)
read_line p i = do
  pin ← lift (gpio_io p i)
  v ← regmap_read p.map (cfg_stat pin)
  intr ← regmap_read p.map (intr_data_reg pin)
  mem ← regmap_read p.map (mem0 pin)
  pure (v, intr, mem)

-- The loop over the lines from `i` on, with `left` to go; a line that cannot be read is passed over.
unfoldable pub dbg_from : Adapter → Option (List (Option (List ℕ))) → ℕ → ℕ → M (List Shown)
dbg_from p names zero i = pure []
dbg_from p names (suc left) i = do
  r ← attempt (read_line p i)
  rest ← dbg_from p names left (suc i)
  pure (elim r [
    | err _ ↦ rest
    | ok (v, intr, mem) ↦
        let name : Option (List ℕ) = elim names [ none ↦ none | some ns ↦ get_or ns i none ] in
        shown_of i (get_or p.off i 0) name v intr mem ∷ rest
  ])

unfoldable pub dbg_show : Adapter → Option (List (Option (List ℕ))) → M (List Shown)
dbg_show p names = dbg_from p names p.ngpio 0
