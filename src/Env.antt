-- ===== src/Env.antt =====
-- The kernel and the hardware under the drivers, which are not part of this repository: regmap,
-- the clock, sleeping, bus locks and interrupt dispatch.
--
-- A driver's run is the list of what it has asked for, the latest event first. The environment is
-- any function that answers the next request from that list, so a register may change by itself,
-- a request may fail at any time, and two reads of one register may differ. A driver is a term of
-- `M A`: it returns `ok a`, or `err n` where the C code returns the negative status `-n`.
pub mod Clocks
pub mod Contents
pub mod Rules
use cisco_8000_kernel_module.Common.{
  leb, ℕ, ◌+◌, ◌-◌, ◌*◌, ◌/◌, ◌%◌, ◌^◌, ◌≤◌, ◌<◌, ◌≡◌, refl, ◌≢◌, ◌⊎◌, inl, inr, Bool, not, List,
  ◌∷◌, map,
}

-- A message buffer of four bytes.
pub record Bytes : Type 0 where
  pub byte0 : ℕ
  pub byte1 : ℕ
  pub byte2 : ℕ
  pub byte3 : ℕ

pub data Event : Type 0 where
  read : ℕ → ℕ → Event  -- regmap_read(map, reg)
  write : ℕ → ℕ → ℕ → Event  -- regmap_write(map, reg, val)
  update_bits : ℕ → ℕ → ℕ → ℕ → Event  -- regmap_update_bits(map, reg, mask, val)
  sleep : ℕ → Event  -- a delay or a timed sleep
  transfer : ℕ → Bytes → Event  -- __i2c_transfer of one write message: address and bytes
  receive : ℕ → Event  -- __i2c_transfer of one read message: address
  lock : ℕ → Event
  unlock : ℕ → Event
  handle_irq : ℕ → Event  -- generic_handle_irq for this pin

abbrev pub History : Type 0
History = List Event

pub data Result {ℓ} (A : Type ℓ) : Type ℓ where
  ok : A → Result A
  err : ℕ → Result A

abbrev pub Done : Type 0
Done = Result (Unit {0})

-- The answers of the kernel's functions: what regmap_read stores or why it fails, the status of a
-- write, whether a transfer moves its message, the time in microseconds, and the length of a tick.
pub record Env : Type 0 where
  pub read_answer : History → ℕ → ℕ → Result ℕ
  pub write_answer : History → ℕ → ℕ → ℕ → Done
  pub update_answer : History → ℕ → ℕ → ℕ → ℕ → Done
  pub transfer_answer : History → ℕ → Bytes → Done
  pub receive_answer : History → ℕ → Result Bytes
  pub now : History → ℕ
  pub tick : ℕ

abbrev pub M : Type 0 → Type 0
M A = Env → History → Result A × History

abbrev pub pure : {A : Type 0} → A → M A
pure a env h = (ok a, h)

abbrev pub fail : {A : Type 0} → ℕ → M A
fail e env h = (err e, h)

abbrev pub lift : {A : Type 0} → Result A → M A
lift r env h = (r, h)

infixl 5 ◌>>=◌ ◌>>◌
abbrev pub ◌>>=◌ : {A B : Type 0} → M A → (A → M B) → M B
◌>>=◌ m f env h = let (r, h') = m env h in elim r [ ok a ↦ f a env h' | err e ↦ (err e, h') ]

abbrev pub ◌>>◌ : {B : Type 0} → M (Unit {0}) → M B → M B
m >> k = m >>= λ _. k

-- Where the C code keeps the status in a variable and goes on.
abbrev pub attempt : {A : Type 0} → M A → M (Result A)
attempt m env h = let (r, h') = m env h in (ok r, h')

abbrev pub regmap_read : ℕ → ℕ → M ℕ
regmap_read map reg env h = (env.read_answer h map reg, read map reg ∷ h)

abbrev pub regmap_write : ℕ → ℕ → ℕ → M (Unit {0})
regmap_write map reg v env h = (env.write_answer h map reg v, write map reg v ∷ h)

abbrev pub regmap_update_bits : ℕ → ℕ → ℕ → ℕ → M (Unit {0})
regmap_update_bits map reg mask v env h =
    (env.update_answer h map reg mask v, update_bits map reg mask v ∷ h)

abbrev pub i2c_send : ℕ → Bytes → M (Unit {0})
i2c_send addr b env h = (env.transfer_answer h addr b, transfer addr b ∷ h)

abbrev pub i2c_receive : ℕ → M Bytes
i2c_receive addr env h = (env.receive_answer h addr, receive addr ∷ h)

abbrev pub wait : ℕ → M (Unit {0})
wait n env h = (ok tt, sleep n ∷ h)

abbrev pub emit : Event → M (Unit {0})
emit e env h = (ok tt, e ∷ h)

-- The ticks since the system started, and `jiffies`, which keeps 64 bits of them.
abbrev pub ticks : Env → History → ℕ
ticks env h = env.now h / env.tick

abbrev pub jiffies : M ℕ
jiffies env h = (ok (ticks env h % 2 ^ 64), h)

-- A sleep that is given in ticks.
abbrev pub schedule_timeout : ℕ → M (Unit {0})
schedule_timeout n env h = (ok tt, sleep (n * env.tick) ∷ h)

-- Sums of `unsigned long` values, and the comparisons of linux/jiffies.h: `time_after(a, b)` is
-- `(long)(b - a) < 0`, and `time_before_eq(a, b)` is its negation.
abbrev pub add64 : ℕ → ℕ → ℕ
add64 a b = (a + b) % 2 ^ 64

abbrev pub time_after : ℕ → ℕ → Bool
time_after a b = leb (2 ^ 63) ((b + 2 ^ 64 - a) % 2 ^ 64)

abbrev pub time_before_eq : ℕ → ℕ → Bool
time_before_eq a b = not (time_after a b)

-- The mark of a model loop that has used up its fuel. No status of the kernel is `-0`; for each
-- loop a theorem gives fuel with which the mark does not occur.
abbrev pub out_of_fuel : {A : Type 0} → M A
out_of_fuel = fail 0

-- A failing request has a negative status.
pub record FailsProperly (env : Env) : Type 0 where
  pub reads : (h : History) (map reg : ℕ) → env.read_answer h map reg ≢ err 0
  pub writes : (h : History) (map reg v : ℕ) → env.write_answer h map reg v ≢ err 0

-- The mark of BUG_ON: no status lies beyond MAX_ERRNO.
abbrev pub bug_on : ℕ
bug_on = 4096

-- The microseconds that a request asks to sleep.
abbrev pub asked : Event → ℕ
asked (sleep n) = n
asked _ = 0

-- Time does not run backwards, a sleep lasts at least as long as asked for, and no request takes
-- 2 ^ 60 ticks beyond that.
pub record Clock (env : Env) : Type 0 where
  pub ticking : 0 < env.tick
  pub forward : (e : Event) (h : History) → env.now h ≤ env.now (e ∷ h)
  pub sleeps : (n : ℕ) (h : History) → env.now h + n ≤ env.now (sleep n ∷ h)
  pub prompt : (e : Event) (h : History) → ticks env (e ∷ h) ≤ ticks env h + asked e + 2 ^ 60

-- The status numbers of the Linux headers.
abbrev pub enoent : ℕ
enoent = 2

abbrev pub eio : ℕ
eio = 5

abbrev pub enxio : ℕ
enxio = 6

abbrev pub eagain : ℕ
eagain = 11

abbrev pub enomem : ℕ
enomem = 12

abbrev pub efault : ℕ
efault = 14

abbrev pub ebusy : ℕ
ebusy = 16

abbrev pub enodev : ℕ
enodev = 19

abbrev pub einval : ℕ
einval = 22

abbrev pub etimedout : ℕ
etimedout = 110

abbrev pub eprobe_defer : ℕ
eprobe_defer = 517

abbrev pub enotsupp : ℕ
enotsupp = 524

-- regmap_read stores a 32-bit value.
abbrev pub ReadsWords : Env → Type 0
ReadsWords env = (h : History) (map reg v : ℕ) → env.read_answer h map reg ≡ ok v → v < 2 ^ 32

pub Result-cases {ℓ} :
    {A : Type ℓ} (r : Result A) → ((a : A) × (r ≡ ok a)) ⊎ ((e : ℕ) × (r ≡ err e))
Result-cases (ok a) = inl (a, refl)
Result-cases (err e) = inr (e, refl)
