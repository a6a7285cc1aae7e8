-- ===== src/Tests/Machines.antt =====
-- Environments for the runs.
use cisco_8000_kernel_module.Common.{
  ◌==◌, if◌then◌else◌, ℕ, ◌+◌, ◌/◌, ◌^◌, ◌≤◌, refl, [], ◌∷◌, map, arith,
}
use cisco_8000_kernel_module.Env.{Event, History, Env, asked, Clock, eio, sleep, ok, err}
use cisco_8000_kernel_module.Env.Contents.{contents, Memory}

-- All registers read as `v`, every request succeeds, and only sleeping takes time.
abbrev pub slept : History → ℕ
slept [] = 0
slept (sleep n ∷ h) = slept h + n
slept (_ ∷ h) = slept h

abbrev pub steady : ℕ → Env
steady v = record {
  read_answer = λ h map reg. ok v;
  write_answer = λ h map reg w. ok tt;
  update_answer = λ h map reg mask w. ok tt;
  transfer_answer = λ h addr w. ok tt;
  receive_answer = λ h addr. ok (record { byte0 = v; byte1 = 0; byte2 = 0; byte3 = 0 });
  now = slept;
  tick = 1000;
}

-- The same with every write to one register refused by -EIO.
abbrev pub refusing : ℕ → ℕ → Env
refusing bad v = record (steady v) {
  write_answer = λ h map reg w. if reg == bad then err eio else ok tt;
}

slept-forward : (e : Event) (h : History) → slept h ≤ slept (e ∷ h)
slept-forward (sleep n) h = omega arith
slept-forward _ h = omega arith

slept_prompt : (e : Event) (h : History) → slept (e ∷ h) / 1000 ≤ slept h / 1000 + asked e + 2 ^ 60
slept_prompt (sleep n) h = omega arith
slept_prompt _ h = omega arith

pub steady-Clock : (v : ℕ) → Clock (steady v)
steady-Clock v = record {
  ticking = omega arith;
  forward = slept-forward;
  sleeps = λ n h. omega arith;
  prompt = slept_prompt;
}

-- A controller that is idle and done, and refuses writes to the register `bad`.
abbrev pub ready : ℕ → Env
ready bad = record (refusing bad 0) {
  read_answer = λ h map reg. if reg == 0x2c then ok 2 else ok 0;
}

-- Registers that keep what is written to them.
abbrev pub remembering : (ℕ → ℕ) → ℕ → Env
remembering held map = record (steady 0) { read_answer = λ h m reg. ok (contents held map h reg) }

pub remembering-Memory : (held : ℕ → ℕ) (map : ℕ) → Memory held map (remembering held map)
remembering-Memory held map = record {
  recalls = λ h reg. refl;
  stores = λ h reg v. refl;
  updates = λ h reg m v. refl;
}
