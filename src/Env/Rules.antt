-- ===== src/Env/Rules.antt =====
-- Rules for the runs of drivers: what a result satisfies, and runs that write nothing.
use mathlib.Core.Path.{subst, subst⁻¹}
use cisco_8000_kernel_module.Common.{ℕ, suc, ◌≡◌, ap, ◌∙◌, inl, inr, [], ◌∷◌, arith}
use cisco_8000_kernel_module.Env.{
  History, Result, Env, M, ◌>>=◌, attempt, Result-cases, write, update_bits, ok, err,
}

-- Every successful run of `m` in `env` gives a result with `P`.
abbrev pub Post : {A : Type 0} → (A → Type 0) → Result A → Type 0
Post P (ok a) = P a
Post P (err e) = Unit {0}

pub Post-map :
    {A : Type 0} (P Q : A → Type 0) (r : Result A) → ((a : A) → P a → Q a) → Post P r → Post Q r
Post-map P Q (ok a) f p = f a p
Post-map P Q (err e) f p = tt

-- A failure gives no result.
pub Post-err : {A : Type 0} (P : A → Type 0) (r : Result A) (x : ℕ) → r ≡ err x → Post P r
Post-err P r x e = subst⁻¹ (Post P) e tt

abbrev pub Gives : {A : Type 0} → Env → (A → Type 0) → M A → Type 0
Gives env P m = (h : History) → Post P (m env h).0

pub Gives-bind :
    {A B : Type 0} (env : Env) (Q : A → Type 0) (P : B → Type 0) (m : M A) (f : A → M B)
    → Gives env Q m
    → ((a : A) → Q a → Gives env P (f a))
    → Gives env P (m >>= f)
Gives-bind env Q P m f g k h = elim (Result-cases (m env h).0) [
  | inl (a, e) ↦
      let q : Q a = subst (Post Q) e (g h) in
      let step : ((m >>= f) env h).0 ≡ (f a env (m env h).1).0 = ground arith in
      subst⁻¹ (Post P) step (k a q (m env h).1)
  | inr (x, e) ↦ let step : ((m >>= f) env h).0 ≡ err x = ground arith in subst⁻¹ (Post P) step tt
]

pub Gives-any : {A : Type 0} (env : Env) (m : M A) → Gives env (λ a. Unit {0}) m
Gives-any env m h = elim (Result-cases (m env h).0) [
  | inl (a, e) ↦ subst⁻¹ (Post (λ x. Unit {0})) e tt
  | inr (x, e) ↦ subst⁻¹ (Post (λ x. Unit {0})) e tt
]

-- The requests that change registers.
abbrev pub changes : History → ℕ
changes [] = 0
changes (write m r v ∷ h) = suc (changes h)
changes (update_bits m r k v ∷ h) = suc (changes h)
changes (_ ∷ h) = changes h

-- No run of `m` in `env` asks to change a register.
abbrev pub IsQuiet : {A : Type 0} → Env → M A → Type 0
IsQuiet env m = (h : History) → changes (m env h).1 ≡ changes h

pub IsQuiet-bind :
    {A B : Type 0} (env : Env) (m : M A) (f : A → M B)
    → IsQuiet env m
    → ((a : A) → IsQuiet env (f a))
    → IsQuiet env (m >>= f)
IsQuiet-bind env m f q k h = elim (Result-cases (m env h).0) [
  | inl (a, e) ↦
      let step : ((m >>= f) env h).1 ≡ (f a env (m env h).1).1 = ground arith in
      ap changes step ∙ k a (m env h).1 ∙ q h
  | inr (x, e) ↦
      let step : ((m >>= f) env h).1 ≡ (m env h).1 = ground arith in ap changes step ∙ q h
]

pub IsQuiet-attempt : {A : Type 0} (env : Env) (m : M A) → IsQuiet env m → IsQuiet env (attempt m)
IsQuiet-attempt env m q h = q h
