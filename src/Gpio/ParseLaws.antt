-- ===== src/Gpio/ParseLaws.antt =====
-- The settings that the attribute "config" reads may stand in any order.
use mathlib.Core.Path.{subst, fun_ext}
use mathlib.Core.List.{Permᴰ}
use cisco_8000_kernel_module.Common.{
  ◌==◌, if◌then◌else◌, Bool-cases, Option-cases, ℕ, ◌≡◌, refl, sym, ap, ◌∙◌, ◌≢◌, ◌⊎◌, inl, inr,
  Bool, true, false, List, [], ◌∷◌, arith,
}
use cisco_8000_kernel_module.Env.{Result-cases, ok}
use cisco_8000_kernel_module.Gpio.Tokens.{
  token_name, tokens, Kernel, at_end, Request, updated, Argument, applied, byp, read_arg,
  parse_piece, parse_pieces, assigns, renames,
}

-- A setting is about its own token, and only the token "name" names.
abbrev IsArgument : ℕ → Argument → Type 0
IsArgument t (assigns u v) = u ≡ t
IsArgument t (renames text) = t ≡ token_name

read_arg-IsArgument :
    (k : Kernel) (t : ℕ) (arg rest : List ℕ) (s : Argument)
    → read_arg k t arg ≡ ok (s, rest)
    → IsArgument t s
unfolding read_arg
read_arg-IsArgument k t arg rest (assigns u v) e = ground arith
read_arg-IsArgument k t arg rest (renames text) e = ground arith

updated_comm {ℓ} :
    {A : Type ℓ} (f : ℕ → A) (t u : ℕ) (x y : A)
    → t ≢ u
    → updated (updated f t x) u y ≡ updated (updated f u y) t x
updated_comm f t u x y ne = fun_ext (λ i. ground arith)

updated_same :
    (f : ℕ → Bool) (t u : ℕ) → updated (updated f t true) u true ≡ updated (updated f u true) t true
updated_same f t u = fun_ext (λ i. ground arith)

applied_comm :
    (t u : ℕ) (s s' : Argument) (r : Request)
    → IsArgument t s
    → IsArgument u s'
    → t ≢ u
    → applied u s' (applied t s r) ≡ applied t s (applied u s' r)
unfolding applied
applied_comm t u (assigns t' v) (assigns u' w) r a b ne =
    ground (arith, updated_same r.seen t u, updated_comm r.value t' u' v w)
applied_comm t u (assigns t' v) (renames x) r a b ne = ground (arith, updated_same r.seen t u)
applied_comm t u (renames x) (assigns u' w) r a b ne = ground (arith, updated_same r.seen t u)
applied_comm t u (renames x) (renames y) r a b ne = absurd (ne (a ∙ sym b))

-- What a piece of the text does, whatever has been read before: nothing if it is blank, or one
-- setting, unless its token has been seen.
abbrev Does : Kernel → List ℕ → Request → Request → Type 0
Does k p r r1 =
    ((r1 ≡ r) × ((r' : Request) → parse_piece k r' p ≡ ok r'))
    ⊎ ((t : ℕ) × (s : Argument) × (r.seen t ≡ false)
        × (r1 ≡ applied t s r)
        × IsArgument t s
        × ((r' : Request) → r'.seen t ≡ false → parse_piece k r' p ≡ ok (applied t s r')))

parse_piece-Does :
    (k : Kernel) (p : List ℕ) (r r1 : Request) → parse_piece k r p ≡ ok r1 → Does k p r r1
unfolding parse_piece
parse_piece-Does k p r r1 e = elim (Bool-cases (at_end (byp k p))) [
  | inl blank ↦ inl (ground arith, λ r'. ground arith)
  | inr some_text ↦ elim (Option-cases (k.match_token tokens (byp k p))) [
    | inl unknown ↦ absurd (ground arith)
    | inr (m, found) ↦ elim (Bool-cases (r.seen m.0)) [
      | inl seen ↦ absurd (ground arith)
      | inr new ↦ elim (Bool-cases (k.can_dup m.1)) [
        | inr full ↦ absurd (ground arith)
        | inl room ↦ elim (Result-cases (read_arg k m.0 (byp k m.1))) [
          | inr (x, bad) ↦ absurd (ground arith)
          | inl (q, read_as) ↦ elim (Bool-cases (at_end (byp k q.1))) [
            | inr more ↦ absurd (ground arith)
            | inl done ↦ inr (
              m.0,
              q.0,
              new,
              ground arith,
              read_arg-IsArgument k m.0 (byp k m.1) q.1 q.0 read_as,
              (λ r' fresh. ground arith),
            )
          ]
        ]
      ]
    ]
  ]
]

seen-applied :
    (t u : ℕ) (s : Argument) (r : Request)
    → (applied t s r).seen u ≡ (if u == t then true else r.seen u)
unfolding applied
seen-applied t u (assigns v w) r = refl
seen-applied t u (renames text) r = refl

-- Two settings of different tokens, in the other order.
swap_two :
    (k : Kernel) (t u : ℕ) (s s' : Argument) (q : List ℕ) (p : List ℕ) (r : Request)
    → r.seen t ≡ false
    → (applied t s r).seen u ≡ false
    → IsArgument t s
    → IsArgument u s'
    → ((r' : Request) → r'.seen t ≡ false → parse_piece k r' p ≡ ok (applied t s r'))
    → ((r' : Request) → r'.seen u ≡ false → parse_piece k r' q ≡ ok (applied u s' r'))
    → parse_pieces k r (q ∷ p ∷ []) ≡ ok (applied u s' (applied t s r))
unfolding parse_pieces
swap_two k t u s s' q p r new new' a b does does' =
    let apart : t ≢ u = λ e. ground (arith, seen-applied t u s r) in
    let fresh : r.seen u ≡ false = ground (arith, seen-applied t u s r) in
    let still : (applied u s' r).seen t ≡ false = ground (arith, seen-applied u t s' r) in
    ground (arith, does' r fresh, does (applied u s' r) still, applied_comm t u s s' r a b apart)

parse_pieces_one :
    (k : Kernel) (r r1 : Request) (p : List ℕ) (ps : List (List ℕ))
    → parse_piece k r p ≡ ok r1
    → parse_pieces k r (p ∷ ps) ≡ parse_pieces k r1 ps
unfolding parse_pieces
parse_pieces_one k r r1 p ps e = ground arith

parse_pieces_two :
    (k : Kernel) (r r2 : Request) (p q : List ℕ) (ps : List (List ℕ))
    → parse_pieces k r (q ∷ p ∷ []) ≡ ok r2
    → parse_pieces k r (q ∷ p ∷ ps) ≡ parse_pieces k r2 ps
unfolding parse_pieces
parse_pieces_two k r r2 p q ps e = ground arith

-- Two pieces that are read one after the other are read in the other order with the same result.
swap_pieces :
    (k : Kernel) (r r1 r2 : Request) (p q : List ℕ)
    → Does k p r r1
    → Does k q r1 r2
    → parse_pieces k r (q ∷ p ∷ []) ≡ ok r2
swap_pieces k r r1 r2 p q (inl (e, same)) (inl (e', same')) =
    unfold parse_pieces in ground (arith, same r, same' r)
swap_pieces k r r1 r2 p q (inl (e, same)) (inr (u, s', new', e', b, does')) =
    unfold parse_pieces in ground (arith, does' r, same (applied u s' r), ap (λ x. x.seen u) e)
swap_pieces k r r1 r2 p q (inr (t, s, new, e, a, does)) (inl (e', same')) =
    unfold parse_pieces in ground (arith, same' r, does r new)
swap_pieces k r r1 r2 p q (inr (t, s, new, e, a, does)) (inr (u, s', new', e', b, does')) =
    swap_two k t u s s' q p r new (ap (λ x. x.seen u) (sym e) ∙ new') a b does does'
    ∙ ap ok (ap (applied u s') (sym e) ∙ sym e')

parse_pieces-cases :
    (k : Kernel) (r r1 : Request) (p : List ℕ) (ps : List (List ℕ))
    → parse_pieces k r (p ∷ ps) ≡ ok r1
    → (r' : Request) × (parse_piece k r p ≡ ok r') × (parse_pieces k r' ps ≡ ok r1)
unfolding parse_pieces
parse_pieces-cases k r r1 p ps e = elim (Result-cases (parse_piece k r p)) [
  | inl (r', good) ↦ (r', good, ground arith)
  | inr (x, bad) ↦ absurd (ground arith)
]

-- The pieces of a text that is accepted may stand in any order: every order of them is accepted, with
-- the same settings.
pub parse_pieces-perm :
    (k : Kernel) (ps qs : List (List ℕ)) (r r1 : Request)
    → Permᴰ ps qs
    → parse_pieces k r ps ≡ ok r1
    → parse_pieces k r qs ≡ ok r1
parse_pieces-perm k ps qs r r1 Permᴰ.nil e = e
parse_pieces-perm k (a ∷ ps) (b ∷ qs) r r1 (Permᴰ.cons same d) e =
    let (r', first, rest) = parse_pieces-cases k r r1 a ps e in
    let later : parse_pieces k r' qs ≡ ok r1 = parse_pieces-perm k ps qs r' r1 d rest in
    let first' : parse_piece k r b ≡ ok r' = subst (λ x. parse_piece k r x ≡ ok r') same first in
    parse_pieces_one k r r' b qs first' ∙ later
parse_pieces-perm k (a ∷ b ∷ ps) (b' ∷ a' ∷ _) r r1 (Permᴰ.swap ea eb) e =
    let (r', first, rest) = parse_pieces-cases k r r1 a (b ∷ ps) e in
    let (r'', second, rest') = parse_pieces-cases k r' r1 b ps rest in
    let two : parse_pieces k r (b ∷ a ∷ []) ≡ ok r'' =
      swap_pieces k r r' r'' a b (parse_piece-Does k a r r' first)
        (parse_piece-Does k b r' r'' second) in
    let swapped : parse_pieces k r (b ∷ a ∷ ps) ≡ ok r1 =
      parse_pieces_two k r r'' a b ps two ∙ rest' in
    subst (λ x. parse_pieces k r (x ∷ a' ∷ ps) ≡ ok r1) eb
      (subst (λ y. parse_pieces k r (b ∷ y ∷ ps) ≡ ok r1) ea swapped)
parse_pieces-perm k ps qs r r1 (Permᴰ.trans {l₂ = ms} d d') e =
    parse_pieces-perm k ms qs r r1 d' (parse_pieces-perm k ps ms r r1 d e)
