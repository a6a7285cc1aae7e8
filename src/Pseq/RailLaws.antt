-- ===== src/Pseq/RailLaws.antt =====
-- The text of the rails against its description.
use mathlib.Core.Path.{subst, subst⁻¹}
use cisco_8000_kernel_module.Common.{
  ◌==◌, if◌then◌else◌, ==_iff, Bool-cases, length, get_or, length-append, take, drop, ℕ, zero, suc,
  ◌+◌, ◌-◌, ◌*◌, ◌%◌, ◌^◌, ◌≤◌, ◌<◌, min, bit_and, ◌≡◌, refl, sym, ap, ◌∙◌, inl, inr, Option, none,
  some, List, [], ◌∷◌, ◌++◌, arith,
}
use cisco_8000_kernel_module.Env.{Result, ok, err}
use cisco_8000_kernel_module.Bits.{
  testbit, testbit-bit_and, eq_of_testbit, testbit-zero, testbit-mod, testbit-pow,
}
use cisco_8000_kernel_module.Text.{codes}
use cisco_8000_kernel_module.Reg.{shl32}
use cisco_8000_kernel_module.Pseq.Rails.{
  Pseq, Out, scnprintf, rail_set, rail_line, show_rail, show_bits, show_rails, split_rails,
}

module _ {ℓ} {A : Type ℓ} where
  take-append : (n : ℕ) (xs ys : List A) → take n (xs ++ ys) ≡ take n xs ++ take (n - length xs) ys
  take-append zero xs ys = let e : 0 - length xs ≡ 0 = omega arith in ap (λ k. take k ys) (sym e)
  take-append (suc n) [] ys = let e : suc n - 0 ≡ suc n = omega arith in ap (λ k. take k ys) (sym e)
  take-append (suc n) (x ∷ xs) ys =
      let e : suc n - suc (length xs) ≡ n - length xs = omega arith in
      ap (λ t. x ∷ t) (take-append n xs ys ∙ ap (λ k. take n xs ++ take k ys) (sym e))

  length-take : (n : ℕ) (xs : List A) → length (take n xs) ≡ min n (length xs)
  length-take zero xs = omega arith
  length-take (suc n) [] = omega arith
  length-take (suc n) (x ∷ xs) = omega (arith, length-take n xs)

  take_nil : (n : ℕ) → ◌≡◌ {A = List A} (take n []) []
  take_nil zero = refl
  take_nil (suc n) = refl

  append_nil : (xs : List A) → xs ++ [] ≡ xs
  append_nil [] = refl
  append_nil (x ∷ xs) = ap (λ t. x ∷ t) (append_nil xs)

  append_assoc : (xs ys zs : List A) → (xs ++ ys) ++ zs ≡ xs ++ (ys ++ zs)
  append_assoc [] ys zs = refl
  append_assoc (x ∷ xs) ys zs = ap (λ t. x ∷ t) (append_assoc xs ys zs)

-- `data & (1 << bit)` is the bit.
testbit-shl32_one : (b i : ℕ) → b < 32 → testbit (shl32 1 b) i ≡ (i == b)
testbit-shl32_one b i p =
    let e : 1 * 2 ^ b ≡ 2 ^ b = omega arith in
    let m : shl32 1 b ≡ 2 ^ b % 2 ^ 32 = ap (λ t. t % 2 ^ 32) e in
    ground (arith, ap (λ t. testbit t i) m, testbit-mod (2 ^ b) 32 i, testbit-pow b i)

rail_set-testbit : (word b : ℕ) → b < 32 → rail_set word b ≡ testbit word b
rail_set-testbit word b p = elim (Bool-cases (testbit word b)) [
  | inl on ↦ elim (Bool-cases (x == 0)) [
    | inl z ↦ absurd (
        ground (
          arith,
          ap (λ t. testbit t b) ((==_iff x 0).0 z),
          testbit-zero b,
          testbit-bit_and word (shl32 1 b) b,
          testbit-shl32_one b b p,
        ))
    | inr nz ↦ ground arith
  ]
  | inr off ↦
      let none_set : (i : ℕ) → testbit x i ≡ testbit 0 i = λ i. elim (Bool-cases (i == b)) [
        | inl at ↦ ground (
          arith,
          testbit-bit_and word (shl32 1 b) i,
          testbit-zero i,
          ap (testbit word) ((==_iff i b).0 at),
        )
        | inr away ↦
            ground
              (arith, testbit-bit_and word (shl32 1 b) i, testbit-shl32_one b i p, testbit-zero i)
      ] in
      let z : x ≡ 0 = eq_of_testbit x 0 none_set in ground arith
]
  where
    x : ℕ
    x = bit_and word (shl32 1 b)

-- The text so far is a full text cut to `room` characters, and the rest of the room is left.
abbrev IsCut : ℕ → List ℕ → Out → Type 0
IsCut room full o = (o.text ≡ take (room - 1) full) × (o.len + length o.text ≡ room)

scnprintf-IsCut :
    (room : ℕ) (full t : List ℕ) (o : Out)
    → 1 ≤ room
    → IsCut room full o
    → IsCut room (full ++ t) (scnprintf t o)
scnprintf-IsCut room full t o p c =
    let left : room - 1 - length full ≡ o.len - 1 =
      omega (arith, c.1, ap length c.0, length-take (room - 1) full) in
    let few : length (take (o.len - 1) t) ≤ o.len = omega (arith, length-take (o.len - 1) t) in
    (
      ap (λ s. s ++ take (o.len - 1) t) c.0
          ∙ ap (λ k. take (room - 1) full ++ take k t) (sym left)
          ∙ sym (take-append (room - 1) full t),
      omega (arith, few, c.1, length-append o.text (take (o.len - 1) t)),
    )

module _ (decimal : ℕ → List ℕ) where
  -- The line of a rail: its name, the number of its bit if the name is missing, and none at all if the
  -- name is empty.
  abbrev pub line_text : Option (List ℕ) → ℕ → List ℕ
  line_text none b = codes "Rail @ bit " ++ (decimal b ++ (10 ∷ []))
  line_text (some name) b = if length name == 0 then [] else name ++ (10 ∷ [])

  rail_line_lem : (name : Option (List ℕ)) (b : ℕ) → rail_line decimal name b ≡ line_text name b
  unfolding rail_line
  rail_line_lem none b = refl
  rail_line_lem (some []) b = refl
  rail_line_lem (some (c ∷ cs)) b = ground arith

  -- The lines of the rails whose bits are set, from bit `b` on.
  pub rails_text : ℕ → ℕ → ℕ → List (Option (List ℕ)) → List ℕ
  rails_text zero word b names = []
  rails_text (suc left) word b names =
      (if testbit word b then line_text (get_or names 0 none) b else [])
      ++ rails_text left word (suc b) (drop 1 names)

  show_rail-IsCut :
      (room : ℕ) (full : List ℕ) (name : Option (List ℕ)) (word b : ℕ) (o : Out)
      → 1 ≤ room
      → b < 32
      → IsCut room full o
      → IsCut room
          (full ++ (if testbit word b then line_text name b else []))
          (show_rail decimal name word b o)
  unfolding show_rail
  show_rail-IsCut room full name word b o p q c = elim (Bool-cases (testbit word b)) [
    | inl on ↦
        let line : List ℕ = line_text name b in
        let shown : show_rail decimal name word b o ≡ scnprintf line o =
          ground (arith, rail_set-testbit word b q, rail_line_lem name b) in
        let text : (if testbit word b then line else []) ≡ line = ground arith in
        subst⁻¹ (λ t. IsCut room (full ++ t) (show_rail decimal name word b o)) text
          (subst⁻¹ (IsCut room (full ++ line)) shown (scnprintf-IsCut room full line o p c))
    | inr off ↦
        let shown : show_rail decimal name word b o ≡ o =
          ground (arith, rail_set-testbit word b q) in
        let text : (if testbit word b then line_text name b else []) ≡ [] = ground arith in
        subst⁻¹ (λ t. IsCut room (full ++ t) (show_rail decimal name word b o)) text
          (subst⁻¹ (λ t. IsCut room t (show_rail decimal name word b o)) (append_nil full)
            (subst⁻¹ (IsCut room full) shown c))
  ]

  show_bits-IsCut :
      (room left : ℕ) (full : List ℕ) (word b : ℕ) (names : List (Option (List ℕ))) (o : Out)
      → 1 ≤ room
      → b + left ≤ 32
      → IsCut room full o
      → IsCut room (full ++ rails_text left word b names) (show_bits decimal left word b names o)
  unfolding show_bits rails_text
  show_bits-IsCut room zero full word b names o p q c =
      subst⁻¹ (λ t. IsCut room t o) (append_nil full) c
  show_bits-IsCut room (suc left) full word b names o p q c =
      let name : Option (List ℕ) = get_or names 0 none in
      let line : List ℕ = if testbit word b then line_text name b else [] in
      let o1 : Out = show_rail decimal name word b o in
      let rest : List ℕ = rails_text left word (suc b) (drop 1 names) in
      let room_left : 1 ≤ o.len = omega (arith, c.1, ap length c.0, length-take (room - 1) full) in
      let step : show_bits decimal (suc left) word b names o
          ≡ show_bits decimal left word (suc b) (drop 1 names) o1 =
        ground arith in
      subst⁻¹ (IsCut room (full ++ (line ++ rest))) step (
        subst (λ t. IsCut room t (show_bits decimal left word (suc b) (drop 1 names) o1))
          (append_assoc full line rest)
          (show_bits-IsCut room left (full ++ line) word (suc b) (drop 1 names) o1 p (omega arith)
            (show_rail-IsCut room full name word b o p (omega arith) c)))

  -- With at most 32 rails in each word, and room for the NUL, the text that is shown is the lines of the
  -- rails whose bits are set, in order, cut to leave room for the NUL: the name of a rail, "Rail @ bit "
  -- and the number of its bit if it has no name, and nothing if its name is empty.
  pub show_rails-take :
      (p : Pseq) (word0 word1 room : ℕ)
      → 1 ≤ room
      → p.num_rails0 ≤ 32
      → p.num_rails1 ≤ 32
      → (show_rails decimal p word0 word1 room).text
        ≡ take (room - 1) (
            rails_text p.num_rails0 word0 0 p.rail_names
            ++ rails_text p.num_rails1 word1 0 (drop p.num_rails0 p.rail_names))
  unfolding show_rails
  show_rails-take p word0 word1 room r a b =
      let o : Out = record { text = []; len = room } in
      let first_part : List ℕ = rails_text p.num_rails0 word0 0 p.rail_names in
      let start_cut : IsCut room [] o = (sym (take_nil (room - 1)), omega arith) in
      let mid =
        show_bits-IsCut room p.num_rails0 [] word0 0 p.rail_names o r (omega arith) start_cut in
      (show_bits-IsCut room p.num_rails1 first_part word1 0 (drop p.num_rails0 p.rail_names)
        (show_bits decimal p.num_rails0 word0 0 p.rail_names o) r (omega arith) mid).0

-- The probe's numbers of rails fit the two words.
pub split_rails_le :
    (property : Result ℕ) → ((split_rails property).0 ≤ 32) × ((split_rails property).1 ≤ 32)
unfolding split_rails
split_rails_le (ok n) = (ground arith, ground arith)
split_rails_le (err e) = (omega arith, omega arith)
