-- ===== src/Prelude/Counts.antt =====
-- Lists up to order: how many elements pass a test, for every test. Descending lists of numbers.
use Prim.Native.Nat.{ℕ, ◌+◌, ◌≤◌}
use mathlib.Core.Path.{◌≡◌, refl, sym}
use mathlib.Core.Bool.{Bool, true, false}
use mathlib.Core.List.{List, [], ◌∷◌, ◌++◌, map}
use mathlib.Core.Logic.{inl, inr}
use native.Mathlib.Omega.{arith}
use sennit.Prelude.Tests.{ltb, if◌then◌else◌, Bool-cases}
use sennit.Prelude.Lists.{length, All}

module _ {ℓ} {A : Type ℓ} where
  abbrev pub number : (A → Bool) → List A → ℕ
  number p [] = 0
  number p (x ∷ xs) = (if p x then 1 else 0) + number p xs

  -- Every test counts the same: the lists are equal up to order.
  abbrev pub SameItems : List A → List A → Type ℓ
  SameItems xs ys = (p : A → Bool) → number p xs ≡ number p ys

  pub number-append :
      (p : A → Bool) (xs ys : List A) → number p (xs ++ ys) ≡ number p xs + number p ys
  number-append p [] ys = omega arith
  number-append p (x ∷ xs) ys = omega (arith, number-append p xs ys)

  pub number_all : (xs : List A) → number (λ x. true) xs ≡ length xs
  number_all [] = refl
  number_all (x ∷ xs) = ground (arith, number_all xs)

  -- A test that fails whenever another one fails counts at most as much.
  pub number_mono :
      (p q : A → Bool) (xs : List A)
      → ((x : A) → p x ≡ true → q x ≡ true)
      → number p xs ≤ number q xs
  number_mono p q [] h = omega arith
  number_mono p q (x ∷ xs) h = ground (arith, number_mono p q xs h, h x)

  -- Where none passes, each fails.
  pub All-none : (p : A → Bool) (xs : List A) → number p xs ≡ 0 → All (λ x. p x ≡ false) xs
  All-none p [] h = tt
  All-none p (x ∷ xs) h = (ground (arith, h), All-none p xs (ground (arith, h)))

  pub number_none : (p : A → Bool) (xs : List A) → ((x : A) → p x ≡ false) → number p xs ≡ 0
  number_none p [] h = refl
  number_none p (x ∷ xs) h = ground (arith, number_none p xs h, h x)

module _ {ℓ κ} {A : Type ℓ} {B : Type κ} where
  pub number-map :
      (f : A → B) (p : B → Bool) (xs : List A) → number p (map f xs) ≡ number (λ x. p (f x)) xs
  number-map f p [] = refl
  number-map f p (x ∷ xs) = omega (arith, number-map f p xs)

-- The largest number first.
abbrev pub Descending : List ℕ → Type 0
Descending [] = Unit {0}
Descending (x ∷ xs) = (number (ltb x) xs ≡ 0) × Descending xs

heads_eq :
    (x y : ℕ) (xs ys : List ℕ)
    → Descending (x ∷ xs)
    → number (ltb x) (x ∷ xs) ≡ number (ltb x) (y ∷ ys)
    → y ≤ x
heads_eq x y xs ys d same = ground (arith, d.0, same)

-- A list has one descending order.
pub Descending-unique : (xs ys : List ℕ) → Descending xs → Descending ys → SameItems xs ys → xs ≡ ys
Descending-unique [] [] dx dy same = refl
Descending-unique [] (y ∷ ys) dx dy same = absurd (ground (arith, same (λ z. true)))
Descending-unique (x ∷ xs) [] dx dy same = absurd (ground (arith, same (λ z. true)))
Descending-unique (x ∷ xs) (y ∷ ys) dx dy same =
    let head : x ≡ y =
      omega
        (arith, heads_eq x y xs ys dx (same (ltb x)), heads_eq y x ys xs dy (sym (same (ltb y)))) in
    cc (head, Descending-unique xs ys dx.1 dy.1 (λ p. ground (arith, same p, head)))

-- The reference order: sorting by insertion.
unfoldable pub insert_desc : ℕ → List ℕ → List ℕ
insert_desc a [] = a ∷ []
insert_desc a (x ∷ xs) = if ltb a x then x ∷ insert_desc a xs else a ∷ x ∷ xs

unfoldable pub sort_desc : List ℕ → List ℕ
unfolding insert_desc
sort_desc [] = []
sort_desc (x ∷ xs) = insert_desc x (sort_desc xs)

number-insert_desc :
    (p : ℕ → Bool) (a : ℕ) (xs : List ℕ)
    → number p (insert_desc a xs) ≡ (if p a then 1 else 0) + number p xs
unfolding insert_desc
number-insert_desc p a [] = refl
number-insert_desc p a (x ∷ xs) = ground (arith, number-insert_desc p a xs)

pub sort_desc-SameItems : (xs : List ℕ) → SameItems (sort_desc xs) xs
unfolding sort_desc
sort_desc-SameItems [] p = refl
sort_desc-SameItems (x ∷ xs) p =
    omega (arith, number-insert_desc p x (sort_desc xs), sort_desc-SameItems xs p)

insert_desc-Descending : (a : ℕ) (xs : List ℕ) → Descending xs → Descending (insert_desc a xs)
unfolding insert_desc
insert_desc-Descending a [] d = (refl, tt)
insert_desc-Descending a (x ∷ xs) d = elim (Bool-cases (ltb a x)) [
  | inl e ↦
      rw (e, if◌then◌else◌)
        (ground (arith, number-insert_desc (ltb x) a xs, d.0, e), insert_desc-Descending a xs d.1)
  | inr e ↦
      rw (e, if◌then◌else◌)
        (
          (let above : number (ltb a) xs ≤ number (ltb x) xs =
                number_mono (ltb a) (ltb x) xs (λ z h. ground (arith, h, e)) in
              ground (arith, d.0, e, above)),
          d,
        )
]

pub sort_desc-Descending : (xs : List ℕ) → Descending (sort_desc xs)
unfolding sort_desc
sort_desc-Descending [] = tt
sort_desc-Descending (x ∷ xs) = insert_desc-Descending x (sort_desc xs) (sort_desc-Descending xs)

-- Two descending lists with a number between them make one.
pub Descending-append :
    (c : ℕ) (xs ys : List ℕ)
    → Descending xs
    → Descending ys
    → number (λ x. ltb x c) xs ≡ 0
    → number (ltb c) ys ≡ 0
    → Descending (xs ++ ys)
Descending-append c [] ys dx dy hx hy = dy
Descending-append c (x ∷ xs) ys dx dy hx hy = (
  (let mono : number (ltb x) ys ≤ number (ltb c) ys =
        number_mono (ltb x) (ltb c) ys (λ z h. ground (arith, h, hx)) in
      ground (arith, number-append (ltb x) xs ys, dx.0, mono, hy)),
  Descending-append c xs ys dx.1 dy (ground (arith, hx)) hy,
)
