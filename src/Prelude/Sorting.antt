-- ===== src/Prelude/Sorting.antt =====
-- Stable sorting by a strict order, and lists in that order.
use Prim.Native.Nat.{◌+◌, ◌≤◌}
use mathlib.Core.Path.{◌≡◌, refl}
use mathlib.Core.Bool.{Bool, true, false}
use mathlib.Core.List.{List, [], ◌∷◌}
use mathlib.Core.Logic.{inl, inr}
use native.Mathlib.Omega.{arith}
use sennit.Prelude.Tests.{if◌then◌else◌, Bool-cases}
use sennit.Prelude.Counts.{number, SameItems, number_mono}

module _ {ℓ} {A : Type ℓ} (less : A → A → Bool) where
  -- `sort.SliceStable`: the order of elements that do not compare is kept.
  unfoldable pub insert_by : A → List A → List A
  insert_by a [] = a ∷ []
  insert_by a (x ∷ xs) = if less x a then x ∷ insert_by a xs else a ∷ x ∷ xs

  unfoldable pub sort_by : List A → List A
  unfolding insert_by
  sort_by [] = []
  sort_by (x ∷ xs) = insert_by x (sort_by xs)

  -- Nothing stands behind an element that comes before it.
  abbrev pub OrderedBy : List A → Type 0
  OrderedBy [] = Unit {0}
  OrderedBy (x ∷ xs) = (number (λ y. less y x) xs ≡ 0) × OrderedBy xs

  number-insert_by :
      (p : A → Bool) (a : A) (xs : List A)
      → number p (insert_by a xs) ≡ (if p a then 1 else 0) + number p xs
  unfolding insert_by
  number-insert_by p a [] = refl
  number-insert_by p a (x ∷ xs) = ground (arith, number-insert_by p a xs)

  pub sort_by-SameItems : (xs : List A) → SameItems (sort_by xs) xs
  unfolding sort_by
  sort_by-SameItems [] p = refl
  sort_by-SameItems (x ∷ xs) p =
      ground (arith, number-insert_by p x (sort_by xs), sort_by-SameItems xs p)

  -- A strict order in which what does not compare is as good as equal.
  pub record IsStrictOrder : Type ℓ where
    pub asymmetric : (x y : A) → less x y ≡ true → less y x ≡ false
    pub splits : (x y z : A) → less x z ≡ true → less y z ≡ false → less x y ≡ true

  module _ (order : IsStrictOrder) where
    insert_by-OrderedBy : (a : A) (xs : List A) → OrderedBy xs → OrderedBy (insert_by a xs)
    unfolding insert_by
    insert_by-OrderedBy a [] h = (refl, tt)
    insert_by-OrderedBy a (x ∷ xs) h = elim (Bool-cases (less x a)) [
      | inl e ↦
          rw (e, if◌then◌else◌)
            (
              ground (arith, number-insert_by (λ y. less y x) a xs, h.0, order.asymmetric x a e),
              insert_by-OrderedBy a xs h.1,
            )
      | inr e ↦
          rw (e, if◌then◌else◌)
            (
              (let mono : number (λ y. less y a) xs ≤ number (λ y. less y x) xs =
                    number_mono (λ y. less y a) (λ y. less y x) xs
                      (λ y q. order.splits y x a q e) in
                  ground (arith, e, h.0, mono)),
              h,
            )
    ]

    pub sort_by-OrderedBy : (xs : List A) → OrderedBy (sort_by xs)
    unfolding sort_by
    sort_by-OrderedBy [] = tt
    sort_by-OrderedBy (x ∷ xs) = insert_by-OrderedBy x (sort_by xs) (sort_by-OrderedBy xs)
