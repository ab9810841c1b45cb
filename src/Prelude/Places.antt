-- ===== src/Prelude/Places.antt =====
-- Slices read and written at an index.
use Prim.Native.Nat.{ℕ, zero, suc, ◌<◌}
use mathlib.Core.Path.{◌≡◌, refl}
use mathlib.Core.Option.{Option, none, some}
use mathlib.Core.List.{List, [], ◌∷◌, ◌++◌}
use native.Mathlib.Omega.{arith}
use sennit.Prelude.Tests.{if◌then◌else◌, ◌==◌, ltb}
use sennit.Prelude.Lists.{length, take}

module _ {ℓ} {A : Type ℓ} where
  -- `a[i]`; an index out of range has nothing.
  abbrev pub get_elem? : List A → ℕ → Option A
  get_elem? [] i = none
  get_elem? (x ∷ xs) zero = some x
  get_elem? (x ∷ xs) (suc i) = get_elem? xs i

  -- `a[i] = y`
  abbrev pub set : List A → ℕ → A → List A
  set [] i y = []
  set (x ∷ xs) zero y = y ∷ xs
  set (x ∷ xs) (suc i) y = x ∷ set xs i y

  pub length-set : (xs : List A) (i : ℕ) (y : A) → length (set xs i y) ≡ length xs
  length-set [] i y = refl
  length-set (x ∷ xs) zero y = refl
  length-set (x ∷ xs) (suc i) y = ground (arith, length-set xs i y)

  pub get_elem?-set :
      (xs : List A) (i : ℕ) (y : A) (j : ℕ)
      → i < length xs
      → get_elem? (set xs i y) j ≡ (if i == j then some y else get_elem? xs j)
  get_elem?-set [] i y j h = absurd (ground arith)
  get_elem?-set (x ∷ xs) zero y zero h = ground arith
  get_elem?-set (x ∷ xs) zero y (suc j) h = ground arith
  get_elem?-set (x ∷ xs) (suc i) y zero h = ground arith
  get_elem?-set (x ∷ xs) (suc i) y (suc j) h = ground (arith, get_elem?-set xs i y j (omega arith))

  -- Behind an append of one.
  pub get_elem?-snoc :
      (xs : List A) (y : A) (j : ℕ)
      → get_elem? (xs ++ y ∷ []) j ≡ (if j == length xs then some y else get_elem? xs j)
  get_elem?-snoc [] y zero = ground arith
  get_elem?-snoc [] y (suc j) = ground arith
  get_elem?-snoc (x ∷ xs) y zero = ground arith
  get_elem?-snoc (x ∷ xs) y (suc j) = ground (arith, get_elem?-snoc xs y j)

  pub get_elem?-take :
      (n : ℕ) (xs : List A) (j : ℕ)
      → get_elem? (take n xs) j ≡ (if ltb j n then get_elem? xs j else none)
  get_elem?-take zero xs j = ground arith
  get_elem?-take (suc n) [] j = ground arith
  get_elem?-take (suc n) (x ∷ xs) zero = ground arith
  get_elem?-take (suc n) (x ∷ xs) (suc j) = ground (arith, get_elem?-take n xs j)

  -- An index that holds something is in range, and one in range holds something.
  pub get_elem?-lt : (xs : List A) (i : ℕ) (x : A) → get_elem? xs i ≡ some x → i < length xs
  get_elem?-lt [] i x h = absurd (ground arith)
  get_elem?-lt (y ∷ ys) zero x h = omega arith
  get_elem?-lt (y ∷ ys) (suc i) x h = omega (arith, get_elem?-lt ys i x h)

  pub get_elem?-some : (xs : List A) (i : ℕ) → i < length xs → (x : A) × (get_elem? xs i ≡ some x)
  get_elem?-some [] i h = absurd (omega arith)
  get_elem?-some (y ∷ ys) zero h = (y, refl)
  get_elem?-some (y ∷ ys) (suc i) h = get_elem?-some ys i (omega arith)
