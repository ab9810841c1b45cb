-- ===== src/Prelude/Maps.antt =====
-- Go's maps as association lists: a key stands at most once, where it was first inserted.
use mathlib.Core.Path.{◌≡◌, refl}
use mathlib.Core.Option.{Option, none, some}
use mathlib.Core.List.{List, [], ◌∷◌}
use native.Mathlib.Omega.{arith}
use sennit.Prelude.Tests.{if◌then◌else◌}
use sennit.Prelude.Keys.{Key}

module _ {ℓ κ} {K : Type ℓ} {V : Type κ} ⦃k : Key K⦄ where
  -- `v, ok := m[a]`
  abbrev pub lookup : List (K × V) → K → Option V
  lookup [] a = none
  lookup ((j, v) ∷ m) a = if k.same j a then some v else lookup m a

  -- `m[a] = v`
  abbrev pub insert : List (K × V) → K → V → List (K × V)
  insert [] a v = (a, v) ∷ []
  insert ((j, w) ∷ m) a v = if k.same j a then (a, v) ∷ m else (j, w) ∷ insert m a v

  pub lookup-insert :
      (m : List (K × V)) (a : K) (v : V) (b : K)
      → lookup (insert m a v) b ≡ (if k.same a b then some v else lookup m b)
  lookup-insert [] a v b = refl
  lookup-insert ((j, w) ∷ m) a v b =
      ground (arith, lookup-insert m a v b, k.same_iff j a, k.same_iff j b, k.same_iff a b)

module _ {ℓ κ} {K : Type ℓ} {V : Type κ} ⦃k : Key K⦄ where
  -- `delete(m, a)`
  abbrev pub delete : List (K × V) → K → List (K × V)
  delete [] a = []
  delete ((j, w) ∷ m) a = if k.same j a then delete m a else (j, w) ∷ delete m a

  pub lookup-delete :
      (m : List (K × V)) (a b : K)
      → lookup (delete m a) b ≡ (if k.same a b then none else lookup m b)
  lookup-delete [] a b = ground arith
  lookup-delete ((j, w) ∷ m) a b =
      ground (arith, lookup-delete m a b, k.same_iff j a, k.same_iff j b, k.same_iff a b)
