-- ===== src/Prelude/Keys.antt =====
-- Types with a decidable equality test, and lists used as Go's sets (`map[K]struct{}`).
use Prim.Native.Nat.{ℕ}
use Prim.Native.String.{String}
use mathlib.Core.Path.{◌≡◌, refl}
use mathlib.Core.Logic.{◌↔◌}
use mathlib.Core.Bool.{Bool, true, false, ◌||◌}
use mathlib.Core.List.{List, [], ◌∷◌}
use text.Mathlib.Text.{◌==◌ as str_eq}
use text.Mathlib.TextEquality.{eq_iff}
use sennit.Prelude.Tests.{◌==◌, ==_iff}

pub record Key {ℓ} (A : Type ℓ) : Type ℓ where
  pub same : A → A → Bool
  pub same_iff : (a b : A) → (same a b ≡ true) ↔ (a ≡ b)

instance abbrev pub number_key : Key ℕ
number_key = record { same = ◌==◌; same_iff = ==_iff }

instance abbrev pub text_key : Key String
text_key = record { same = str_eq; same_iff = eq_iff }

module _ {ℓ} {A : Type ℓ} ⦃k : Key A⦄ where
  -- `_, ok := set[a]`
  abbrev pub contains : List A → A → Bool
  contains [] a = false
  contains (x ∷ xs) a = k.same x a || contains xs a

  pub same_refl : (a : A) → k.same a a ≡ true
  same_refl a = (k.same_iff a a).1 refl
