-- ===== src/Slabs/Examples.antt =====
-- A concrete ledger, and the theorems at concrete inputs.
use sennit.Prelude.{◌≡◌, refl, [], ◌∷◌, if◌then◌else◌, str_eq}
use sennit.Slabs.{TrackedSlab, SlabLedger, adopt_slab, tracked_slabs, find_slab}
use sennit.Slabs.Origins.{may_release, is_pinned, adopt_slab_lem}

abbrev pub own : TrackedSlab
own = record { slab_id = "a"; pinned_at = 10; records = 2; bytes = 9; origin = "pinned" }

abbrev pub found : TrackedSlab
found = record { slab_id = "b"; pinned_at = 5; records = 1; bytes = 4; origin = "hydrated" }

abbrev pub ledger : SlabLedger
ledger = own ∷ found ∷ []

oldest_first : tracked_slabs ledger ≡ found ∷ own ∷ []
unfolding tracked_slabs
oldest_first = refl

adopt_slab_lem_example : may_release (find_slab "a" (adopt_slab "a" 1 5 20 ledger)) ≡ (
    if str_eq "a" "a" then is_pinned (find_slab "a" ledger) else may_release (find_slab "a" ledger))
adopt_slab_lem_example = adopt_slab_lem "a" 1 5 20 ledger "a"
