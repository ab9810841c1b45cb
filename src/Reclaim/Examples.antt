-- ===== src/Reclaim/Examples.antt =====
-- A concrete account, and the theorems at concrete inputs.
use sennit.Prelude.{
  ℕ, ◌≡◌, refl, ◌<◌, String, true, false, not, ◌&&◌, ◌||◌, List, [], ◌∷◌, take, Result, ok, length,
  str_eq, ◌⊎◌, All, ltb,
}
use sennit.Prelude.Keys.{text_key, contains}
use sennit.Slabs.{is_releasable, tracked_slabs}
use sennit.Slabs.Examples.{ledger}
use sennit.Store.Examples.{network as writer}
use sennit.Reclaim.Plan.{
  pos, StoredObject, Live, count_keys, check_count, check, ours, dead_among, without, plan_sweep,
}
use sennit.Reclaim.Keeping.{is_ours, is_on_ours, Covers, plan_sweep_lem, check_lem}
use sennit.Reclaim.Device.{Fault, delete_objects, Network, Device, delete, unpin_each}
use sennit.Reclaim.Sweep.{sweep, sweep_walked, carry_out}
use sennit.Reclaim.Order.{unpins, Spares, sweep_order, sweep-Spares}
use sennit.Reclaim.Orphans.{
  Orphan, orphans, occupied_slabs, known_slabs, list_orphans, check_occupancy, orphan_ids,
}
use sennit.Reclaim.Empty.{holds_object, orphans_lem}
use sennit.Reclaim.Repack.{Held, Moved}

abbrev object : String → String → StoredObject
object ref slab = record { ref = ref; slab = slab }

abbrev objects : List StoredObject
objects = object "o" "a" ∷ object "p" "a" ∷ object "q" "b" ∷ []

-- A catalog that still has `p`, on the slab that this device pinned.
abbrev live : Live
live = record { objects = "p" ∷ []; slabs = "a" ∷ []; catalogued = pos 1; release_all = false }

abbrev network : Network
network = record {
  on_account = λ calls. ok 100;
  on_walk = λ calls. ok (objects, []);
  on_pinned = λ calls. ok ("a" ∷ "b" ∷ "c" ∷ []);
  on_delete = λ refs. ok tt;
  on_unpin = λ slab. ok tt;
  on_download = λ ref. ok (1 ∷ []);
}

abbrev device : Device
device = record { ledger = ledger; cached = "a" ∷ []; calls = []; released = [] }

-- Only `o` goes: `p` is live, `q` is another device's, and the slab has a live object.
swept : (sweep network live device).0.calls ≡ delete_objects ("o" ∷ []) ∷ []
unfolding sweep sweep_walked carry_out check check_count count_keys tracked_slabs plan_sweep ours
    dead_among without is_releasable delete unpin_each
swept = refl

plan_sweep_lem_example :
    (contains (plan_sweep live ledger objects).dead_objects "o"
      ≡ (is_on_ours ledger objects "o" && not (contains live.objects "o")))
    × (contains (plan_sweep live ledger objects).releasable_slabs "o"
        ≡ (is_ours ledger "o" && not (contains live.slabs "o")))
plan_sweep_lem_example = plan_sweep_lem live ledger objects "o"

check_lem_example :
    (n : ℕ) × (live.catalogued ≡ pos n)
    × (((n ≡ 0) × ((◌≡◌ {A = ℕ} 2 0) ⊎ (live.release_all ≡ true))) ⊎ ((0 < n) × Covers live n))
check_lem_example = check_lem live 2 (unfold check check_count count_keys in refl)

sweep_order_example :
    ((sweep network live device).0 ≡ device)
    ⊎ ((check live (length (tracked_slabs ledger)) ≡ ok tt)
        × ((walk : (List StoredObject × List String)) × (network.on_walk [] ≡ ok walk)
            × (k : ℕ) × ((sweep network live device).0.calls
                ≡ delete_objects (plan_sweep live (tracked_slabs ledger) walk.0).dead_objects
                  ∷ unpins
                      (take k (plan_sweep live (tracked_slabs ledger) walk.0).releasable_slabs))))
sweep_order_example = sweep_order network live device refl

sweep-Spares_example : All (Spares live (tracked_slabs ledger)) (sweep network live device).0.calls
sweep-Spares_example = sweep-Spares network live device refl

abbrev orphan : Orphan
orphan = record { id = "c"; tracked = false }

orphans_lem_example :
    (pinned : List String) × (walk : (List StoredObject × List String)) × (network.on_pinned []
      ≡ ok pinned)
    × (network.on_walk [] ≡ ok walk)
    × ((slab : String)
        → contains (orphan_ids (orphan ∷ [])) slab
          ≡ (contains pinned slab && not (holds_object walk.0 slab && not (str_eq slab ""))))
    × ((length pinned ≡ 0) ⊎ ((ltb 0 (length (occupied_slabs walk.0)) || false) ≡ true))
orphans_lem_example =
    orphans_lem network false device (orphan ∷ [])
      (unfold orphans occupied_slabs check_occupancy known_slabs list_orphans tracked_slabs in refl)

abbrev held : List Held
held = record { id = 1; cid = "c"; ref = "o"; slab_id = "a" } ∷ []

abbrev takes : List Moved → Result Fault (Unit {0})
takes moved = ok tt
