-- ===== src/Reclaim/Orphans.antt =====
-- store/reclaim/reclaim.go: slabs that the account is billed for and that hold nothing, or that this
-- device has no record of.
use sennit.Prelude.{
  ℕ, String, Bool, not, ◌||◌, List, [], ◌∷◌, Result, ok, err, length, ◌==◌, if◌then◌else◌, str_eq,
  ltb,
}
use sennit.Prelude.Keys.{text_key, contains}
use sennit.Slabs.{TrackedSlab, tracked_slabs}
use sennit.Reclaim.Plan.{StoredObject, put_key}
use sennit.Reclaim.Device.{Fault, degenerate, Network, Device, and_then, unpin_each}

-- `type Orphan struct`
pub record Orphan : Type 0 where
  pub id : String
  pub tracked : Bool

-- `type Unledgered struct`
pub record Unledgered : Type 0 where
  pub id : String
  pub is_empty : Bool

-- The set `occupied` of the slabs that an object sits on.
unfoldable pub occupied_slabs : List StoredObject → List String
occupied_slabs [] = []
occupied_slabs (o ∷ os) =
    let rest = occupied_slabs os in if str_eq o.slab "" then rest else put_key o.slab rest

-- `func checkOccupancy(pinned, occupied int, releaseAll bool) error`
unfoldable pub check_occupancy : ℕ → ℕ → Bool → Result Fault (Unit {0})
check_occupancy pinned occupied release_all =
    if pinned == 0 || ltb 0 occupied || release_all then ok tt else err degenerate

-- The set `known` of the ledger's slabs.
unfoldable pub known_slabs : List TrackedSlab → List String
known_slabs [] = []
known_slabs (s ∷ ss) = put_key s.slab_id (known_slabs ss)

unfoldable pub list_orphans : List String → List String → List String → List Orphan
list_orphans occupied known [] = []
list_orphans occupied known (p ∷ ps) =
    let rest = list_orphans occupied known ps in
    if contains occupied p then rest else record { id = p; tracked = contains known p } ∷ rest

-- `func (r *Reclaimer) Orphans(ctx context.Context, releaseAll bool) ([]Orphan, error)`
unfoldable pub orphans : Network → Bool → Device → Device × Result Fault (List Orphan)
unfolding occupied_slabs check_occupancy known_slabs list_orphans tracked_slabs
orphans n release_all d =
    and_then (d, n.on_pinned d.calls)
      (λ d pinned.
        and_then (d, n.on_walk d.calls)
          (λ d walk.
            let occupied = occupied_slabs walk.0 in
            and_then (d, check_occupancy (length pinned) (length occupied) release_all)
              (λ d _.
                (d, ok (list_orphans occupied (known_slabs (tracked_slabs d.ledger)) pinned)))))

unfoldable pub list_unledgered : List String → List String → List String → List Unledgered
list_unledgered occupied known [] = []
list_unledgered occupied known (p ∷ ps) =
    let rest = list_unledgered occupied known ps in
    if contains known p
    then rest
    else record { id = p; is_empty = not (contains occupied p) } ∷ rest

-- `func (r *Reclaimer) Unledgered(ctx context.Context) ([]Unledgered, error)`
unfoldable pub unledgered : Network → Device → Device × Result Fault (List Unledgered)
unfolding occupied_slabs known_slabs list_unledgered tracked_slabs
unledgered n d =
    and_then (d, n.on_pinned d.calls)
      (λ d pinned.
        and_then (d, n.on_walk d.calls)
          (λ d walk. (
            d,
            ok (
                list_unledgered (occupied_slabs walk.0) (known_slabs (tracked_slabs d.ledger))
                  pinned),
          )))

unfoldable pub orphan_ids : List Orphan → List String
orphan_ids [] = []
orphan_ids (o ∷ os) = o.id ∷ orphan_ids os

-- `func (r *Reclaimer) ReleaseOrphans(ctx context.Context, releaseAll bool) (Sweep, error)`, without the
-- figures of its report.
unfoldable pub release_orphans : Network → Bool → Device → Device × Result Fault (Unit {0})
unfolding orphans unpin_each orphan_ids
release_orphans n release_all d =
    and_then (d, n.on_account d.calls)
      (λ d _. and_then (orphans n release_all d) (λ d found.
        and_then (unpin_each n (orphan_ids found) d)
          (λ d _. and_then (d, n.on_account d.calls) (λ d _. (d, ok tt)))))
