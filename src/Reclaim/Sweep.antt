-- ===== src/Reclaim/Sweep.antt =====
-- store/reclaim/reclaim.go: the sweep, which deletes the dead objects and then releases the slabs. Progress
-- events and durations are left out; how many slabs were released stands in the device.
use sennit.Prelude.{
  ℕ, ◌-◌, String, List, [], ◌∷◌, Result, ok, err, length, leb, if◌then◌else◌, str_eq,
}
use sennit.Slabs.{tracked_slabs, track_slab, adopt_slab}
use sennit.Reclaim.Plan.{StoredObject, Plan, Live, check, plan_sweep}
use sennit.Reclaim.Device.{Fault, degenerate, Network, Device, and_then, delete, unpin_each}

-- The figures of `type Sweep struct` that the device does not have.
pub record Swept : Type 0 where
  pub objects_seen : ℕ
  pub objects_deleted : ℕ
  pub unreadable : ℕ
  pub slabs_held : ℕ
  pub before : ℕ
  pub after : ℕ

abbrev pub figures : Plan → List StoredObject × List String → ℕ → ℕ → Swept
figures plan walk before after = record {
  objects_seen = length walk.0;
  objects_deleted = length plan.dead_objects;
  unreadable = length walk.1;
  slabs_held = plan.held_slabs;
  before = before;
  after = after;
}

-- The half of `Sweep` that destroys, on a plan.
unfoldable pub carry_out : Network → Plan → Device → Device × Result Fault (Unit {0})
unfolding delete unpin_each
carry_out n plan d =
    and_then (delete n plan.dead_objects d) (λ d' _. unpin_each n plan.releasable_slabs d')

-- The part of `Sweep` behind the walk.
unfoldable pub sweep_walked :
    Network → Live → ℕ → List StoredObject × List String → Device → Device × Result Fault Swept
unfolding carry_out plan_sweep tracked_slabs
sweep_walked n live before walk d =
    let plan = plan_sweep live (tracked_slabs d.ledger) walk.0 in
    and_then (carry_out n plan d) (λ d' _.
      and_then (d', n.on_account d'.calls)
        (λ d'' after. (d'', ok (figures plan walk before after))))

-- `func (r *Reclaimer) Sweep(ctx context.Context, live Live) (Sweep, error)`
unfoldable pub sweep : Network → Live → Device → Device × Result Fault Swept
unfolding sweep_walked check tracked_slabs
sweep n live d = elim (check live (length (tracked_slabs d.ledger))) [
  | err _ ↦ (d, err degenerate)
  | ok _ ↦
      and_then (d, n.on_account d.calls)
        (λ d' before.
          and_then (d', n.on_walk d'.calls) (λ d'' walk. sweep_walked n live before walk d''))
]

-- `func (s Sweep) Freed() uint64`
unfoldable pub freed : Swept → ℕ
freed s = if leb s.before s.after then 0 else s.before - s.after

-- `func (r *Reclaimer) DropUnreadable(ctx context.Context) ([]sia.ObjectRef, error)`
unfoldable pub delete_unreadable :
    Network → List String → Device → Device × Result Fault (List String)
unfolding delete
delete_unreadable n [] d = (d, ok [])
delete_unreadable n (u ∷ us) d = and_then (delete n (u ∷ us) d) (λ d' _. (d', ok (u ∷ us)))

unfoldable pub drop_unreadable : Network → Device → Device × Result Fault (List String)
unfolding delete_unreadable
drop_unreadable n d = and_then (d, n.on_walk d.calls) (λ d' walk. delete_unreadable n walk.1 d')

-- `func (r *Reclaimer) Track`
unfoldable pub track : String → ℕ → ℕ → ℕ → Device → Device
unfolding track_slab
track slab_id records bytes now d =
    if str_eq slab_id ""
    then d
    else record d { ledger = track_slab slab_id records bytes now d.ledger }

-- `func (r *Reclaimer) Adopt`
unfoldable pub adopt : String → ℕ → ℕ → ℕ → Device → Device
unfolding adopt_slab
adopt slab_id records bytes now d =
    if str_eq slab_id ""
    then d
    else record d { ledger = adopt_slab slab_id records bytes now d.ledger }
