-- ===== src/Reclaim/Plan.antt =====
-- store/reclaim/reclaim.go: the keep-set and its check, and the decision that a sweep makes. A Go map is
-- the list of its keys; the order in which a map is walked is that of the list.
use sennit.Prelude.{
  ℕ, zero, suc, String, Bool, not, ◌&&◌, List, [], ◌∷◌, Result, ok, err, ltb, ◌==◌, if◌then◌else◌,
}
use sennit.Prelude.Keys.{text_key, contains}
use sennit.Slabs.{TrackedSlab, is_releasable}

-- Go's `int`.
pub data ℤ : Type 0 where
  pos negsuc : ℕ → ℤ

-- `sia.StoredObject`: an object of the account and the slab that it sits on.
pub record StoredObject : Type 0 where
  pub ref : String
  pub slab : String

-- `type Plan struct`
pub record Plan : Type 0 where
  pub dead_objects : List String
  pub releasable_slabs : List String
  pub held_slabs : ℕ
  pub foreign_objects : ℕ

-- `type Live struct`
pub record Live : Type 0 where
  pub objects : List String
  pub slabs : List String
  pub catalogued : ℤ
  pub release_all : Bool

-- The number of a map's keys.
unfoldable pub count_keys : List String → ℕ
count_keys [] = 0
count_keys (k ∷ ks) = let rest = count_keys ks in if contains ks k then rest else suc rest

pub data Refusal : Type 0 where
  keep_set_degenerate : Refusal

-- `func (l Live) Check(pinned int) error`
unfoldable pub check_count : ℕ → ℕ → Live → Result Refusal (Unit {0})
unfolding count_keys
check_count zero pinned l =
    if pinned == 0 then ok tt else if not l.release_all then err keep_set_degenerate else ok tt
check_count (suc n) pinned l =
    if count_keys l.objects == 0
    then err keep_set_degenerate
    else if ltb (count_keys l.objects) (suc n)
    then err keep_set_degenerate
    else if count_keys l.slabs == 0
    then err keep_set_degenerate
    else ok tt

abbrev check_catalogued : ℤ → ℕ → Live → Result Refusal (Unit {0})
check_catalogued (negsuc n) pinned l = err keep_set_degenerate
check_catalogued (pos n) pinned l = check_count n pinned l

unfoldable pub check : Live → ℕ → Result Refusal (Unit {0})
unfolding check_count
check l pinned = check_catalogued l.catalogued pinned l

-- A key is put in a map.
abbrev pub put_key : String → List String → List String
put_key k ks = if contains ks k then ks else k ∷ ks

-- The map `ours` of the first loop.
unfoldable pub ours : List TrackedSlab → List String
unfolding is_releasable
ours [] = []
ours (s ∷ ss) =
    let rest = ours ss in if is_releasable s.origin then put_key s.slab_id rest else rest

unfoldable pub count_held : List TrackedSlab → ℕ
unfolding is_releasable
count_held [] = 0
count_held (s ∷ ss) = let rest = count_held ss in if is_releasable s.origin then rest else suc rest

-- The second loop: objects on our slabs that the keep-set does not name.
unfoldable pub dead_among : List String → Live → List StoredObject → List String
dead_among mine live [] = []
dead_among mine live (o ∷ os) =
    let rest = dead_among mine live os in
    if contains mine o.slab && not (contains live.objects o.ref) then o.ref ∷ rest else rest

unfoldable pub count_foreign : List String → List StoredObject → ℕ
count_foreign mine [] = 0
count_foreign mine (o ∷ os) =
    let rest = count_foreign mine os in if contains mine o.slab then rest else suc rest

-- The third loop: our slabs that the keep-set does not name.
unfoldable pub without : List String → List String → List String
without kept [] = []
without kept (s ∷ ss) = let rest = without kept ss in if contains kept s then rest else s ∷ rest

-- `func planSweep(live Live, tracked []Slab, objects []sia.StoredObject) Plan`
unfoldable pub plan_sweep : Live → List TrackedSlab → List StoredObject → Plan
unfolding ours dead_among without count_held count_foreign
plan_sweep live tracked objects = record {
  dead_objects = dead_among (ours tracked) live objects;
  releasable_slabs = without live.slabs (ours tracked);
  held_slabs = count_held tracked;
  foreign_objects = count_foreign (ours tracked) objects;
}
