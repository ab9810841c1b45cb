-- ===== src/Slabs.antt =====
-- local/slabs.go: the ledger of the slabs that this installation pinned, or found by hydrating. The
-- statements on its table are steps on the rows.
pub mod Origins
pub mod Examples
use sennit.Prelude.{
  ℕ, suc, ◌+◌, String, Bool, true, false, not, ◌||◌, Option, none, some, List, [], ◌∷◌, leb,
  if◌then◌else◌, str_eq,
}

-- `type SlabOrigin string`
abbrev pub SlabOrigin : Type 0
SlabOrigin = String

abbrev pub slab_pinned : SlabOrigin
slab_pinned = "pinned"

abbrev pub slab_hydrated : SlabOrigin
slab_hydrated = "hydrated"

-- `func (o SlabOrigin) Releasable() bool`
unfoldable pub is_releasable : SlabOrigin → Bool
is_releasable o = not (str_eq o slab_hydrated)

-- `type TrackedSlab struct`
pub record TrackedSlab : Type 0 where
  pub slab_id : String
  pub pinned_at : ℕ
  pub records : ℕ
  pub bytes : ℕ
  pub origin : SlabOrigin

-- The rows of the table `slabs`, whose key is `slab_id`.
abbrev pub SlabLedger : Type 0
SlabLedger = List TrackedSlab

-- `CASE WHEN slabs.origin = 'pinned' OR excluded.origin = 'pinned' THEN 'pinned' ELSE 'hydrated' END`
abbrev pub stronger : SlabOrigin → SlabOrigin → SlabOrigin
stronger a b = if str_eq a slab_pinned || str_eq b slab_pinned then slab_pinned else slab_hydrated

-- `func (s *Store) trackSlab`, `new` being the row to insert.
unfoldable pub put_slab : TrackedSlab → SlabLedger → SlabLedger
put_slab new [] = new ∷ []
put_slab new (s ∷ ss) =
    if str_eq s.slab_id new.slab_id
    then record s {
      records = s.records + new.records;
      bytes = s.bytes + new.bytes;
      origin = stronger s.origin new.origin;
    }
      ∷ ss
    else s ∷ put_slab new ss

-- `func (s *Store) TrackSlab`
unfoldable pub track_slab : String → ℕ → ℕ → ℕ → SlabLedger → SlabLedger
unfolding put_slab
track_slab slab_id records bytes now l =
    put_slab
      (record {
        slab_id = slab_id;
        pinned_at = now;
        records = records;
        bytes = bytes;
        origin = slab_pinned;
      })
      l

-- `func (s *Store) AdoptSlab`
unfoldable pub adopt_slab : String → ℕ → ℕ → ℕ → SlabLedger → SlabLedger
unfolding put_slab
adopt_slab slab_id records bytes now l =
    put_slab
      (record {
        slab_id = slab_id;
        pinned_at = now;
        records = records;
        bytes = bytes;
        origin = slab_hydrated;
      })
      l

abbrev insert_by_age : TrackedSlab → List TrackedSlab → List TrackedSlab
insert_by_age s [] = s ∷ []
insert_by_age s (t ∷ ts) =
    let rest = insert_by_age s ts in if leb s.pinned_at t.pinned_at then s ∷ t ∷ ts else t ∷ rest

-- `func (s *Store) TrackedSlabs() ([]TrackedSlab, error)`
unfoldable pub tracked_slabs : SlabLedger → List TrackedSlab
tracked_slabs [] = []
tracked_slabs (s ∷ ss) = insert_by_age s (tracked_slabs ss)

-- `func (s *Store) TakeSlabOwnership() (int, error)`
unfoldable pub take_slab_ownership : SlabLedger → SlabLedger × ℕ
take_slab_ownership [] = ([], 0)
take_slab_ownership (s ∷ ss) =
    let (rest, n) = take_slab_ownership ss in
    if str_eq s.origin slab_hydrated
    then (record s { origin = slab_pinned } ∷ rest, suc n)
    else (s ∷ rest, n)

-- `func (s *Store) ForgetSlab(slabID string) error`
unfoldable pub forget_slab : String → SlabLedger → SlabLedger
forget_slab id [] = []
forget_slab id (s ∷ ss) =
    let rest = forget_slab id ss in if str_eq s.slab_id id then rest else s ∷ rest

abbrev pub find_slab : String → SlabLedger → Option TrackedSlab
find_slab id [] = none
find_slab id (s ∷ ss) = if str_eq s.slab_id id then some s else find_slab id ss
