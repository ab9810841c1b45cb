-- ===== src/Slabs/Origins.antt =====
-- What a ledger lets this device release: what it pinned, and nothing that it only found.
use sennit.Prelude.{
  ℕ, ◌+◌, ◌≡◌, refl, String, Bool, true, false, ◌||◌, Option, none, some, [], ◌∷◌, if◌then◌else◌,
  str_eq, eq_iff, arith, Bool-cases, inl, inr, ap, ◌∙◌,
}
use sennit.Slabs.{
  SlabOrigin, slab_pinned, slab_hydrated, is_releasable, TrackedSlab, SlabLedger, put_slab,
  adopt_slab, forget_slab, take_slab_ownership, find_slab,
}

-- Whether the ledger lets this device release a slab.
abbrev pub may_release : Option TrackedSlab → Bool
may_release none = false
may_release (some s) = is_releasable s.origin

-- Whether the ledger says that this device pinned a slab.
abbrev pub is_pinned : Option TrackedSlab → Bool
is_pinned none = false
is_pinned (some s) = str_eq s.origin slab_pinned

abbrev pub is_tracked : Option TrackedSlab → Bool
is_tracked none = false
is_tracked (some s) = true

abbrev merged : TrackedSlab → Option TrackedSlab → TrackedSlab
merged new none = new
merged new (some s) = record s {
  records = s.records + new.records;
  bytes = s.bytes + new.bytes;
  origin =
      if str_eq s.origin slab_pinned || str_eq new.origin slab_pinned
      then slab_pinned
      else slab_hydrated;
}

find-put_slab :
    (new : TrackedSlab) (l : SlabLedger) (id : String)
    → find_slab id (put_slab new l) ≡ (
        if str_eq new.slab_id id
        then some (merged new (find_slab new.slab_id l))
        else find_slab id l)
unfolding put_slab
find-put_slab new [] id = ground arith
find-put_slab new (s ∷ ss) id = ground (
  arith,
  find-put_slab new ss id,
  eq_iff s.slab_id new.slab_id,
  eq_iff s.slab_id id,
  eq_iff new.slab_id id,
)

may_release-stronger :
    (a : SlabOrigin)
    → is_releasable (
        if str_eq a slab_pinned || str_eq slab_hydrated slab_pinned
        then slab_pinned
        else slab_hydrated)
      ≡ str_eq a slab_pinned
unfolding is_releasable
may_release-stronger a = elim (Bool-cases (str_eq a slab_pinned)) [
  | inl e ↦ rw e refl
  | inr e ↦ rw e refl
]

-- A slab that hydration finds is this device's to release only where the ledger had it as pinned
-- before, and then it stays so; no other slab's standing changes.
pub adopt_slab_lem :
    (slab_id : String) (records bytes now : ℕ) (l : SlabLedger) (id : String)
    → may_release (find_slab id (adopt_slab slab_id records bytes now l)) ≡ (
        if str_eq slab_id id then is_pinned (find_slab slab_id l) else may_release (find_slab id l))
unfolding adopt_slab
adopt_slab_lem slab_id records bytes now l id =
    ap may_release (find-put_slab _ l id) ∙ go (find_slab slab_id l)
  where
    new : TrackedSlab
    new = record {
      slab_id = slab_id;
      pinned_at = now;
      records = records;
      bytes = bytes;
      origin = slab_hydrated;
    }

    go :
        (o : Option TrackedSlab)
        → may_release (if str_eq slab_id id then some (merged new o) else find_slab id l)
          ≡ (if str_eq slab_id id then is_pinned o else may_release (find_slab id l))
    go none = elim (Bool-cases (str_eq slab_id id)) [
      | inl e ↦ rw e (unfold is_releasable in refl)
      | inr e ↦ rw e refl
    ]
    go (some s) = elim (Bool-cases (str_eq slab_id id)) [
      | inl e ↦ rw e (may_release-stronger s.origin)
      | inr e ↦ rw e refl
    ]

forget-slab :
    (gone : String) (l : SlabLedger) (id : String)
    → find_slab id (forget_slab gone l) ≡ (if str_eq gone id then none else find_slab id l)
unfolding forget_slab
forget-slab gone [] id = ground arith
forget-slab gone (s ∷ ss) id =
    ground
      (arith, forget-slab gone ss id, eq_iff s.slab_id gone, eq_iff s.slab_id id, eq_iff gone id)

-- Taking ownership, which is asked for, makes every slab of the ledger this device's to release, and adds
-- none.
pub take_slab_ownership_lem :
    (l : SlabLedger) (id : String)
    → may_release (find_slab id (take_slab_ownership l).0) ≡ is_tracked (find_slab id l)
unfolding take_slab_ownership is_releasable
take_slab_ownership_lem [] id = refl
take_slab_ownership_lem (s ∷ ss) id = elim (Bool-cases (str_eq s.origin slab_hydrated)) [
  | inl e ↦ rw e (ground (arith, e, take_slab_ownership_lem ss id))
  | inr e ↦ rw e (ground (arith, e, take_slab_ownership_lem ss id))
]
