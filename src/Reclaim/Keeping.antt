-- ===== src/Reclaim/Keeping.antt =====
-- What a sweep's plan spares, and what the check of its keep-set lets through.
use sennit.Prelude.{
  ℕ, zero, suc, ◌≤◌, ◌<◌, ◌≡◌, refl, ◌∙◌, ap, String, Bool, true, false, not, ◌&&◌, ◌||◌, List, [],
  ◌∷◌, ok, arith, Bool-cases, ◌⊎◌, inl, inr, eq_iff, str_eq,
}
use sennit.Prelude.Keys.{text_key, contains}
use sennit.Slabs.{TrackedSlab, is_releasable}
use sennit.Reclaim.Plan.{
  ℤ, pos, negsuc, StoredObject, Live, count_keys, check_count, check, put_key, ours, dead_among,
  without, plan_sweep,
}

-- Whether a ledger has a slab as one that this device may release.
abbrev pub is_ours : List TrackedSlab → String → Bool
is_ours [] slab = false
is_ours (s ∷ ss) slab = (str_eq s.slab_id slab && is_releasable s.origin) || is_ours ss slab

-- Whether an object with a ref sits on one of the slabs that this device may release.
abbrev pub is_on_ours : List TrackedSlab → List StoredObject → String → Bool
is_on_ours tracked [] ref = false
is_on_ours tracked (o ∷ os) ref =
    (str_eq o.ref ref && is_ours tracked o.slab) || is_on_ours tracked os ref

pub contains-put_key :
    (k : String) (ks : List String) (x : String)
    → contains (put_key k ks) x ≡ (str_eq k x || contains ks x)
contains-put_key k ks x = elim (Bool-cases (str_eq k x)) [
  | inl e ↦ let same : k ≡ x = (eq_iff k x).0 e in ground (arith, ap (contains ks) same)
  | inr e ↦ ground arith
]

contains-ours :
    (tracked : List TrackedSlab) (x : String) → contains (ours tracked) x ≡ is_ours tracked x
unfolding ours
contains-ours [] x = refl
contains-ours (s ∷ ss) x = elim (Bool-cases (is_releasable s.origin)) [
  | inl e ↦ rw e (contains-put_key s.slab_id (ours ss) x ∙ ground (arith, contains-ours ss x))
  | inr e ↦ rw e (ground (arith, contains-ours ss x))
]

contains-without :
    (kept ss : List String) (x : String)
    → contains (without kept ss) x ≡ (contains ss x && not (contains kept x))
unfolding without
contains-without kept [] x = refl
contains-without kept (s ∷ ss) x = elim (Bool-cases (str_eq s x)) [
  | inl e ↦
      let same : s ≡ x = (eq_iff s x).0 e in
      ground (arith, contains-without kept ss x, ap (contains kept) same)
  | inr e ↦ ground (arith, contains-without kept ss x)
]

contains-dead_among :
    (tracked : List TrackedSlab) (live : Live) (os : List StoredObject) (ref : String)
    → contains (dead_among (ours tracked) live os) ref
      ≡ (is_on_ours tracked os ref && not (contains live.objects ref))
unfolding dead_among
contains-dead_among tracked live [] ref = refl
contains-dead_among tracked live (o ∷ os) ref = elim (Bool-cases (str_eq o.ref ref)) [
  | inl e ↦
      let same : o.ref ≡ ref = (eq_iff o.ref ref).0 e in
      ground (
        arith,
        contains-dead_among tracked live os ref,
        contains-ours tracked o.slab,
        ap (contains live.objects) same,
      )
  | inr e ↦ ground (arith, contains-dead_among tracked live os ref)
]

-- A sweep's plan names for deletion exactly the objects on slabs of this device that the keep-set does
-- not name, and for release exactly the slabs of this device that the keep-set does not name: an object
-- or a slab that the keep-set names is in neither, and neither is one of another device.
pub plan_sweep_lem :
    (live : Live) (tracked : List TrackedSlab) (objects : List StoredObject) (x : String)
    → (contains (plan_sweep live tracked objects).dead_objects x
        ≡ (is_on_ours tracked objects x && not (contains live.objects x)))
      × (contains (plan_sweep live tracked objects).releasable_slabs x
          ≡ (is_ours tracked x && not (contains live.slabs x)))
unfolding plan_sweep
plan_sweep_lem live tracked objects x = (
  contains-dead_among tracked live objects x,
  contains-without live.slabs (ours tracked) x ∙ ground (arith, contains-ours tracked x),
)

-- What the check takes for a keep-set that covers the vault.
abbrev pub Covers : Live → ℕ → Type 0
Covers live n =
    (n ≤ count_keys live.objects) × (0 < count_keys live.objects) × (0 < count_keys live.slabs)

-- A keep-set passes the check only where the catalog's count is not negative, and then either it covers
-- as many objects as the catalog has records, with at least one object and one slab, or the catalog is
-- empty and there is nothing pinned or the caller has asked for everything to be released.
pub check_lem :
    (live : Live) (pinned : ℕ)
    → check live pinned ≡ ok tt
    → (n : ℕ) × (live.catalogued ≡ pos n)
      × (((n ≡ 0) × ((pinned ≡ 0) ⊎ (live.release_all ≡ true))) ⊎ ((0 < n) × Covers live n))
unfolding check check_count
check_lem live pinned h = go live.catalogued refl
  where
    go :
        (z : ℤ)
        → live.catalogued ≡ z
        → (n : ℕ) × (live.catalogued ≡ pos n)
          × (((n ≡ 0) × ((pinned ≡ 0) ⊎ (live.release_all ≡ true))) ⊎ ((0 < n) × Covers live n))
    go (negsuc n) e = absurd (ground (arith, h, e))
    go (pos zero) e = (0, e, inl (refl, empty))
      where
        empty : (pinned ≡ 0) ⊎ (live.release_all ≡ true)
        empty = elim (Bool-cases live.release_all) [
          | inl r ↦ inr r
          | inr r ↦ inl (ground (arith, h, e, r))
        ]
    go (pos (suc n)) e = (
      suc n,
      e,
      inr (omega arith, (ground (arith, h, e), ground (arith, h, e), ground (arith, h, e))),
    )
