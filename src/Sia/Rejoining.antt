-- ===== src/Sia/Rejoining.antt =====
-- A location that was split and cached is put together as it was, and only one that can be read passes.
use sennit.Prelude.{
  ℕ, ◌<◌, ◌≤◌, ◌≡◌, refl, String, Bool, false, some, List, [], ◌∷◌, ok, length, ◌==◌, arith, All,
}
use sennit.Sia.Envelope.{SlabSlice, SealedObject, encode_slab, encode_object}
use sennit.Sia.Caching.{
  IsSlab, IsObject, places, slab_ids, decode_slab-encode_slab, decode_object-encode_object,
}
use sennit.Sia.Location.{
  SlabLocation, find_shared, join_slices, split_location, join_location, count_reachable,
  check_reachable,
}

module _ (digest : SlabSlice → List ℕ) (text_of : List ℕ → String) where
  -- The cache has the part that a slab shares.
  abbrev pub IsCached : List SlabLocation → SlabSlice → Type 0
  IsCached shared s = find_shared (text_of (digest s)) shared ≡ some (encode_slab s)

  join_slices-places :
      (shared : List SlabLocation) (ss : List SlabSlice)
      → All IsSlab ss
      → All (IsCached shared) ss
      → join_slices shared (slab_ids digest text_of ss) (places digest text_of ss) ≡ ok ss
  unfolding join_slices
  join_slices-places shared [] h c = refl
  join_slices-places shared (s ∷ ss) h c =
      rw (c.0, decode_slab-encode_slab s h.0, join_slices-places shared ss h.1 c.1, join_slices)
        refl

  -- A location whose object and slabs the layout can hold, and whose slabs' parts are all in the cache, is
  -- put together from its object's part and the cache as the very object that was split.
  pub join_location-split_location :
      (ref : String) (o : SealedObject) (shared : List SlabLocation)
      → IsObject digest text_of o
      → All IsSlab o.slabs
      → All (IsCached shared) o.slabs
      → join_location digest text_of (split_location digest text_of ref o).0 shared ≡ ok o
  unfolding join_location split_location
  join_location-split_location ref o shared h slabs cached =
      rw
        (
          not_empty,
          decode_object-encode_object digest text_of o h,
          join_slices-places shared o.slabs slabs cached,
          join_location,
        )
        refl
    where
      not_empty : (length (encode_object digest text_of o) == 0) ≡ false
      not_empty = unfold encode_object in ground arith

-- A slab that can be read: it needs a shard at least, and as many as it needs are on hosts that the
-- network lists.
abbrev pub IsReachable : (List ℕ → Bool) → SlabSlice → Type 0
IsReachable knows s = (0 < s.min_shards) × (s.min_shards ≤ count_reachable knows s.sectors)

-- Only a location each of whose slabs has enough sectors on listed hosts, and needs one at least, passes
-- the check.
pub check_reachable_lem :
    (knows : List ℕ → Bool) (ss : List SlabSlice)
    → check_reachable knows ss ≡ ok tt
    → All (IsReachable knows) ss
unfolding check_reachable
check_reachable_lem knows [] h = tt
check_reachable_lem knows (s ∷ ss) h =
    ((ground (arith, h), ground (arith, h)), check_reachable_lem knows ss (ground (arith, h)))
