-- ===== src/Sia/Location.antt =====
-- sia/location.go: a location is split into the object's part and the parts that its slabs share, and put
-- together again from the cache.
use sennit.Prelude.{
  ℕ, suc, String, Bool, ◌||◌, Option, none, some, List, [], ◌∷◌, Result, ok, err, ◌>>=◌, length,
  ltb, ◌==◌, if◌then◌else◌, str_eq,
}
use sennit.Sia.Envelope.{
  Fault, stale_location, panicked, PinnedSector, SlabSlice, SealedObject, encode_slab, decode_slab,
  encode_object, decode_object,
}

-- `type SlabLocation struct`
pub record SlabLocation : Type 0 where
  pub id : String
  pub bytes : List ℕ

-- `type Location struct`
pub record Location : Type 0 where
  pub ref : String
  pub slabs : List String
  pub bytes : List ℕ

-- `shared[id]`
unfoldable pub find_shared : String → List SlabLocation → Option (List ℕ)
find_shared id [] = none
find_shared id (s ∷ ss) = if str_eq s.id id then some s.bytes else find_shared id ss

-- The loop of `joinLocation`, over the ids and the slices of the same index.
unfoldable pub join_slices :
    List SlabLocation → List String → List SlabSlice → Result Fault (List SlabSlice)
unfolding find_shared decode_slab
join_slices shared [] slices = ok slices
join_slices shared (id ∷ ids) [] = err panicked
join_slices shared (id ∷ ids) (s ∷ ss) = elim (find_shared id shared) [
  | none ↦ err stale_location
  | some encoded ↦ decode_slab encoded >>= λ slice. join_slices shared ids ss >>= λ rest.
      ok (record slice { offset = s.offset; len = s.len } ∷ rest)
]

module _ (digest : SlabSlice → List ℕ) (text_of : List ℕ → String) where
  unfoldable pub slab_names : List SlabSlice → List String
  slab_names [] = []
  slab_names (s ∷ ss) = text_of (digest s) ∷ slab_names ss

  unfoldable pub shared_parts : List SlabSlice → List SlabLocation
  unfolding encode_slab
  shared_parts [] = []
  shared_parts (s ∷ ss) =
      record { id = text_of (digest s); bytes = encode_slab s } ∷ shared_parts ss

  -- `func splitLocation`
  unfoldable pub split_location : String → SealedObject → Location × List SlabLocation
  unfolding slab_names shared_parts encode_object
  split_location ref sealed = (
    record {
      ref = ref;
      slabs = slab_names sealed.slabs;
      bytes = encode_object digest text_of sealed;
    },
    shared_parts sealed.slabs,
  )

  -- `func joinLocation(location Location, shared map[SlabID][]byte) (slabs.SealedObject, error)`
  unfoldable pub join_location : Location → List SlabLocation → Result Fault SealedObject
  unfolding decode_object join_slices
  join_location location shared =
      if length location.bytes == 0
      then err stale_location
      else decode_object digest text_of location.bytes >>= λ decoded.
          join_slices shared decoded.1 decoded.0.slabs >>= λ slices.
          ok (record decoded.0 { slabs = slices })

-- How many sectors are on hosts that the network lists.
unfoldable pub count_reachable : (List ℕ → Bool) → List PinnedSector → ℕ
count_reachable knows [] = 0
count_reachable knows (s ∷ ss) =
    let rest = count_reachable knows ss in if knows s.host_key then suc rest else rest

-- `func (c *Client) checkReachable`, on the hosts that `knownHosts` answered.
unfoldable pub check_reachable : (List ℕ → Bool) → List SlabSlice → Result Fault (Unit {0})
unfolding count_reachable
check_reachable knows [] = ok tt
check_reachable knows (s ∷ ss) =
    let rest = check_reachable knows ss in
    if s.min_shards == 0 || ltb (length s.sectors) s.min_shards
    then err stale_location
    else if ltb (count_reachable knows s.sectors) s.min_shards
    then err stale_location
    else rest
