-- ===== src/Sia/Examples.antt =====
-- A concrete slab and object, and the theorems at concrete inputs.
use sennit.Prelude.{ℕ, ◌≡◌, refl, String, List, [], ◌∷◌, ok, err, arith}
use sennit.Sia.Reader.{zeros}
use sennit.Sia.Envelope.{
  stale_location, PinnedSector, SlabSlice, SealedObject, encode_slab, decode_slab, decode,
}
use sennit.Sia.Location.{SlabLocation, find_shared, split_location, join_location}
use sennit.Sia.Rejoining.{join_location-split_location}
use sennit.Sia.Caching.{IsSlab, IsObject}

abbrev sector : PinnedSector
sector = record { root = zeros 32; host_key = zeros 32 }

abbrev slab : SlabSlice
slab = record {
  encryption_key = zeros 32;
  min_shards = 10;
  sectors = sector ∷ [];
  offset = 5;
  len = 7;
}

abbrev digest : SlabSlice → List ℕ
digest s = zeros 32

abbrev text_of : List ℕ → String
text_of b = "s"

abbrev object : SealedObject
object = record {
  data_key = 1 ∷ 2 ∷ [];
  data_signature = zeros 64;
  metadata_key = [];
  metadata = 3 ∷ [];
  metadata_signature = zeros 64;
  created_at = 1000;
  updated_at = 2000;
  slabs = slab ∷ [];
}

other_layout : decode_slab (2 ∷ []) ≡ err stale_location
unfolding decode_slab decode
other_layout = refl

slab-IsSlab : IsSlab slab
unfolding zeros
slab-IsSlab = (refl, omega arith, omega arith, ((refl, refl), tt))

object-IsObject : IsObject digest text_of object
unfolding zeros
object-IsObject = (
  omega arith,
  refl,
  omega arith,
  omega arith,
  refl,
  omega arith,
  omega arith,
  omega arith,
  ((refl, omega arith, omega arith), tt),
)

abbrev shared : List SlabLocation
shared = record { id = "s"; bytes = encode_slab slab } ∷ []

join_location-split_location_example :
    join_location digest text_of (split_location digest text_of "r" object).0 shared ≡ ok object
join_location-split_location_example =
    join_location-split_location digest text_of "r" object shared object-IsObject (slab-IsSlab, tt)
      (unfold find_shared in refl, tt)

-- A network that lists every host, and a slab that needs one shard.
abbrev small_slab : SlabSlice
small_slab = record slab { min_shards = 1 }
