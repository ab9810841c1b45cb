-- ===== src/Sia/Envelope.antt =====
-- sia/envelope.go: the layout of a cached location. The types of a sealed object and of a slab are the
-- SDK's; the digest of a slab, which is computed there, and the text of a digest are parameters.
use sennit.Prelude.{
  ℕ, zero, suc, ◌%◌, ◌^◌, String, Option, none, some, List, [], ◌∷◌, ◌++◌, Result, ok, err, length,
  ◌==◌, if◌then◌else◌,
}
use sennit.Bytes.{be_bytes}
use sennit.Sia.Reader.{
  Reader, zeros, fresh, Reading, ◌>>>◌, done, first, read_fixed, read_byte, read_uint, read_bytes,
}

pub data Fault : Type 0 where
  stale_location : Fault
  panicked : Fault

-- `slabs.PinnedSector`
pub record PinnedSector : Type 0 where
  pub root : List ℕ
  pub host_key : List ℕ

-- `slabs.SlabSlice`
pub record SlabSlice : Type 0 where
  pub encryption_key : List ℕ
  pub min_shards : ℕ
  pub sectors : List PinnedSector
  pub offset : ℕ
  pub len : ℕ

-- `slabs.SealedObject`; a time is the `uint64` of its nanoseconds.
pub record SealedObject : Type 0 where
  pub data_key : List ℕ
  pub data_signature : List ℕ
  pub metadata_key : List ℕ
  pub metadata : List ℕ
  pub metadata_signature : List ℕ
  pub created_at : ℕ
  pub updated_at : ℕ
  pub slabs : List SlabSlice

abbrev pub envelope_version : ℕ
envelope_version = 1

-- `uint16(n)`
abbrev pub uint16 : ℕ → ℕ
uint16 n = n % 2 ^ 16

-- `uint32(n)`
abbrev pub uint32 : ℕ → ℕ
uint32 n = n % 2 ^ 32

-- `func appendBytes(out, b []byte) []byte`, what it appends.
unfoldable pub length_and_bytes : List ℕ → List ℕ
unfolding be_bytes
length_and_bytes b = be_bytes 4 (uint32 (length b)) ++ b

unfoldable pub encode_sectors : List PinnedSector → List ℕ
encode_sectors [] = []
encode_sectors (s ∷ ss) = s.root ++ (s.host_key ++ encode_sectors ss)

-- `func encodeSlab(slice slabs.SlabSlice) []byte`
unfoldable pub encode_slab : SlabSlice → List ℕ
unfolding encode_sectors be_bytes
encode_slab s =
    envelope_version
    ∷ (s.encryption_key
        ++ (be_bytes 2 (uint16 s.min_shards)
            ++ (be_bytes 2 (uint16 (length s.sectors)) ++ encode_sectors s.sectors)))

-- The loop of `decodeSlab`.
unfoldable pub read_sectors : ℕ → Reading (List PinnedSector)
unfolding read_fixed
read_sectors zero = done []
read_sectors (suc n) = read_fixed 32 >>> λ root. read_fixed 32 >>> λ host_key.
    read_sectors n >>> λ rest. done (record { root = root; host_key = host_key } ∷ rest)

abbrev pub slab_of : List ℕ → ℕ → List PinnedSector → SlabSlice
slab_of key shards sectors = record {
  encryption_key = key;
  min_shards = shards;
  sectors = sectors;
  offset = 0;
  len = 0;
}

-- The fields behind the version.
unfoldable pub read_slab : Reading SlabSlice
unfolding read_fixed read_uint read_sectors
read_slab = read_fixed 32 >>> λ key. read_uint 2 >>> λ shards.
    read_uint 2 >>> λ count. read_sectors count >>> λ sectors. done (slab_of key shards sectors)

-- What the decoders make of a reader that has read its fields.
abbrev pub finished : {A : Type 0} → Reader × A → Result Fault A
finished (r, a) =
    if r.died then err panicked else elim r.failed [ some f ↦ err stale_location | none ↦ ok a ]

-- The version that was read, and what follows.
abbrev pub versioned : {A : Type 0} → Reading A → Option ℕ → Reader × ℕ → Result Fault A
versioned fields at_start (r, version) =
    if version == envelope_version
    then finished (fields r)
    else elim at_start [ none ↦ err panicked | some v ↦ err stale_location ]

-- The start of both decoders: the first byte is the layout's version, and the error for another one
-- indexes `b[0]`.
unfoldable pub decode : {A : Type 0} → Reading A → List ℕ → Result Fault A
unfolding read_byte first
decode fields b = versioned fields (first b) (read_byte (fresh b))

-- `func decodeSlab(b []byte) (slabs.SlabSlice, error)`
unfoldable pub decode_slab : List ℕ → Result Fault SlabSlice
unfolding read_slab decode
decode_slab = decode read_slab

module _ (digest : SlabSlice → List ℕ) (text_of : List ℕ → String) where
  unfoldable pub encode_slices : List SlabSlice → List ℕ
  unfolding be_bytes
  encode_slices [] = []
  encode_slices (s ∷ ss) =
      digest s ++ (be_bytes 4 s.offset ++ (be_bytes 4 s.len ++ encode_slices ss))

  -- `func encodeObject(sealed slabs.SealedObject) []byte`
  unfoldable pub encode_object : SealedObject → List ℕ
  unfolding length_and_bytes be_bytes encode_slices
  encode_object o =
      envelope_version
      ∷ (length_and_bytes o.data_key
          ++ (o.data_signature
              ++ (length_and_bytes o.metadata_key
                  ++ (length_and_bytes o.metadata
                      ++ (o.metadata_signature
                          ++ (be_bytes 8 o.created_at
                              ++ (be_bytes 8 o.updated_at
                                  ++ (be_bytes 2 (uint16 (length o.slabs))
                                      ++ encode_slices o.slabs))))))))

  -- The loop of `decodeObject`: slices that have only their place, beside the ids of their slabs.
  unfoldable pub read_slices : ℕ → Reading (List SlabSlice × List String)
  unfolding read_fixed read_uint zeros
  read_slices zero = done ([], [])
  read_slices (suc n) = read_fixed 32 >>> λ d. read_uint 4 >>> λ offset. read_uint 4 >>> λ len.
      read_slices n >>> λ rest. done (
        record {
          encryption_key = zeros 32;
          min_shards = 0;
          sectors = [];
          offset = offset;
          len = len;
        }
            ∷ rest.0,
        text_of d ∷ rest.1,
      )

  -- The fields behind the version.
  unfoldable pub read_object : Reading (SealedObject × List String)
  unfolding read_fixed read_uint read_bytes read_slices
  read_object = read_bytes >>> λ data_key. read_fixed 64 >>> λ data_signature.
      read_bytes >>> λ metadata_key. read_bytes >>> λ metadata.
      read_fixed 64 >>> λ metadata_signature. read_uint 8 >>> λ created. read_uint 8 >>> λ updated.
      read_uint 2 >>> λ count. read_slices count >>> λ slices. done (
        record {
          data_key = data_key;
          data_signature = data_signature;
          metadata_key = metadata_key;
          metadata = metadata;
          metadata_signature = metadata_signature;
          created_at = created;
          updated_at = updated;
          slabs = slices.0;
        },
        slices.1,
      )

  -- `func decodeObject(b []byte) (slabs.SealedObject, []SlabID, error)`
  unfoldable pub decode_object : List ℕ → Result Fault (SealedObject × List String)
  unfolding read_object decode
  decode_object = decode read_object
