-- ===== src/Sia/Caching.antt =====
-- A cached location reads back as it was written.
use sennit.Prelude.{
  ℕ, ◌^◌, ◌<◌, ◌≡◌, ◌∙◌, ap, sym, String, Bool, some, List, [], ◌∷◌, ◌++◌, Result, ok, err, length,
  arith, All, append-nil, true, false,
}
use sennit.Bytes.{be_bytes}
use sennit.Sia.Reader.{
  Reader, zeros, fresh, Reading, read_uint, read_bytes, Reads, read_then, read_last, done-Reads,
  read_byte-Reads, read_fixed-Reads, read_uint-Reads, read_bytes-Reads, first, read_byte,
}
use sennit.Sia.Envelope.{
  Fault, panicked, PinnedSector, SlabSlice, SealedObject, uint16, uint32, length_and_bytes,
  encode_sectors, encode_slab, read_sectors, slab_of, read_slab, finished, versioned, decode,
  decode_slab, encode_slices, encode_object, read_slices, read_object, decode_object,
}

abbrev pub IsSector : PinnedSector → Type 0
IsSector s = (length s.root ≡ 32) × (length s.host_key ≡ 32)

-- A slab that the layout can hold.
abbrev pub IsSlab : SlabSlice → Type 0
IsSlab s =
    (length s.encryption_key ≡ 32)
    × (s.min_shards < 2 ^ 16)
    × (length s.sectors < 2 ^ 16)
    × All IsSector s.sectors

read_sectors-Reads :
    (ss : List PinnedSector)
    → All IsSector ss
    → Reads (encode_sectors ss) (read_sectors (length ss)) ss
unfolding read_sectors encode_sectors
read_sectors-Reads [] h = done-Reads []
read_sectors-Reads (s ∷ ss) h =
    read_then s.root (s.host_key ++ encode_sectors ss) _ _ s.root (s ∷ ss)
      (read_fixed-Reads 32 s.root h.0.0)
      (read_then s.host_key (encode_sectors ss) _ _ s.host_key (s ∷ ss)
        (read_fixed-Reads 32 s.host_key h.0.1)
        (read_last (encode_sectors ss) _ _ ss (read_sectors-Reads ss h.1)))

read_uint16-Reads : (n : ℕ) → n < 2 ^ 16 → Reads (be_bytes 2 (uint16 n)) (read_uint 2) n
read_uint16-Reads n h = rw (same) (read_uint-Reads 2 n (omega arith))
  where
    same : uint16 n ≡ n
    same = omega arith

read_slab-Reads :
    (s : SlabSlice)
    → IsSlab s
    → Reads
        (s.encryption_key
          ++ (be_bytes 2 (uint16 s.min_shards)
              ++ (be_bytes 2 (uint16 (length s.sectors)) ++ encode_sectors s.sectors)))
        read_slab
        (slab_of s.encryption_key s.min_shards s.sectors)
unfolding read_slab
read_slab-Reads s (key, shards, count, sectors) =
    read_then s.encryption_key _ _ _ s.encryption_key _ (read_fixed-Reads 32 s.encryption_key key) (
      read_then (be_bytes 2 (uint16 s.min_shards)) _ _ _ s.min_shards _
        (read_uint16-Reads s.min_shards shards)
        (read_then (be_bytes 2 (uint16 (length s.sectors))) _ _ _ (length s.sectors) _
          (read_uint16-Reads (length s.sectors) count)
          (read_last (encode_sectors s.sectors) _ _ s.sectors
            (read_sectors-Reads s.sectors sectors))))

-- A buffer of this layout is read behind its first byte.
decode-fields :
    {A : Type 0} (m : Reading A) (x : List ℕ) → decode m (1 ∷ x) ≡ finished (m (fresh x))
unfolding decode first
decode-fields m x =
    let byte : read_byte (fresh (1 ∷ x)) ≡ (fresh x, 1) = unfold Reads in read_byte-Reads 1 x in
    ap (versioned m (some 1)) byte

-- A reading that takes the whole of a text off reads it.
finished-Reads :
    {A : Type 0} (x : List ℕ) (m : Reading A) (a : A) → Reads x m a → decode m (1 ∷ x) ≡ ok a
unfolding Reads
finished-Reads x m a h =
    decode-fields m x ∙ ap (λ z. finished (m (fresh z))) (sym (append-nil x)) ∙ ap finished (h [])

-- A slab whose key, roots and host keys are 32 bytes long and whose counts fit in 16 bits is decoded as
-- it was encoded, with its place in an object left blank.
pub decode_slab-encode_slab :
    (s : SlabSlice)
    → IsSlab s
    → decode_slab (encode_slab s) ≡ ok (slab_of s.encryption_key s.min_shards s.sectors)
unfolding decode_slab decode encode_slab
decode_slab-encode_slab s h = finished-Reads _ read_slab _ (read_slab-Reads s h)

uint32-bytes-Reads : (x : List ℕ) → length x < 2 ^ 32 → Reads (length_and_bytes x) read_bytes x
unfolding length_and_bytes
uint32-bytes-Reads x h = rw (same) (read_bytes-Reads x (omega arith))
  where
    same : uint32 (length x) ≡ length x
    same = omega arith

module _ (digest : SlabSlice → List ℕ) (text_of : List ℕ → String) where
  -- The place of a slice in an object, with the slab's half blank.
  abbrev pub place_of : SlabSlice → SlabSlice
  place_of s = record {
    encryption_key = zeros 32;
    min_shards = 0;
    sectors = [];
    offset = s.offset;
    len = s.len;
  }

  abbrev pub places : List SlabSlice → List SlabSlice
  places [] = []
  places (s ∷ ss) = place_of s ∷ places ss

  abbrev pub slab_ids : List SlabSlice → List String
  slab_ids [] = []
  slab_ids (s ∷ ss) = text_of (digest s) ∷ slab_ids ss

  abbrev pub IsPlaced : SlabSlice → Type 0
  IsPlaced s = (length (digest s) ≡ 32) × (s.offset < 2 ^ 32) × (s.len < 2 ^ 32)

  -- An object that the layout can hold.
  abbrev pub IsObject : SealedObject → Type 0
  IsObject o =
      (length o.data_key < 2 ^ 32)
      × (length o.data_signature ≡ 64)
      × (length o.metadata_key < 2 ^ 32)
      × (length o.metadata < 2 ^ 32)
      × (length o.metadata_signature ≡ 64)
      × (o.created_at < 2 ^ 64)
      × (o.updated_at < 2 ^ 64)
      × (length o.slabs < 2 ^ 16)
      × All IsPlaced o.slabs

  read_slices-Reads :
      (ss : List SlabSlice)
      → All IsPlaced ss
      → Reads
          (encode_slices digest text_of ss)
          (read_slices digest text_of (length ss))
          (places ss, slab_ids ss)
  unfolding read_slices encode_slices
  read_slices-Reads [] h = done-Reads ([], [])
  read_slices-Reads (s ∷ ss) h =
      read_then (digest s) _ _ _ (digest s) _ (read_fixed-Reads 32 (digest s) h.0.0) (
        read_then (be_bytes 4 s.offset) _ _ _ s.offset _ (read_uint-Reads 4 s.offset h.0.1) (
          read_then (be_bytes 4 s.len) _ _ _ s.len _ (read_uint-Reads 4 s.len h.0.2) (
            read_last (encode_slices digest text_of ss) _ _ (places ss, slab_ids ss)
              (read_slices-Reads ss h.1))))

  -- The object as it is decoded.
  abbrev pub blanked : SealedObject → SealedObject
  blanked o = record o { slabs = places o.slabs }

  -- What `encode_object` writes behind the version.
  abbrev fields_of : SealedObject → List ℕ
  fields_of o =
      length_and_bytes o.data_key
      ++ (o.data_signature
          ++ (length_and_bytes o.metadata_key
              ++ (length_and_bytes o.metadata
                  ++ (o.metadata_signature
                      ++ (be_bytes 8 o.created_at
                          ++ (be_bytes 8 o.updated_at
                              ++ (be_bytes 2 (uint16 (length o.slabs))
                                  ++ encode_slices digest text_of o.slabs)))))))

  read_object-Reads :
      (o : SealedObject)
      → IsObject o
      → Reads (fields_of o) (read_object digest text_of) (blanked o, slab_ids o.slabs)
  unfolding read_object
  read_object-Reads o (key, signed, meta_key, meta, meta_signed, created, updated, count, placed) =
      read_then (length_and_bytes o.data_key) _ _ _ o.data_key _ (uint32-bytes-Reads o.data_key key)
        (read_then o.data_signature _ _ _ o.data_signature _
          (read_fixed-Reads 64 o.data_signature signed)
          (read_then (length_and_bytes o.metadata_key) _ _ _ o.metadata_key _
            (uint32-bytes-Reads o.metadata_key meta_key)
            (read_then (length_and_bytes o.metadata) _ _ _ o.metadata _
              (uint32-bytes-Reads o.metadata meta)
              (read_then o.metadata_signature _ _ _ o.metadata_signature _
                (read_fixed-Reads 64 o.metadata_signature meta_signed)
                (read_then (be_bytes 8 o.created_at) _ _ _ o.created_at _
                  (read_uint-Reads 8 o.created_at created)
                  (read_then (be_bytes 8 o.updated_at) _ _ _ o.updated_at _
                    (read_uint-Reads 8 o.updated_at updated)
                    (read_then (be_bytes 2 (uint16 (length o.slabs))) _ _ _ (length o.slabs) _
                      (read_uint16-Reads (length o.slabs) count)
                      (read_last (encode_slices digest text_of o.slabs) _ _
                        (places o.slabs, slab_ids o.slabs)
                        (read_slices-Reads o.slabs placed)))))))))

  -- A sealed object whose signatures are 64 bytes and whose digests are 32, and whose lengths, places and
  -- times fit their fields, is decoded as it was encoded, with the slabs' halves blank, beside the ids of
  -- its slabs in order.
  pub decode_object-encode_object :
      (o : SealedObject)
      → IsObject o
      → decode_object digest text_of (encode_object digest text_of o)
        ≡ ok (blanked o, slab_ids o.slabs)
  unfolding decode_object decode encode_object
  decode_object-encode_object o h =
      finished-Reads (fields_of o) (read_object digest text_of) (blanked o, slab_ids o.slabs)
        (read_object-Reads o h)

abbrev pub is_panic : {A : Type 0} → Result Fault A → Bool
is_panic (err panicked) = true
is_panic r = false

abbrev pub is_nil : List ℕ → Bool
is_nil [] = true
is_nil (x ∷ xs) = false
