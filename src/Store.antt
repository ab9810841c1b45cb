-- ===== src/Store.antt =====
-- store/store.go: a batch is uploaded, its slabs are put in the ledger, and only then pinned.
pub mod Ledger
pub mod Examples
use sennit.Prelude.{
  ℕ, ◌+◌, String, Bool, Option, none, some, List, [], ◌∷◌, ◌++◌, map, Result, ok, err, ◌>>=◌,
  length,
}

-- `type Blob struct`
pub record Blob : Type 0 where
  pub cid : String
  pub payload : List ℕ

-- `type Written struct`
pub record Written : Type 0 where
  pub cid : String
  pub object_ref : String
  pub slab_id : String
  pub bytes : ℕ

-- `type SlabsWritten struct`
pub record SlabsWritten : Type 0 where
  pub slabs : List String
  pub records : ℕ
  pub bytes : ℕ

-- `sia.Placement`: where one payload of an upload sits.
pub record Placement : Type 0 where
  pub ref : String
  pub slab : String
  pub bytes : ℕ

-- `type uploaded struct`, without the descriptor of the SDK.
pub record Uploaded : Type 0 where
  pub slabs : List String
  pub placements : List Placement

-- `type Flush struct`, without the durations.
pub record Flush : Type 0 where
  pub written : List Written
  pub slabs : List String

-- The steps that a write can fail at. `index_out_of_range` is the panic of `blobs[i]` for a placement
-- that no blob stands behind.
pub data Fault : Type 0 where
  no_ledger upload_failed ledger_failed pin_failed index_out_of_range : Fault

-- The calls that cross to the network and to the ledger, in the order in which they are made.
pub data Call : Type 0 where
  upload : List (List ℕ) → Call
  record_slabs : SlabsWritten → Call
  pin_slabs : Uploaded → Call
  pin_objects : Uploaded → Call

-- `type boundary interface` with the ledger of a `Store`: what each call answers.
pub record Boundary : Type 0 where
  pub on_upload : List (List ℕ) → Result Fault Uploaded
  pub on_pin_slabs : Uploaded → Result Fault (Unit {0})
  pub on_pin_objects : Uploaded → Result Fault (Unit {0})
  pub ledger : Option (SlabsWritten → Result Fault (Unit {0}))

abbrev pub payloads : List Blob → List (List ℕ)
payloads [] = []
payloads (b ∷ bs) = b.payload ∷ payloads bs

abbrev pub payload_bytes : List Blob → ℕ
payload_bytes [] = 0
payload_bytes (b ∷ bs) = length b.payload + payload_bytes bs

-- The loop over the placements, each beside the blob of its index.
unfoldable pub written_of : List Blob → List Placement → Result Fault (List Written)
written_of blobs [] = ok []
written_of [] (p ∷ ps) = err index_out_of_range
written_of (b ∷ blobs) (p ∷ ps) = written_of blobs ps >>= λ rest.
    ok (record { cid = b.cid; object_ref = p.ref; slab_id = p.slab; bytes = p.bytes } ∷ rest)

-- A call, and what follows where it succeeds.
abbrev pub step {ℓ} :
    {A : Type ℓ}
    → Call
    → Result Fault A
    → (A → List Call × Result Fault Flush)
    → List Call × Result Fault Flush
step c (err e) next = (c ∷ [], err e)
step c (ok a) next = let (calls, result) = next a in (c ∷ calls, result)

-- What `PutBatch` returns once everything is pinned.
abbrev pub report : List Blob → Uploaded → Unit {0} → List Call × Result Fault Flush
report blobs batch _ = (
  [],
  written_of blobs batch.placements >>= λ written.
      ok (record { written = written; slabs = batch.slabs }),
)

abbrev pub pin_batch_objects :
    Boundary → List Blob → Uploaded → Unit {0} → List Call × Result Fault Flush
pin_batch_objects b blobs batch _ =
    step (pin_objects batch) (b.on_pin_objects batch) (report blobs batch)

abbrev pub pin_batch_slabs :
    Boundary → List Blob → Uploaded → Unit {0} → List Call × Result Fault Flush
pin_batch_slabs b blobs batch _ =
    step (pin_slabs batch) (b.on_pin_slabs batch) (pin_batch_objects b blobs batch)

-- The ledger's entry for an upload.
abbrev pub entry_of : List Blob → Uploaded → SlabsWritten
entry_of blobs batch = record {
  slabs = batch.slabs;
  records = length blobs;
  bytes = payload_bytes blobs;
}

abbrev pub record_batch :
    Boundary
    → (SlabsWritten → Result Fault (Unit {0}))
    → List Blob
    → Uploaded
    → List Call × Result Fault Flush
record_batch b ledger blobs batch =
    step (record_slabs (entry_of blobs batch)) (ledger (entry_of blobs batch))
      (pin_batch_slabs b blobs batch)

-- The part of `PutBatch` behind its two early returns: upload, record, pin the slabs, pin the objects.
unfoldable pub write_batch :
    Boundary → (SlabsWritten → Result Fault (Unit {0})) → List Blob → List Call × Result Fault Flush
unfolding written_of
write_batch b ledger blobs =
    step (upload (payloads blobs)) (b.on_upload (payloads blobs)) (record_batch b ledger blobs)

abbrev pub empty_flush : Flush
empty_flush = record { written = []; slabs = [] }

-- `func (s *Store) PutBatch(ctx context.Context, blobs []Blob) (Flush, error)`, with the calls made.
unfoldable pub put_batch : Boundary → List Blob → List Call × Result Fault Flush
unfolding write_batch
put_batch b [] = ([], ok empty_flush)
put_batch b (x ∷ xs) = elim b.ledger [
  | none ↦ ([], err no_ledger)
  | some ledger ↦ write_batch b ledger (x ∷ xs)
]

-- `func (f Flush) Bytes() int`
unfoldable pub flush_bytes : List Written → ℕ
flush_bytes [] = 0
flush_bytes (w ∷ ws) = w.bytes + flush_bytes ws
