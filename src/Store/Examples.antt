-- ===== src/Store/Examples.antt =====
-- A concrete network and ledger, and the theorems at concrete inputs.
use sennit.Prelude.{some, [], ◌∷◌, ◌≡◌, refl, Result, ok, err}
use sennit.Store.{
  Blob, SlabsWritten, Uploaded, Flush, Fault, pin_failed, upload, record_slabs, pin_slabs, Boundary,
  put_batch, write_batch, written_of, entry_of,
}
use sennit.Store.Ledger.{PinsRecorded, put_batch-PinsRecorded}

abbrev blob : Blob
blob = record { cid = "c"; payload = 1 ∷ 2 ∷ [] }

abbrev slab : Uploaded
slab = record { slabs = "s" ∷ []; placements = record { ref = "o"; slab = "s"; bytes = 2 } ∷ [] }

abbrev takes : SlabsWritten → Result Fault (Unit {0})
takes w = ok tt

abbrev pub network : Boundary
network = record {
  on_upload = λ p. ok slab;
  on_pin_slabs = λ u. ok tt;
  on_pin_objects = λ u. ok tt;
  ledger = some takes;
}

-- The pin of the slabs fails: they stay in the ledger.
abbrev pub no_pins : Boundary
no_pins = record network { on_pin_slabs = λ u. err pin_failed }

abbrev pub flush : Flush
flush = record {
  written = record { cid = "c"; object_ref = "o"; slab_id = "s"; bytes = 2 } ∷ [];
  slabs = "s" ∷ [];
}

written : (put_batch network (blob ∷ [])).1 ≡ ok flush
unfolding put_batch write_batch written_of
written = refl

pin_refused : put_batch no_pins (blob ∷ []) ≡ (
  upload ((1 ∷ 2 ∷ []) ∷ []) ∷ record_slabs (entry_of (blob ∷ []) slab) ∷ pin_slabs slab ∷ [],
  err pin_failed,
)
unfolding put_batch write_batch written_of
pin_refused = refl

put_batch-PinsRecorded_example : PinsRecorded [] (put_batch no_pins (blob ∷ [])).0
put_batch-PinsRecorded_example = put_batch-PinsRecorded no_pins (blob ∷ [])
