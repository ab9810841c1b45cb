-- ===== src/Reclaim/Moving.antt =====
-- A repack loses nothing: what it retires is written and catalogued elsewhere before.
use sennit.Prelude.{ℕ, ◌≡◌, List, ◌∷◌, ◌++◌, take, Result, ok, length}
use sennit.Store.{Blob, Flush, Boundary, put_batch}
use sennit.Reclaim.Plan.{without}
use sennit.Reclaim.Device.{Fault, delete_objects, Call, Network, Device}
use sennit.Reclaim.Order.{unpins}
use sennit.Reclaim.Repack.{Held, Moved, slabs_of, read_held, moves, refs_of, track_calls}

-- The calls that retire what a repack has moved.
abbrev pub Retires : List Held → Flush → List Call → List Call → Type 0
Retires held flushed before after =
    (k : ℕ) × (after
      ≡ before
        ++ delete_objects (refs_of held) ∷ unpins (take k (without flushed.slabs (slabs_of held))))

-- A batch was written, with an object for each record, and the catalog took the new locations.
abbrev pub Secured :
    Network → Boundary → (List Moved → Result Fault (Unit {0})) → List Held → Flush → Type 0
Secured n writer apply held flushed =
    ((blobs : List Blob) × (read_held n held ≡ ok blobs)
      × ((put_batch writer blobs).1 ≡ ok flushed))
    × (length flushed.written ≡ length held)
    × (apply (moves held flushed.written) ≡ ok tt)

-- The device but for its ledger, which has the slabs that the write of what was read gave to it.
abbrev pub Recorded : ℕ → Network → Boundary → List Held → Device → Device → Type 0
Recorded now n writer held d d' =
    (blobs : List Blob) × (read_held n held ≡ ok blobs)
    × (d' ≡ record d { ledger = track_calls now (put_batch writer blobs).0 d.ledger })
