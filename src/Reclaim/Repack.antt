-- ===== src/Reclaim/Repack.antt =====
-- store/reclaim/repack.go: live records are read, written into new slabs, and catalogued there, and then
-- what they came from is retired. The ledger of the writer is the device's own. Progress events,
-- durations and the figures of the report are left out, and a panic of the write is a failure of it.
use sennit.Prelude.{
  ℕ, suc, String, Bool, false, Option, none, some, List, [], ◌∷◌, Result, ok, err, length, ◌==◌,
  if◌then◌else◌, str_eq, ◌>>=◌,
}
use sennit.Record.{RecordId}
use sennit.Slabs.{TrackedSlab, SlabLedger, is_releasable, tracked_slabs, track_slab}
use sennit.Store as Store
use sennit.Store.{Blob, Written, SlabsWritten, Flush, Boundary, put_batch}
use sennit.Reclaim.Plan.{put_key, without}
use sennit.Reclaim.Device.{
  Fault, not_ours_to_release, write_failed, wrong_count, apply_failed, Network, Device, and_then,
  delete, unpin_each,
}

-- `type Held struct`
pub record Held : Type 0 where
  pub id : RecordId
  pub cid : String
  pub ref : String
  pub slab_id : String

-- `type Moved struct`
pub record Moved : Type 0 where
  pub id : RecordId
  pub cid : String
  pub from : String
  pub to : String
  pub slab_id : String
  pub bytes : ℕ

-- The set `from` of the slabs that the records are on.
unfoldable pub slabs_of : List Held → List String
slabs_of [] = []
slabs_of (h ∷ hs) =
    let rest = slabs_of hs in if str_eq h.slab_id "" then rest else put_key h.slab_id rest

-- `ours[id]`: the last row of a slab says whether it may be released.
unfoldable pub last_origin : List TrackedSlab → String → Option Bool
unfolding is_releasable
last_origin [] id = none
last_origin (s ∷ ss) id = elim (last_origin ss id) [
  | some b ↦ some b
  | none ↦ if str_eq s.slab_id id then some (is_releasable s.origin) else none
]

abbrev pub or_false : Option Bool → Bool
or_false none = false
or_false (some b) = b

unfoldable pub count_foreign_slabs : List TrackedSlab → List String → ℕ
unfolding last_origin
count_foreign_slabs tracked [] = 0
count_foreign_slabs tracked (s ∷ ss) =
    let rest = count_foreign_slabs tracked ss in
    if or_false (last_origin tracked s) then rest else suc rest

-- `func (r *Reclaimer) ownsAll(slabs map[sia.SlabID]struct{}) error`
unfoldable pub owns_all : List TrackedSlab → List String → Result Fault (Unit {0})
unfolding count_foreign_slabs
owns_all tracked [] = ok tt
owns_all tracked (s ∷ ss) =
    if count_foreign_slabs tracked (s ∷ ss) == 0 then ok tt else err not_ours_to_release

-- The loop that reads each record where it is.
unfoldable pub read_held : Network → List Held → Result Fault (List Blob)
read_held n [] = ok []
read_held n (h ∷ hs) = n.on_download h.ref >>= λ payload.
    read_held n hs >>= λ rest. ok (record { cid = h.cid; payload = payload } ∷ rest)

-- The loop over what was written, each beside the record of its index; the lengths are the same.
unfoldable pub moves : List Held → List Written → List Moved
moves (h ∷ hs) (w ∷ ws) =
    record {
      id = h.id;
      cid = w.cid;
      from = h.ref;
      to = w.object_ref;
      slab_id = w.slab_id;
      bytes = w.bytes;
    }
    ∷ moves hs ws
moves hs ws = []

unfoldable pub refs_of : List Held → List String
refs_of [] = []
refs_of (h ∷ hs) = h.ref ∷ refs_of hs

-- The end of `Repack`: the old objects are deleted, and the old slabs that the write did not use again
-- are unpinned.
unfoldable pub retire : Network → List Held → Flush → Device → Device × Result Fault (Unit {0})
unfolding delete refs_of unpin_each without slabs_of
retire n held flushed d =
    and_then (delete n (refs_of held) d)
      (λ d' _. unpin_each n (without flushed.slabs (slabs_of held)) d')

-- The part behind the write: the caller's catalog takes the moves before anything is retired.
unfoldable pub apply_moves :
    Network
    → (List Moved → Result Fault (Unit {0}))
    → List Held
    → Flush
    → Device
    → Device × Result Fault (List Moved)
unfolding moves retire
apply_moves n apply held flushed d =
    if length flushed.written == length held
    then elim (apply (moves held flushed.written)) [
      | err _ ↦ (d, err apply_failed)
      | ok _ ↦ and_then (retire n held flushed d) (λ d' _.
          and_then (d', n.on_account d'.calls) (λ d'' _. (d'', ok (moves held flushed.written))))
    ]
    else (d, err wrong_count)

-- What follows the write of the batch, by what it returned.
unfoldable pub after_write {ℓ} :
    {E : Type ℓ}
    → Network
    → (List Moved → Result Fault (Unit {0}))
    → List Held
    → Device
    → Result E Flush
    → Device × Result Fault (List Moved)
unfolding apply_moves
after_write n apply held d (err _) = (d, err write_failed)
after_write n apply held d (ok flushed) = apply_moves n apply held flushed d

-- The loop of `recordSlabs` of vault/remember.go, which is the writer's ledger, over `Track`.
unfoldable pub track_each : ℕ → SlabsWritten → List String → SlabLedger → SlabLedger
unfolding track_slab
track_each now w [] l = l
track_each now w (s ∷ ss) l =
    track_each now w ss (if str_eq s "" then l else track_slab s w.records w.bytes now l)

-- What the calls of a write leave of the ledger.
unfoldable pub track_calls : ℕ → List Store.Call → SlabLedger → SlabLedger
unfolding track_each
track_calls now [] l = l
track_calls now (Store.record_slabs w ∷ cs) l = track_calls now cs (track_each now w w.slabs l)
track_calls now (Store.upload ps ∷ cs) l = track_calls now cs l
track_calls now (Store.pin_slabs u ∷ cs) l = track_calls now cs l
track_calls now (Store.pin_objects u ∷ cs) l = track_calls now cs l

-- The write of the batch, at the time `now`: the device's ledger has the slabs, whether or not the write
-- goes on from there.
unfoldable pub write_moved :
    ℕ
    → Network
    → Boundary
    → (List Moved → Result Fault (Unit {0}))
    → List Held
    → List Blob
    → Device
    → Device × Result Fault (List Moved)
unfolding after_write put_batch track_calls
write_moved now n writer apply held blobs d =
    let (calls, result) = put_batch writer blobs in
    after_write n apply held (record d { ledger = track_calls now calls d.ledger }) result

-- The part behind `ownsAll`: the records are read, and written.
unfoldable pub rewrite_held :
    ℕ
    → Network
    → Boundary
    → (List Moved → Result Fault (Unit {0}))
    → List Held
    → Device
    → Device × Result Fault (List Moved)
unfolding read_held write_moved
rewrite_held now n writer apply held d =
    and_then (d, n.on_account d.calls)
      (λ d' _.
        and_then (d', read_held n held)
          (λ d'' blobs. write_moved now n writer apply held blobs d''))

-- `func (r *Reclaimer) Repack`
unfoldable pub repack :
    ℕ
    → Network
    → Boundary
    → (List Moved → Result Fault (Unit {0}))
    → List Held
    → Device
    → Device × Result Fault (List Moved)
unfolding owns_all slabs_of rewrite_held tracked_slabs
repack now n writer apply [] d = (d, ok [])
repack now n writer apply (h ∷ hs) d =
    and_then (d, owns_all (tracked_slabs d.ledger) (slabs_of (h ∷ hs)))
      (λ d' _. rewrite_held now n writer apply (h ∷ hs) d')
