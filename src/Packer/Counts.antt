-- ===== src/Packer/Counts.antt =====
-- The figures of a packer: that it counts as pending what its queue holds, through every operation.
use sennit.Prelude.{
  ℕ, ◌+◌, ◌≡◌, refl, ◌∙◌, sym, String, false, Option, none, some, List, [], ◌∷◌, arith,
  Option-cases, Result-cases, inl, inr, suc, length,
}
use sennit.Prelude.Keys.{number_key, contains}
use sennit.Record.{RecordId}
use sennit.Queue as Queue
use sennit.Queue.{
  QueuedBlob, Queue, queue_state, drop_queued, release_queued, set_claim, ids, upsert, max_seq,
  enqueue, claim_queued, claimable,
}
use sennit.Queue.Order.{Ordered, drop-Ordered, set_claim-Ordered, enqueue-Ordered}
use sennit.Queue.Claims.{batch_ids}
use sennit.Store as Store
use sennit.Store.{Boundary, put_batch}
use sennit.Packer.Policy.{Reason, respected, due}
use sennit.Packer.Flush.{
  Packer, Queued, Flushed, to_blobs, to_row, since_or, refresh, catalogue, write_claimed, hand_back,
  claim, flush, queue_item, flush_if_due, add, pending,
}

-- Each record is in the queue once, in the order of arrival, and the packer counts them.
abbrev pub IsSound : Packer → Type 0
IsSound p = Ordered p.queue × (pending p ≡ length p.queue)

records_lem : (q : Queue) → (queue_state q).records ≡ length q
unfolding queue_state
records_lem [] = refl
records_lem (r ∷ q) = ground (arith, records_lem q)

length-set_claim :
    (c : Option (ℕ × String)) (chosen : List RecordId) (q : Queue)
    → length (set_claim c chosen q) ≡ length q
unfolding set_claim
length-set_claim c chosen [] = refl
length-set_claim c chosen (r ∷ q) = ground (arith, length-set_claim c chosen q)

length-upsert :
    (b : QueuedBlob) (seq : ℕ) (q : Queue)
    → contains (ids q) b.id ≡ false
    → length (upsert b seq q) ≡ suc (length q)
unfolding upsert
length-upsert b seq [] h = refl
length-upsert b seq (r ∷ q) h = ground (arith, h, length-upsert b seq q)

refresh-IsSound : (p : Packer) → Ordered p.queue → IsSound (refresh p)
unfolding refresh pending
refresh-IsSound p o = (o, records_lem p.queue)

-- A queue whose rows have other claims is as sound.
reclaim-IsSound :
    (p : Packer) (c : Option (ℕ × String)) (chosen : List RecordId)
    → IsSound p
    → IsSound (record p { queue = set_claim c chosen p.queue })
unfolding pending
reclaim-IsSound p c chosen s =
    (set_claim-Ordered c chosen p.queue s.0, s.1 ∙ sym (length-set_claim c chosen p.queue))

catalogue-IsSound :
    (p : Packer) (is : List RecordId) (result : Flushed)
    → IsSound p
    → IsSound (catalogue p is result).0
unfolding catalogue
catalogue-IsSound p is result s = elim (Option-cases p.on_flush) [
  | inl e ↦ rw (e, catalogue) dropped
  | inr (callback, e) ↦ elim (Result-cases (callback result)) [
    | inl (_, c) ↦ rw (e, c, catalogue) dropped
    | inr (_, c) ↦ rw (e, c, catalogue) s
  ]
]
  where
    dropped : IsSound (refresh (record p { queue = drop_queued is p.queue }))
    dropped =
        refresh-IsSound (record p { queue = drop_queued is p.queue }) (drop-Ordered is p.queue s.0)

hand_back-IsSound :
    (p : Packer) (is : List RecordId) (e : Store.Fault) → IsSound p → IsSound (hand_back p is e).0
unfolding hand_back release_queued
hand_back-IsSound p is Store.index_out_of_range s = s
hand_back-IsSound p is Store.no_ledger s = reclaim-IsSound p none is s
hand_back-IsSound p is Store.upload_failed s = reclaim-IsSound p none is s
hand_back-IsSound p is Store.ledger_failed s = reclaim-IsSound p none is s
hand_back-IsSound p is Store.pin_failed s = reclaim-IsSound p none is s

write_claimed-IsSound :
    (p : Packer) (b : Boundary) (reason : Reason) (claimed : List QueuedBlob)
    → IsSound p
    → IsSound (write_claimed p b reason claimed).0
unfolding write_claimed
write_claimed-IsSound p b reason [] s = s
write_claimed-IsSound p b reason (x ∷ xs) s =
    elim (Result-cases (put_batch b (to_blobs (x ∷ xs))).1) [
      | inl (f, e) ↦ rw (e, write_claimed) (catalogue-IsSound p (batch_ids (x ∷ xs)) _ s)
      | inr (y, e) ↦ rw (e, write_claimed) (hand_back-IsSound p (batch_ids (x ∷ xs)) y s)
    ]

-- A flush of a sound packer, whichever way it ends, leaves a sound packer: each record is in its queue
-- once, in the order of arrival, and it counts as pending what is there.
pub flush-IsSound :
    (p : Packer) (reason : Reason) (now : ℕ) → IsSound p → IsSound (flush p reason now).0
unfolding flush claim claim_queued
flush-IsSound p reason now s = elim (Option-cases p.store) [
  | inl e ↦ rw (e, flush) s
  | inr (b, e) ↦
      rw (e, flush)
        (write_claimed-IsSound (record p { queue = (claim p now).0 }) b reason (claim p now).1
          (reclaim-IsSound p (some (Queue.stamp now, p.owner))
            (ids (claimable (respected p.policy) 0 now p.queue)) s))
]

flush_if_due-IsSound : (p : Packer) (now : ℕ) → IsSound p → IsSound (flush_if_due p now).0
unfolding flush_if_due
flush_if_due-IsSound p now s = elim (Option-cases p.store) [
  | inl e ↦ rw (e, flush_if_due) s
  | inr (b, e) ↦ elim (Option-cases (due p.policy p.state now)) [
    | inl d ↦ rw (e, d, flush_if_due) s
    | inr (reason, d) ↦ rw (e, d, flush_if_due) (flush-IsSound p reason now s)
  ]
]

-- Adding a record that is not in the queue of a sound packer leaves a sound packer, whether it flushes or not and however
-- the flush ends.
pub add-IsSound :
    (p : Packer) (item : Queued) (now : ℕ)
    → IsSound p
    → contains (ids p.queue) item.id ≡ false
    → IsSound (add p item now).0
unfolding add queue_item pending enqueue
add-IsSound p item now s new =
    let at = since_or now item.since in
    flush_if_due-IsSound (queue_item p item at) now (
      enqueue-Ordered (to_row item at) p.queue s.0,
      ground (arith, s.1, length-upsert (to_row item at) (max_seq p.queue + 1) p.queue new),
    )
