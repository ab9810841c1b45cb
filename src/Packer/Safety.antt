-- ===== src/Packer/Safety.antt =====
-- No record is lost: what a flush does to every row of the queue, on each of its outcomes.
use sennit.Prelude.{
  ℕ, ◌≡◌, refl, ◌∙◌, ap, sym, String, Bool, true, false, Option, none, some, List, [], ◌∷◌, Result,
  ok, err, if◌then◌else◌, arith, Option-cases, Result-cases, inl, inr,
}
use sennit.Prelude.Keys.{number_key, contains}
use sennit.Record.{RecordId}
use sennit.Queue as Queue
use sennit.Queue.{QueuedBlob, Row, Queue, release_queued, find}
use sennit.Queue.Order.{Ordered, find-drop, find-set_claim, reclaimed}
use sennit.Queue.Claims.{batch_ids, free_row, contains-batch, find-claim}
use sennit.Queue.Withdrawal.{queued}
use sennit.Store as Store
use sennit.Store.{Boundary, put_batch}
use sennit.Packer.Policy.{Reason, respected}
use sennit.Packer.Flush.{
  Packer, Answer, Flushed, Fault, offline, put_failed, not_catalogued, panicked, hand_back,
  to_batch, to_blobs, refresh, catalogue, write_claimed, claim, flush,
}

abbrev pub written : Reason → List QueuedBlob → Store.Flush → Flushed
written reason claimed f = record { reason = some reason; records = to_batch claimed; flush = f }

-- What happens to the row of a claimed record, by the error that the flush reports.
abbrev pub row_after : Option Fault → ℕ × String → Option Row → Option Row
row_after none c r = none
row_after (some offline) c r = r
row_after (some (put_failed e)) c r = reclaimed none r
row_after (some not_catalogued) c r = reclaimed (some c) r
row_after (some panicked) c r = reclaimed (some c) r

queued-reclaimed : (c : Option (ℕ × String)) (r : Option Row) → queued (reclaimed c r) ≡ queued r
queued-reclaimed c none = refl
queued-reclaimed c (some r) = refl

queued-release :
    (chosen : List RecordId) (q : Queue) (id : RecordId)
    → queued (find id (release_queued chosen q)) ≡ queued (find id q)
unfolding release_queued
queued-release chosen q id =
    rw (find-set_claim none chosen q id) (ground (arith, queued-reclaimed none (find id q)))

-- The row of a record after the write of a batch, whatever the queue is by then: it is gone where the
-- batch has it and the flush reports no error, it is free again where the write failed, and otherwise
-- it is as it was.
abbrev pub row_written : Option Fault → Bool → Option Row → Option Row
row_written none there r = if there then none else r
row_written (some (put_failed e)) there r = if there then reclaimed none r else r
row_written (some offline) there r = r
row_written (some not_catalogued) there r = r
row_written (some panicked) there r = r

catalogue-row :
    (p : Packer) (is : List RecordId) (result : Flushed) (id : RecordId)
    → find id (catalogue p is result).0.queue
      ≡ row_written (catalogue p is result).1.fault (contains is id) (find id p.queue)
unfolding catalogue refresh
catalogue-row p is result id = elim (Option-cases p.on_flush) [
  | inl e ↦ rw (e, catalogue) (find-drop is p.queue id)
  | inr (callback, e) ↦ elim (Result-cases (callback result)) [
    | inl (_, k) ↦ rw (e, k, catalogue) (find-drop is p.queue id)
    | inr (_, k) ↦ rw (e, k, catalogue) refl
  ]
]

hand_back-row :
    (p : Packer) (is : List RecordId) (e : Store.Fault) (id : RecordId)
    → find id (hand_back p is e).0.queue
      ≡ row_written (hand_back p is e).1.fault (contains is id) (find id p.queue)
unfolding hand_back release_queued
hand_back-row p is Store.index_out_of_range id = refl
hand_back-row p is Store.no_ledger id = find-set_claim none is p.queue id
hand_back-row p is Store.upload_failed id = find-set_claim none is p.queue id
hand_back-row p is Store.ledger_failed id = find-set_claim none is p.queue id
hand_back-row p is Store.pin_failed id = find-set_claim none is p.queue id

-- Handing a batch back takes nothing out of the queue.
queued-hand_back :
    (p : Packer) (is : List RecordId) (e : Store.Fault) (id : RecordId)
    → queued (find id (hand_back p is e).0.queue) ≡ queued (find id p.queue)
unfolding hand_back
queued-hand_back p is Store.index_out_of_range id = refl
queued-hand_back p is Store.no_ledger id = queued-release is p.queue id
queued-hand_back p is Store.upload_failed id = queued-release is p.queue id
queued-hand_back p is Store.ledger_failed id = queued-release is p.queue id
queued-hand_back p is Store.pin_failed id = queued-release is p.queue id

pub write_claimed-row :
    (p : Packer) (s : Boundary) (reason : Reason) (claimed : List QueuedBlob) (id : RecordId)
    → find id (write_claimed p s reason claimed).0.queue
      ≡ row_written
          (write_claimed p s reason claimed).1.fault
          (contains (batch_ids claimed) id)
          (find id p.queue)
unfolding write_claimed
write_claimed-row p s reason [] id = refl
write_claimed-row p s reason (b ∷ bs) id = elim (Result-cases (put_batch s (to_blobs (b ∷ bs))).1) [
  | inl (f, e) ↦
      rw (e, write_claimed) (catalogue-row p (batch_ids (b ∷ bs)) (written reason (b ∷ bs) f) id)
  | inr (e', e) ↦ rw (e, write_claimed) (hand_back-row p (batch_ids (b ∷ bs)) e' id)
]

catalogue_keeps :
    (p : Packer) (is : List RecordId) (result : Flushed) (id : RecordId)
    → queued (find id p.queue) ≡ true
    → queued (find id (catalogue p is result).0.queue) ≡ false
    → (contains is id ≡ true)
      × ((catalogue p is result).1 ≡ record { result = result; fault = none })
unfolding catalogue refresh
catalogue_keeps p is result id h k = elim (Option-cases p.on_flush) [
  | inl e ↦ (ground (arith, h, k, e, find-drop is p.queue id), rw (e, catalogue) refl)
  | inr (callback, e) ↦ elim (Result-cases (callback result)) [
    | inl (_, c) ↦ (ground (arith, h, k, e, c, find-drop is p.queue id), rw (e, c, catalogue) refl)
    | inr (_, c) ↦ absurd (ground (arith, h, k, e, c))
  ]
]

-- Whether the catalog takes a result, where there is a callback for it.
abbrev pub took : Option (Flushed → Result (Unit {0}) (Unit {0})) → Flushed → Bool
took none result = true
took (some callback) result = elim (callback result) [ ok a ↦ true | err e ↦ false ]

-- The fault that the answers of the network, the ledger and the catalog call for.
abbrev pub fault_due :
    Option (Flushed → Result (Unit {0}) (Unit {0}))
    → (Store.Flush → Flushed)
    → Result Store.Fault Store.Flush
    → Option Fault
fault_due callback result (err Store.index_out_of_range) = some panicked
fault_due callback result (err Store.no_ledger) = some (put_failed Store.no_ledger)
fault_due callback result (err Store.upload_failed) = some (put_failed Store.upload_failed)
fault_due callback result (err Store.ledger_failed) = some (put_failed Store.ledger_failed)
fault_due callback result (err Store.pin_failed) = some (put_failed Store.pin_failed)
fault_due callback result (ok f) = if took callback (result f) then none else some not_catalogued

-- The same for a flush of a batch: an empty one is not written.
abbrev pub batch_fault : Packer → Boundary → Reason → List QueuedBlob → Option Fault
batch_fault p s reason [] = none
batch_fault p s reason (b ∷ bs) =
    fault_due p.on_flush (written reason (b ∷ bs)) (put_batch s (to_blobs (b ∷ bs))).1

abbrev pub flush_fault : Option Boundary → Packer → Reason → List QueuedBlob → Option Fault
flush_fault none p reason claimed = some offline
flush_fault (some s) p reason claimed = batch_fault p s reason claimed

catalogue-fault :
    (p : Packer) (is : List RecordId) (result : Flushed)
    → (catalogue p is result).1.fault
      ≡ (if took p.on_flush result then none else some not_catalogued)
unfolding catalogue
catalogue-fault p is result = elim (Option-cases p.on_flush) [
  | inl e ↦ rw (e, catalogue) refl
  | inr (callback, e) ↦ elim (Result-cases (callback result)) [
    | inl (_, k) ↦ rw (e, k, catalogue) refl
    | inr (_, k) ↦ rw (e, k, catalogue) refl
  ]
]

hand_back-fault :
    (p : Packer) (is : List RecordId) (e : Store.Fault) (result : Store.Flush → Flushed)
    → (hand_back p is e).1.fault ≡ fault_due p.on_flush result (err e)
unfolding hand_back
hand_back-fault p is Store.index_out_of_range result = refl
hand_back-fault p is Store.no_ledger result = refl
hand_back-fault p is Store.upload_failed result = refl
hand_back-fault p is Store.ledger_failed result = refl
hand_back-fault p is Store.pin_failed result = refl

write_claimed-fault :
    (p : Packer) (s : Boundary) (reason : Reason) (claimed : List QueuedBlob)
    → (write_claimed p s reason claimed).1.fault ≡ batch_fault p s reason claimed
unfolding write_claimed
write_claimed-fault p s reason [] = refl
write_claimed-fault p s reason (b ∷ bs) = elim (Result-cases (put_batch s (to_blobs (b ∷ bs))).1) [
  | inl (f, e) ↦
      rw (e, write_claimed) (catalogue-fault p (batch_ids (b ∷ bs)) (written reason (b ∷ bs) f))
  | inr (e', e) ↦
      rw (e, write_claimed) (hand_back-fault p (batch_ids (b ∷ bs)) e' (written reason (b ∷ bs)))
]

-- Whatever has happened to the queue since the claim, a record that is in it leaves it only where the
-- batch has it, the network has taken the batch, the catalog has taken the result, and the flush reports
-- the batch as written.
pub write_claimed_keeps :
    (p : Packer) (s : Boundary) (reason : Reason) (claimed : List QueuedBlob) (id : RecordId)
    → queued (find id p.queue) ≡ true
    → queued (find id (write_claimed p s reason claimed).0.queue) ≡ false
    → (contains (batch_ids claimed) id ≡ true)
      × ((f : Store.Flush) × ((put_batch s (to_blobs claimed)).1 ≡ ok f)
          × (took p.on_flush (written reason claimed f) ≡ true)
          × ((write_claimed p s reason claimed).1
              ≡ record { result = written reason claimed f; fault = none }))
unfolding write_claimed
write_claimed_keeps p s reason [] id h k = absurd (ground (arith, h, k))
write_claimed_keeps p s reason (b ∷ bs) id h k =
    elim (Result-cases (put_batch s (to_blobs (b ∷ bs))).1) [
      | inr (e', e) ↦
          absurd (ground (arith, h, gone e, queued-hand_back p (batch_ids (b ∷ bs)) e' id))
      | inl (f, e) ↦
          let (there, fine) = catalogued (written reason (b ∷ bs) f) (rw (sym (left f e)) k) in
          let quiet = ap (λ (x : Answer). x.fault) fine in
          (
            there,
            (
              f,
              e,
              took_of (took p.on_flush (written reason (b ∷ bs) f)) (
                  sym (catalogue-fault p (batch_ids (b ∷ bs)) (written reason (b ∷ bs) f)) ∙ quiet),
              rw (e, write_claimed) fine,
            ),
          )
    ]
  where
    took_of : (t : Bool) → (if t then none else some not_catalogued) ≡ none → t ≡ true
    took_of true h = refl
    took_of false h = absurd (ground (arith, h))

    gone :
        {x : Store.Fault}
        → (put_batch s (to_blobs (b ∷ bs))).1 ≡ err x
        → queued (find id (hand_back p (batch_ids (b ∷ bs)) x).0.queue) ≡ false
    gone e = ground (arith, k, e)

    left :
        (f : Store.Flush)
        → (put_batch s (to_blobs (b ∷ bs))).1 ≡ ok f
        → write_claimed p s reason (b ∷ bs)
          ≡ catalogue p (batch_ids (b ∷ bs)) (written reason (b ∷ bs) f)
    left f e = rw (e, write_claimed) refl

    catalogued :
        (r : Flushed)
        → queued (find id (catalogue p (batch_ids (b ∷ bs)) r).0.queue) ≡ false
        → (contains (batch_ids (b ∷ bs)) id ≡ true)
          × ((catalogue p (batch_ids (b ∷ bs)) r).1 ≡ record { result = r; fault = none })
    catalogued r = catalogue_keeps p (batch_ids (b ∷ bs)) r id h

flush-row :
    (p : Packer) (reason : Reason) (now : ℕ) (id : RecordId)
    → Ordered p.queue
    → find id (flush p reason now).0.queue ≡ (
        if free_row (respected p.policy) now (find id p.queue)
        then row_after (flush p reason now).1.fault (Queue.stamp now, p.owner) (find id p.queue)
        else find id p.queue)
unfolding flush claim
flush-row p reason now id o = elim (Option-cases p.store) [
  | inl e ↦ rw (e, flush) (ground arith)
  | inr (s, e) ↦
      rw (e, flush)
        (ground (
          arith,
          write_claimed-row (record p { queue = (claim p now).0 }) s reason (claim p now).1 id,
          contains-batch p.owner (respected p.policy) now p.queue id o,
          find-claim p.owner (respected p.policy) now p.queue id o,
        ))
]

flush-fault :
    (p : Packer) (reason : Reason) (now : ℕ)
    → (flush p reason now).1.fault ≡ flush_fault p.store p reason (claim p now).1
unfolding flush
flush-fault p reason now = elim (Option-cases p.store) [
  | inl e ↦ rw (e, flush) refl
  | inr (s, e) ↦
      rw (e, flush)
        (write_claimed-fault (record p { queue = (claim p now).0 }) s reason (claim p now).1)
]

-- A flush of a queue in order reports the fault that the answers call for: it is offline without a
-- connection; otherwise the write of its batch failed or panicked, or the catalog refused the result, or
-- there is no fault. It leaves every row that another claim holds as it was. The rows that it claimed are
-- as they were where it is offline, free where the write failed, claimed still where the write panicked
-- or the catalog refused the result, and gone where the network and the catalog took the batch.
pub flush_rows :
    (p : Packer) (reason : Reason) (now : ℕ) (id : RecordId)
    → Ordered p.queue
    → ((flush p reason now).1.fault ≡ flush_fault p.store p reason (claim p now).1)
      × (find id (flush p reason now).0.queue ≡ (
          if free_row (respected p.policy) now (find id p.queue)
          then row_after
              (flush_fault p.store p reason (claim p now).1)
              (Queue.stamp now, p.owner)
              (find id p.queue)
          else find id p.queue))
flush_rows p reason now id o = (
  flush-fault p reason now,
  flush-row p reason now id o
      ∙ ap
          (λ fault.
            if free_row (respected p.policy) now (find id p.queue)
            then row_after fault (Queue.stamp now, p.owner) (find id p.queue)
            else find id p.queue)
          (flush-fault p reason now),
)
