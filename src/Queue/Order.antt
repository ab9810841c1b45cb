-- ===== src/Queue/Order.antt =====
-- The queue's invariant: each record once, in the order of arrival; and the queue as a map.
use sennit.Prelude.{
  ℕ, ◌+◌, ◌<◌, ◌≤◌, ◌≡◌, refl, ap, String, false, not, ◌&&◌, ◌||◌, Option, none, some, List, [],
  ◌∷◌, ◌==◌, if◌then◌else◌, All, arith, Bool-cases, inl, inr, ==_iff,
}
use sennit.Prelude.Keys.{number_key, contains}
use sennit.Record.{RecordId}
use sennit.Queue.{
  QueuedBlob, Row, Queue, max_seq, larger, upsert, enqueue, ids, set_claim, drop_queued, find,
}

abbrev pub Ordered : Queue → Type 0
Ordered [] = Unit
Ordered (r ∷ q) = (contains (ids q) r.id ≡ false) × All (λ (s : Row). r.seq < s.seq) q × Ordered q

max_seq_bounds : (q : Queue) → All (λ (s : Row). s.seq ≤ max_seq q) q
unfolding max_seq
max_seq_bounds [] = tt
max_seq_bounds (r ∷ q) = (ground arith, weaken q (max_seq_bounds q))
  where
    weaken :
        (p : Queue)
        → All (λ (s : Row). s.seq ≤ max_seq q) p
        → All (λ (s : Row). s.seq ≤ larger r.seq (max_seq q)) p
    weaken [] h = tt
    weaken (s ∷ p) h = (ground (arith, h.0), weaken p h.1)

-- The claim of a row, updated where the record is queued already.
abbrev pub put_row : QueuedBlob → ℕ → Option Row → Row
put_row b seq none = record { blob = record b { seq = seq }; claim = none }
put_row b seq (some r) = record r {
  blob = record r.blob { payload = b.payload; cid = b.cid; queued_at = b.queued_at };
}

pub find-upsert :
    (b : QueuedBlob) (seq : ℕ) (q : Queue) (id : RecordId)
    → find id (upsert b seq q)
      ≡ (if b.id == id then some (put_row b seq (find b.id q)) else find id q)
unfolding upsert
find-upsert b seq [] id = ground arith
find-upsert b seq (r ∷ q) id = ground (arith, find-upsert b seq q id)

contains-ids-upsert :
    (b : QueuedBlob) (seq : ℕ) (q : Queue) (id : RecordId)
    → contains (ids (upsert b seq q)) id ≡ (contains (ids q) id || (b.id == id))
unfolding upsert
contains-ids-upsert b seq [] id = ground arith
contains-ids-upsert b seq (r ∷ q) id = ground (arith, contains-ids-upsert b seq q id)

above-upsert :
    (k : ℕ) (b : QueuedBlob) (seq : ℕ) (q : Queue)
    → k < seq
    → All (λ (s : Row). k < s.seq) q
    → All (λ (s : Row). k < s.seq) (upsert b seq q)
unfolding upsert
above-upsert k b seq [] h a = (h, tt)
above-upsert k b seq (r ∷ q) h a = elim (Bool-cases (r.id == b.id)) [
  | inl e ↦ rw e (a.0, a.1)
  | inr e ↦ rw e (a.0, above-upsert k b seq q h a.1)
]

upsert-Ordered :
    (b : QueuedBlob) (seq : ℕ) (q : Queue)
    → Ordered q
    → All (λ (s : Row). s.seq < seq) q
    → Ordered (upsert b seq q)
unfolding upsert
upsert-Ordered b seq [] o a = (refl, tt, tt)
upsert-Ordered b seq (r ∷ q) o a = elim (Bool-cases (r.id == b.id)) [
  | inl e ↦ rw e (o.0, o.1, o.2)
  | inr e ↦ rw e (
    rw (contains-ids-upsert b seq q r.id) (ground (arith, o.0, e)),
    above-upsert r.seq b seq q a.0 o.1,
    upsert-Ordered b seq q o.2 a.1,
  )
]

-- Queueing a blob, new or again, keeps a queue in order: each record once, in the order of arrival.
pub enqueue-Ordered : (b : QueuedBlob) (q : Queue) → Ordered q → Ordered (enqueue b q)
unfolding enqueue
enqueue-Ordered b q o = upsert-Ordered b (max_seq q + 1) q o (next q (max_seq_bounds q))
  where
    next :
        (p : Queue)
        → All (λ (s : Row). s.seq ≤ max_seq q) p
        → All (λ (s : Row). s.seq < max_seq q + 1) p
    next [] h = tt
    next (s ∷ p) h = (omega (arith, h.0), next p h.1)

ids-set_claim :
    (c : Option (ℕ × String)) (chosen : List RecordId) (q : Queue)
    → ids (set_claim c chosen q) ≡ ids q
unfolding set_claim
ids-set_claim c chosen [] = refl
ids-set_claim c chosen (r ∷ q) = ground (arith, ids-set_claim c chosen q)

above-set_claim :
    (k : ℕ) (c : Option (ℕ × String)) (chosen : List RecordId) (q : Queue)
    → All (λ (s : Row). k < s.seq) q
    → All (λ (s : Row). k < s.seq) (set_claim c chosen q)
unfolding set_claim
above-set_claim k c chosen [] a = tt
above-set_claim k c chosen (r ∷ q) a = elim (Bool-cases (contains chosen r.id)) [
  | inl e ↦ rw e (a.0, above-set_claim k c chosen q a.1)
  | inr e ↦ rw e (a.0, above-set_claim k c chosen q a.1)
]

pub set_claim-Ordered :
    (c : Option (ℕ × String)) (chosen : List RecordId) (q : Queue)
    → Ordered q
    → Ordered (set_claim c chosen q)
unfolding set_claim
set_claim-Ordered c chosen [] o = tt
set_claim-Ordered c chosen (r ∷ q) o =
    let same = ids-set_claim c chosen q in
    let above = above-set_claim r.seq c chosen q o.1 in
    elim (Bool-cases (contains chosen r.id)) [
      | inl e ↦ rw (e, same) (o.0, above, set_claim-Ordered c chosen q o.2)
      | inr e ↦ rw (e, same) (o.0, above, set_claim-Ordered c chosen q o.2)
    ]

contains-ids-drop :
    (chosen : List RecordId) (q : Queue) (id : RecordId)
    → contains (ids (drop_queued chosen q)) id ≡ (contains (ids q) id && not (contains chosen id))
unfolding drop_queued
contains-ids-drop chosen [] id = refl
contains-ids-drop chosen (r ∷ q) id = elim (Bool-cases (r.id == id)) [
  | inl e ↦
      let same : r.id ≡ id = (==_iff r.id id).0 e in
      ground (arith, contains-ids-drop chosen q id, ap (contains chosen) same)
  | inr e ↦ ground (arith, contains-ids-drop chosen q id)
]

above-drop :
    (k : ℕ) (chosen : List RecordId) (q : Queue)
    → All (λ (s : Row). k < s.seq) q
    → All (λ (s : Row). k < s.seq) (drop_queued chosen q)
unfolding drop_queued
above-drop k chosen [] a = tt
above-drop k chosen (r ∷ q) a = elim (Bool-cases (contains chosen r.id)) [
  | inl e ↦ rw e (above-drop k chosen q a.1)
  | inr e ↦ rw e (a.0, above-drop k chosen q a.1)
]

pub drop-Ordered : (chosen : List RecordId) (q : Queue) → Ordered q → Ordered (drop_queued chosen q)
unfolding drop_queued
drop-Ordered chosen [] o = tt
drop-Ordered chosen (r ∷ q) o = elim (Bool-cases (contains chosen r.id)) [
  | inl e ↦ rw e (drop-Ordered chosen q o.2)
  | inr e ↦ rw e (
    rw (contains-ids-drop chosen q r.id) (ground (arith, o.0)),
    above-drop r.seq chosen q o.1,
    drop-Ordered chosen q o.2,
  )
]

pub find-drop :
    (chosen : List RecordId) (q : Queue) (id : RecordId)
    → find id (drop_queued chosen q) ≡ (if contains chosen id then none else find id q)
unfolding drop_queued
find-drop chosen [] id = ground arith
find-drop chosen (r ∷ q) id = elim (Bool-cases (r.id == id)) [
  | inl e ↦
      let same : r.id ≡ id = (==_iff r.id id).0 e in
      ground (arith, find-drop chosen q id, ap (contains chosen) same)
  | inr e ↦ ground (arith, find-drop chosen q id)
]

abbrev pub reclaimed : Option (ℕ × String) → Option Row → Option Row
reclaimed c none = none
reclaimed c (some r) = some (record r { claim = c })

pub find-set_claim :
    (c : Option (ℕ × String)) (chosen : List RecordId) (q : Queue) (id : RecordId)
    → find id (set_claim c chosen q)
      ≡ (if contains chosen id then reclaimed c (find id q) else find id q)
unfolding set_claim
find-set_claim c chosen [] id = ground arith
find-set_claim c chosen (r ∷ q) id = elim (Bool-cases (r.id == id)) [
  | inl e ↦
      let same : r.id ≡ id = (==_iff r.id id).0 e in
      ground (arith, find-set_claim c chosen q id, ap (contains chosen) same)
  | inr e ↦ ground (arith, find-set_claim c chosen q id)
]
