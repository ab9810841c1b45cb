-- ===== src/Queue/Claims.antt =====
-- Claims: which rows a flush takes, in what order, and that two flushes never hold the same record.
use sennit.Prelude.{
  ℕ, ◌+◌, ◌<◌, ◌≤◌, ◌≡◌, refl, ◌∙◌, ap, sym, String, Bool, false, Option, none, some, List, [], ◌∷◌,
  ◌==◌, if◌then◌else◌, All, arith, Bool-cases, inl, inr, ==_iff,
}
use sennit.Prelude.Keys.{number_key, contains}
use sennit.Record.{RecordId}
use sennit.Queue.{
  QueuedBlob, Row, Queue, is_free, insert_by_seq, sort_by_seq, free_rows, ids, blobs, set_claim,
  claimable, claim_queued, find, stamp,
}
use sennit.Queue.Order.{Ordered, find-set_claim, set_claim-Ordered, reclaimed}

insert_least :
    (r : Row) (q : List Row) → All (λ (s : Row). r.seq < s.seq) q → insert_by_seq r q ≡ r ∷ q
insert_least r [] a = refl
insert_least r (s ∷ q) a = ground (arith, a.0)

sort-Ordered : (q : Queue) → Ordered q → sort_by_seq q ≡ q
unfolding sort_by_seq
sort-Ordered [] o = refl
sort-Ordered (r ∷ q) o = rw (sort-Ordered q o.2) (insert_least r q o.1)

absent-free_rows :
    (stale now : ℕ) (q : Queue) (id : RecordId)
    → contains (ids q) id ≡ false
    → contains (ids (free_rows stale now q)) id ≡ false
absent-free_rows stale now [] id h = refl
absent-free_rows stale now (r ∷ q) id h = ground (arith, absent-free_rows stale now q id)

above-free_rows :
    (k stale now : ℕ) (q : Queue)
    → All (λ (s : Row). k < s.seq) q
    → All (λ (s : Row). k < s.seq) (free_rows stale now q)
above-free_rows k stale now [] a = tt
above-free_rows k stale now (r ∷ q) a = elim (Bool-cases (is_free stale now r.claim)) [
  | inl e ↦ rw e (a.0, above-free_rows k stale now q a.1)
  | inr e ↦ rw e (above-free_rows k stale now q a.1)
]

pub free_rows-Ordered : (stale now : ℕ) (q : Queue) → Ordered q → Ordered (free_rows stale now q)
free_rows-Ordered stale now [] o = tt
free_rows-Ordered stale now (r ∷ q) o = elim (Bool-cases (is_free stale now r.claim)) [
  | inl e ↦ rw e (
    absent-free_rows stale now q r.id o.0,
    above-free_rows r.seq stale now q o.1,
    free_rows-Ordered stale now q o.2,
  )
  | inr e ↦ rw e (free_rows-Ordered stale now q o.2)
]

-- A flush takes the free rows as they stand in the queue, which is in the order of arrival.
pub claimable-eq-free_rows :
    (stale now : ℕ) (q : Queue) → Ordered q → claimable stale 0 now q ≡ free_rows stale now q
unfolding claimable
claimable-eq-free_rows stale now q o =
    sort-Ordered (free_rows stale now q) (free_rows-Ordered stale now q o)

-- Whether a row is there and free.
abbrev pub free_row : ℕ → ℕ → Option Row → Bool
free_row stale now none = false
free_row stale now (some r) = is_free stale now r.claim

pub contains-free_rows :
    (stale now : ℕ) (q : Queue) (id : RecordId)
    → Ordered q
    → contains (ids (free_rows stale now q)) id ≡ free_row stale now (find id q)
contains-free_rows stale now [] id o = refl
contains-free_rows stale now (r ∷ q) id o = elim (Bool-cases (r.id == id)) [
  | inl e ↦
      let same : r.id ≡ id = (==_iff r.id id).0 e in
      ground (arith, absent-free_rows stale now q id (ap (contains (ids q)) (sym same) ∙ o.0))
  | inr e ↦ ground (arith, contains-free_rows stale now q id o.2)
]

abbrev pub batch_ids : List QueuedBlob → List RecordId
batch_ids [] = []
batch_ids (b ∷ bs) = b.id ∷ batch_ids bs

pub batch_ids-blobs : (q : List Row) → batch_ids (blobs q) ≡ ids q
batch_ids-blobs [] = refl
batch_ids-blobs (r ∷ q) = ap (◌∷◌ r.id) (batch_ids-blobs q)

-- The batch of a claim with no limit.
pub claim_queued_lem :
    (owner : String) (stale now : ℕ) (q : Queue)
    → Ordered q
    → claim_queued owner stale 0 now q ≡ (
      set_claim (some (stamp now, owner)) (ids (free_rows stale now q)) q,
      blobs (free_rows stale now q),
    )
unfolding claim_queued
claim_queued_lem owner stale now q o = rw (claimable-eq-free_rows stale now q o) refl

abbrev pub batch : Queue × List QueuedBlob → List RecordId
batch r = batch_ids r.1

pub contains-batch :
    (owner : String) (stale now : ℕ) (q : Queue) (id : RecordId)
    → Ordered q
    → contains (batch (claim_queued owner stale 0 now q)) id ≡ free_row stale now (find id q)
contains-batch owner stale now q id o =
    rw (claim_queued_lem owner stale now q o, batch_ids-blobs (free_rows stale now q))
      (contains-free_rows stale now q id o)

-- After a claim the rows it took are its owner's, and the others are as they were.
pub find-claim :
    (owner : String) (stale now : ℕ) (q : Queue) (id : RecordId)
    → Ordered q
    → find id (claim_queued owner stale 0 now q).0 ≡ (
        if free_row stale now (find id q)
        then reclaimed (some (stamp now, owner)) (find id q)
        else find id q)
find-claim owner stale now q id o = rw (claim_queued_lem owner stale now q o) (
    find-set_claim (some (stamp now, owner)) (ids (free_rows stale now q)) q id
    ∙ rw (contains-free_rows stale now q id o) refl)

pub claim_queued-Ordered :
    (owner : String) (stale now : ℕ) (q : Queue)
    → Ordered q
    → Ordered (claim_queued owner stale 0 now q).0
claim_queued-Ordered owner stale now q o =
    rw (claim_queued_lem owner stale now q o)
      (set_claim-Ordered (some (stamp now, owner)) (ids (free_rows stale now q)) q o)

held :
    (owner : String) (stale now later : ℕ) (r : Option Row)
    → 0 < stale
    → later ≤ now + stale
    → free_row stale later (reclaimed (some (stamp now, owner)) r) ≡ false
held owner stale now later none pos soon = refl
held owner stale now later (some r) pos soon = unfold is_free in ground (arith, pos, soon)
