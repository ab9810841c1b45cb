-- ===== src/Queue.antt =====
-- local/queue.go: the flush queue, a table of sealed records that are owed to the network. Each
-- statement, and each transaction, is one step on the table. Times are nanoseconds where they are
-- passed, and milliseconds, the resolution in which they are stored, in the table.
pub mod Order
pub mod Claims
pub mod Withdrawal
pub mod Examples
use sennit.Prelude.{
  ℕ, zero, suc, ◌+◌, ◌-◌, ◌/◌, String, Bool, true, false, not, ◌&&◌, ◌||◌, Option, none, some, List,
  [], ◌∷◌, ◌++◌, Result, ok, err, length, take, ltb, leb, ◌==◌, if◌then◌else◌, map,
}
use sennit.Prelude.Keys.{number_key, contains}
use sennit.Record.{RecordId, Kind}

-- `type QueuedBlob struct`
pub record QueuedBlob : Type 0 where
  pub id : RecordId
  pub kind : Kind
  pub cid : String
  pub payload : List ℕ
  pub queued_at : ℕ
  pub seq : ℕ

-- A row of the table `queue`: a blob and the claim on it, `claimed_at` and `claimed_by`.
pub record Row : Type 0 where
  pub blob : QueuedBlob
  pub open blob use *
  pub claim : Option (ℕ × String)

-- The rows, the ones that were inserted first in front.
abbrev pub Queue : Type 0
Queue = List Row

pub data Refusal : Type 0 where
  claimed : Refusal

-- `SELECT COALESCE(MAX(seq), 0) FROM queue`
abbrev pub larger : ℕ → ℕ → ℕ
larger a b = if ltb a b then b else a

unfoldable pub max_seq : Queue → ℕ
max_seq [] = 0
max_seq (r ∷ q) = larger r.seq (max_seq q)

-- `INSERT … ON CONFLICT(record_id) DO UPDATE SET payload, cid, queued_at`: `seq` is the new row's.
unfoldable pub upsert : QueuedBlob → ℕ → Queue → Queue
upsert b seq [] = record { blob = record b { seq = seq }; claim = none } ∷ []
upsert b seq (r ∷ q) =
    if r.id == b.id
    then record r {
      blob = record r.blob { payload = b.payload; cid = b.cid; queued_at = b.queued_at };
    }
      ∷ q
    else r ∷ upsert b seq q

-- `func (s *Store) Enqueue(blob QueuedBlob) error`
unfoldable pub enqueue : QueuedBlob → Queue → Queue
unfolding upsert max_seq
enqueue b q = upsert b (max_seq q + 1) q

-- `type QueueState struct`; the zero time of an empty queue is `none`.
pub record QueueState : Type 0 where
  pub records : ℕ
  pub bytes : ℕ
  pub oldest : Option ℕ
  pub newest : Option ℕ

abbrev pub earliest : ℕ → Option ℕ → Option ℕ
earliest a none = some a
earliest a (some b) = some (if ltb b a then b else a)

abbrev pub latest : ℕ → Option ℕ → Option ℕ
latest a none = some a
latest a (some b) = some (if ltb a b then b else a)

-- `func (s *Store) QueueState() (QueueState, error)`
unfoldable pub queue_state : Queue → QueueState
queue_state [] = record { records = 0; bytes = 0; oldest = none; newest = none }
queue_state (r ∷ q) =
    let s = queue_state q in
    record {
      records = suc s.records;
      bytes = length r.payload + s.bytes;
      oldest = earliest r.queued_at s.oldest;
      newest = latest r.queued_at s.newest;
    }

-- The stored form of a time: `stamp` of local/queue.go.
abbrev pub stamp : ℕ → ℕ
stamp t = t / 1000000

-- `claimed_at IS NULL OR claimed_at < ?`, and `1 = 1` where there is no grace.
unfoldable pub is_free : ℕ → ℕ → Option (ℕ × String) → Bool
is_free stale_after now none = true
is_free stale_after now (some (at, by)) = stale_after == 0 || ltb at (stamp (now - stale_after))

-- `ORDER BY seq`, and `slices.SortFunc` by `Seq`.
abbrev pub insert_by_seq : Row → List Row → List Row
insert_by_seq r [] = r ∷ []
insert_by_seq r (s ∷ q) =
    let rest = insert_by_seq r q in if leb r.seq s.seq then r ∷ s ∷ q else s ∷ rest

unfoldable pub sort_by_seq : List Row → List Row
sort_by_seq [] = []
sort_by_seq (r ∷ q) = insert_by_seq r (sort_by_seq q)

abbrev pub free_rows : ℕ → ℕ → Queue → List Row
free_rows stale_after now [] = []
free_rows stale_after now (r ∷ q) =
    let rest = free_rows stale_after now q in
    if is_free stale_after now r.claim then r ∷ rest else rest

-- `LIMIT ?`; a limit that is not positive is none.
abbrev pub limited : ℕ → List Row → List Row
limited zero q = q
limited (suc n) q = take (suc n) q

abbrev pub ids : List Row → List RecordId
ids [] = []
ids (r ∷ q) = r.id ∷ ids q

-- `UPDATE queue SET claimed_at, claimed_by WHERE record_id IN (…)`
unfoldable pub set_claim : Option (ℕ × String) → List RecordId → Queue → Queue
set_claim c chosen [] = []
set_claim c chosen (r ∷ q) =
    (if contains chosen r.id then record r { claim = c } else r) ∷ set_claim c chosen q

abbrev pub blobs : List Row → List QueuedBlob
blobs [] = []
blobs (r ∷ q) = r.blob ∷ blobs q

-- The rows that a claim takes, in the order in which it returns them.
unfoldable pub claimable : ℕ → ℕ → ℕ → Queue → List Row
unfolding is_free sort_by_seq
claimable stale_after limit now q = limited limit (sort_by_seq (free_rows stale_after now q))

-- `func (s *Store) ClaimQueued`: the table with the claims, and the blobs in arrival order.
unfoldable pub claim_queued : String → ℕ → ℕ → ℕ → Queue → Queue × List QueuedBlob
unfolding claimable set_claim
claim_queued owner stale_after limit now q =
    let taken = claimable stale_after limit now q in
    (set_claim (some (stamp now, owner)) (ids taken) q, blobs taken)

-- `func (s *Store) ReleaseQueued(ids []record.ID) error`
unfoldable pub release_queued : List RecordId → Queue → Queue
unfolding set_claim
release_queued chosen q = set_claim none chosen q

-- `func (s *Store) DropQueued(ids []record.ID) error`
unfoldable pub drop_queued : List RecordId → Queue → Queue
drop_queued chosen [] = []
drop_queued chosen (r ∷ q) =
    let rest = drop_queued chosen q in if contains chosen r.id then rest else r ∷ rest

abbrev pub find : RecordId → Queue → Option Row
find id [] = none
find id (r ∷ q) = if r.id == id then some r else find id q

-- `func (s *Store) WithdrawQueued`: the delete of a row that no live claim holds, and where nothing was
-- deleted the question whether the record is queued at all.
unfoldable pub withdraw_queued : RecordId → ℕ → ℕ → Queue → Queue × Result Refusal Bool
unfolding is_free drop_queued
withdraw_queued id stale_after now q = elim (find id q) [
  | none ↦ (q, ok false)
  | some r ↦
      if is_free stale_after now r.claim
      then (drop_queued (id ∷ []) q, ok true)
      else (q, err claimed)
]

-- The first loop of `WithdrawQueuedAll`: whether one of the records is held by a live claim.
unfoldable pub any_held : ℕ → ℕ → List RecordId → Queue → Bool
unfolding is_free
any_held stale_after now [] q = false
any_held stale_after now (id ∷ is) q =
    (elim (find id q) [ none ↦ false | some r ↦ not (is_free stale_after now r.claim) ])
    || any_held stale_after now is q

-- The second loop: each record is deleted, and noted if it was there.
unfoldable pub remove_each : List RecordId → Queue → Queue × List RecordId
unfolding drop_queued
remove_each [] q = (q, [])
remove_each (id ∷ is) q =
    let (q', gone) = remove_each is (drop_queued (id ∷ []) q) in
    (q', elim (find id q) [ none ↦ gone | some r ↦ id ∷ gone ])

-- `func (s *Store) WithdrawQueuedAll`
unfoldable pub withdraw_queued_all :
    List RecordId → ℕ → ℕ → Queue → Queue × Result Refusal (List RecordId)
unfolding any_held remove_each
withdraw_queued_all chosen stale_after now q =
    if any_held stale_after now chosen q
    then (q, err claimed)
    else let (q', gone) = remove_each chosen q in (q', ok gone)
