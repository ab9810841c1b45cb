-- ===== src/Packer/Flush.antt =====
-- store/packer/packer.go: the flush queue on the device, and the batches that are written from it. The
-- queue's own database is taken to answer; what the network and the callback answer is free.
use sennit.Prelude.{
  ℕ, suc, ◌+◌, ◌*◌, String, Bool, true, false, Option, none, some, List, [], ◌∷◌, Result, ok, err,
  length,
}
use sennit.Record.{RecordId, Kind}
use sennit.Queue.{
  QueuedBlob, Queue, QueueState, stamp, Refusal, enqueue, queue_state, claim_queued, release_queued,
  drop_queued, withdraw_queued, withdraw_queued_all,
}
use sennit.Queue.Claims.{batch_ids}
use sennit.Store as Store
use sennit.Store.{Blob, Boundary, put_batch}
use sennit.Packer.Policy.{Policy, Reason, manual, due, respected, millisecond}

-- `type Queued struct`; a zero `Since` is `none`.
pub record Queued : Type 0 where
  pub id : RecordId
  pub kind : Kind
  pub blob : Blob
  pub since : Option ℕ

-- `type Result struct`
pub record Flushed : Type 0 where
  pub reason : Option Reason
  pub records : List Queued
  pub flush : Store.Flush

pub data Fault : Type 0 where
  offline : Fault
  put_failed : Store.Fault → Fault
  not_catalogued panicked : Fault

-- What a method of the packer returns: a result, which may stand beside an error.
pub record Answer : Type 0 where
  pub result : Flushed
  pub fault : Option Fault

-- `type Packer struct`, with the table of its queue.
pub record Packer : Type 0 where
  pub store : Option Boundary
  pub queue : Queue
  pub policy : Policy
  pub owner : String
  pub state : QueueState
  pub on_flush : Option (Flushed → Result (Unit {0}) (Unit {0}))

abbrev pub nothing : Flushed
nothing = record { reason = none; records = []; flush = Store.empty_flush }

abbrev pub instant : Option ℕ → Option ℕ
instant none = none
instant (some t) = some (t * millisecond)

abbrev pub read_state : QueueState → QueueState
read_state s = record s { oldest = instant s.oldest; newest = instant s.newest }

-- `func (p *Packer) refresh() error`
unfoldable pub refresh : Packer → Packer
unfolding queue_state
refresh p = record p { state = read_state (queue_state p.queue) }

-- `func New(s *store.Store, queue *local.Store, policy Policy) (*Packer, error)`
unfoldable pub new : Option Boundary → Queue → Policy → String → Packer
unfolding queue_state
new s queue policy owner = record {
  store = s;
  queue = queue;
  policy = policy;
  owner = owner;
  state = read_state (queue_state queue);
  on_flush = none;
}

abbrev pub to_queued : QueuedBlob → Queued
to_queued b = record {
  id = b.id;
  kind = b.kind;
  blob = record { cid = b.cid; payload = b.payload };
  since = some (b.queued_at * millisecond);
}

abbrev pub to_batch : List QueuedBlob → List Queued
to_batch [] = []
to_batch (b ∷ bs) = to_queued b ∷ to_batch bs

abbrev pub to_blobs : List QueuedBlob → List Blob
to_blobs [] = []
to_blobs (b ∷ bs) = record { cid = b.cid; payload = b.payload } ∷ to_blobs bs

-- The rows of a batch that was written and catalogued leave the queue.
abbrev pub settle_flush : Packer → List RecordId → Flushed → Packer × Answer
settle_flush p ids result = (
  refresh (record p { queue = drop_queued ids p.queue }),
  record { result = result; fault = none },
)

-- The callback on a batch that was written; where it fails the claim stays.
unfoldable pub catalogue : Packer → List RecordId → Flushed → Packer × Answer
unfolding refresh drop_queued
catalogue p ids result = elim p.on_flush [
  | none ↦ settle_flush p ids result
  | some callback ↦ elim (callback result) [
    | err _ ↦ (p, record { result = result; fault = some not_catalogued })
    | ok _ ↦ settle_flush p ids result
  ]
]

-- A batch that was not written is handed back to the queue; a panic goes through `flush` as it is.
unfoldable pub hand_back : Packer → List RecordId → Store.Fault → Packer × Answer
unfolding release_queued
hand_back p ids Store.index_out_of_range = (p, record { result = nothing; fault = some panicked })
hand_back p ids e = (
  record p { queue = release_queued ids p.queue },
  record { result = nothing; fault = some (put_failed e) },
)

-- The part of `flush` behind the claim: the queue here is the one that the claim left, and what other
-- processes have done to it since.
unfoldable pub write_claimed : Packer → Boundary → Reason → List QueuedBlob → Packer × Answer
unfolding catalogue put_batch hand_back
write_claimed p s reason [] = (p, record { result = nothing; fault = none })
write_claimed p s reason (b ∷ bs) = elim (put_batch s (to_blobs (b ∷ bs))).1 [
  | err e ↦ hand_back p (batch_ids (b ∷ bs)) e
  | ok flushed ↦
      catalogue p (batch_ids (b ∷ bs))
        (record { reason = some reason; records = to_batch (b ∷ bs); flush = flushed })
]

-- The claim that a flush at `now` makes.
unfoldable pub claim : Packer → ℕ → Queue × List QueuedBlob
unfolding claim_queued respected
claim p now = claim_queued p.owner (respected p.policy) 0 now p.queue

-- `func (p *Packer) flush(ctx context.Context, reason Reason) (Result, error)`
unfoldable pub flush : Packer → Reason → ℕ → Packer × Answer
unfolding claim write_claimed
flush p reason now = elim p.store [
  | none ↦ (p, record { result = nothing; fault = some offline })
  | some s ↦
      let (q, claimed) = claim p now in write_claimed (record p { queue = q }) s reason claimed
]

-- `func (p *Packer) Flush(ctx context.Context) (Result, error)`
unfoldable pub flush_all : Packer → ℕ → Packer × Answer
unfolding flush
flush_all p now = flush p manual now

abbrev pub since_or : ℕ → Option ℕ → ℕ
since_or now none = now
since_or now (some t) = t

-- The table's row for an item.
abbrev pub to_row : Queued → ℕ → QueuedBlob
to_row item at = record {
  id = item.id;
  kind = item.kind;
  cid = item.blob.cid;
  payload = item.blob.payload;
  queued_at = stamp at;
  seq = 0;
}

-- The queue's figures with one more item.
abbrev pub count_item : QueueState → ℕ → ℕ → QueueState
count_item s size at = record {
  records = suc s.records;
  bytes = s.bytes + size;
  oldest = some (since_or at s.oldest);
  newest = some at;
}

-- The queueing half of `Add`.
unfoldable pub queue_item : Packer → Queued → ℕ → Packer
unfolding enqueue
queue_item p item at = record p {
  queue = enqueue (to_row item at) p.queue;
  state = count_item p.state (length item.blob.payload) at;
}

-- The end of `Add`: a flush where the policy asks for one and there is a connection.
unfoldable pub flush_if_due : Packer → ℕ → Packer × Answer
unfolding due flush
flush_if_due p now = elim p.store [
  | none ↦ (p, record { result = nothing; fault = none })
  | some s ↦ elim (due p.policy p.state now) [
    | none ↦ (p, record { result = nothing; fault = none })
    | some reason ↦ flush p reason now
  ]
]

-- `func (p *Packer) Add(ctx context.Context, item Queued) (Result, error)`
unfoldable pub add : Packer → Queued → ℕ → Packer × Answer
unfolding queue_item flush_if_due
add p item now = flush_if_due (queue_item p item (since_or now item.since)) now

-- `func (p *Packer) Withdraw(id record.ID) (bool, error)`
unfoldable pub withdraw : Packer → RecordId → ℕ → Packer × Result Refusal Bool
unfolding withdraw_queued refresh respected
withdraw p id now =
    let (q, answer) = withdraw_queued id (respected p.policy) now p.queue in
    elim answer [
      | err e ↦ (record p { queue = q }, err e)
      | ok false ↦ (record p { queue = q }, ok false)
      | ok true ↦ (refresh (record p { queue = q }), ok true)
    ]

-- `func (p *Packer) WithdrawAll(ids []record.ID) ([]record.ID, error)`
unfoldable pub withdraw_all : Packer → List RecordId → ℕ → Packer × Result Refusal (List RecordId)
unfolding withdraw_queued_all refresh respected
withdraw_all p ids now =
    let (q, answer) = withdraw_queued_all ids (respected p.policy) now p.queue in
    elim answer [
      | err e ↦ (record p { queue = q }, err e)
      | ok [] ↦ (record p { queue = q }, ok [])
      | ok (i ∷ is) ↦ (refresh (record p { queue = q }), ok (i ∷ is))
    ]

-- `func (p *Packer) Due(now time.Time) (Reason, bool)`
unfoldable pub is_flushable : Packer → ℕ → Option Reason
unfolding due
is_flushable p now = due p.policy p.state now

-- `func (p *Packer) Pending() int`
unfoldable pub pending : Packer → ℕ
pending p = p.state.records
