-- ===== src/Packer/Examples.antt =====
-- A concrete packer, and the theorems at concrete inputs.
use sennit.Prelude.{
  ℕ, ◌≤◌, ◌*◌, ◌/◌, ◌≡◌, refl, true, none, some, List, [], ◌∷◌, ok, arith, if◌then◌else◌, inl,
}
use sennit.Prelude.Keys.{number_key, contains}
use sennit.Queue.{
  QueuedBlob, Row, QueueState, find, sort_by_seq, is_free, claim_queued, claimable, drop_queued,
}
use sennit.Queue.Claims.{batch_ids, free_row}
use sennit.Store as Store
use sennit.Store.{Boundary, put_batch, write_batch, written_of}
use sennit.Store.Examples.{network, no_pins, flush as stored}
use sennit.Packer.Policy.{
  manual, respected, tick, immediate, default_policy, second, minute, larger,
}
use sennit.Packer.Flush.{
  Packer, Answer, Flushed, Queued, to_batch, to_blobs, flush, claim, write_claimed, catalogue,
  refresh, add, pending,
}
use sennit.Packer.Cadence.{tick_bounds}
use sennit.Packer.Safety as Safety
use sennit.Queue as Queue
use sennit.Packer.Safety.{flush_fault, took, row_after, write_claimed_keeps, flush_rows}
use sennit.Packer.Counts.{IsSound, add-IsSound}

abbrev blob_of : ℕ → QueuedBlob
blob_of id = record {
  id = id;
  kind = "memory";
  cid = "c";
  payload = 1 ∷ 2 ∷ [];
  queued_at = 100;
  seq = 1;
}

abbrev row_of : ℕ → Row
row_of id = record { blob = blob_of id; claim = none }

abbrev state : QueueState
state = record { records = 1; bytes = 2; oldest = some 100; newest = some 100 }

abbrev pub packer : Packer
packer = record {
  store = some network;
  queue = row_of 1 ∷ [];
  policy = immediate 1000;
  owner = "me";
  state = state;
  on_flush = none;
}

packer-IsSound : IsSound packer
packer-IsSound = ((refl, tt, tt), unfold pending in refl)

abbrev batch : List QueuedBlob
batch = blob_of 1 ∷ []

abbrev written : Flushed
written = record { reason = some manual; records = to_batch batch; flush = stored }

abbrev answer : Answer
answer = record { result = written; fault = none }

flush_ok : (flush packer manual 5000000).1 ≡ answer
unfolding flush claim claim_queued claimable is_free sort_by_seq write_claimed catalogue put_batch
    write_batch written_of respected immediate
flush_ok = refl

tick_bounds_example :
    (second ≤ tick (default_policy 10))
    × (tick (default_policy 10) ≤ minute)
    × (tick (default_policy 10) ≤ larger (5 * minute / 10) second)
tick_bounds_example =
    tick_bounds (default_policy 10) (5 * minute) (omega arith) (inl (unfold default_policy in refl))

write_claimed_keeps_example :
    (contains (batch_ids batch) 1 ≡ true)
    × ((f : Store.Flush) × ((put_batch network (to_blobs batch)).1 ≡ ok f)
        × (took none (Safety.written manual batch f) ≡ true)
        × ((write_claimed packer network manual batch).1 ≡ record {
          result = record { reason = some manual; records = to_batch batch; flush = f };
          fault = none;
        }))
write_claimed_keeps_example =
    write_claimed_keeps packer network manual batch 1 refl
      (unfold write_claimed catalogue put_batch write_batch written_of refresh drop_queued in refl)

-- The pin of the slab is refused: the row is free again.
abbrev refused : Packer
refused = record packer { store = some no_pins }

flush_rows_example :
    ((flush refused manual 5000000).1.fault
      ≡ flush_fault (some no_pins) refused manual (claim refused 5000000).1)
    × (find 1 (flush refused manual 5000000).0.queue ≡ (
        if free_row (respected (immediate 1000)) 5000000 (find 1 packer.queue)
        then row_after
            (flush_fault (some no_pins) refused manual (claim refused 5000000).1)
            (Queue.stamp 5000000, "me")
            (find 1 packer.queue)
        else find 1 packer.queue))
flush_rows_example = flush_rows refused manual 5000000 1 (refl, tt, tt)

abbrev item : Queued
item = record {
  id = 2;
  kind = "memory";
  blob = record { cid = "d"; payload = 3 ∷ [] };
  since = none;
}

add-IsSound_example : IsSound (add packer item 7000000).0
add-IsSound_example = add-IsSound packer item 7000000 packer-IsSound refl
