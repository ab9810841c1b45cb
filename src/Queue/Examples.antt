-- ===== src/Queue/Examples.antt =====
-- A concrete queue, and the theorems at concrete inputs.
use sennit.Prelude.{
  ℕ, ◌≡◌, refl, true, false, ◌&&◌, none, List, [], ◌∷◌, if◌then◌else◌, ok, err, ◌⊎◌,
}
use sennit.Prelude.Keys.{number_key, contains}
use sennit.Record.{RecordId}
use sennit.Queue.{
  QueuedBlob, Queue, claimed, is_free, enqueue, sort_by_seq, upsert, max_seq, set_claim, claimable,
  claim_queued, find, withdraw_queued_all, any_held,
}
use sennit.Queue.Withdrawal.{held, queued, withdraw_queued_all_lem}

abbrev blob_of : ℕ → QueuedBlob
blob_of id = record {
  id = id;
  kind = "memory";
  cid = "c";
  payload = 1 ∷ 2 ∷ [];
  queued_at = 100;
  seq = 0;
}

abbrev one_row : Queue
one_row = record { blob = record (blob_of 1) { seq = 1 }; claim = none } ∷ []

abbrev two_rows : Queue
two_rows = enqueue (blob_of 2) one_row

arrival : (max_seq two_rows ≡ 2)
unfolding max_seq enqueue upsert
arrival = refl

abbrev held_row : Queue
held_row = (claim_queued "a" 50000000 0 200000000 two_rows).0

refused : withdraw_queued_all (1 ∷ 2 ∷ []) 50000000 210000000 held_row ≡ (held_row, err claimed)
unfolding withdraw_queued_all any_held claim_queued claimable enqueue upsert max_seq is_free
    sort_by_seq set_claim
refused = refl

withdraw_queued_all_lem_example :
    (((id : RecordId) × (contains (2 ∷ []) id ≡ true)
        × (held 50000000 210000000 (find id two_rows) ≡ true))
      × (withdraw_queued_all (2 ∷ []) 50000000 210000000 two_rows ≡ (two_rows, err claimed)))
    ⊎ (((id : RecordId)
          → (contains (2 ∷ []) id && held 50000000 210000000 (find id two_rows)) ≡ false)
        × ((gone : List RecordId) × ((withdraw_queued_all (2 ∷ []) 50000000 210000000 two_rows).1
              ≡ ok gone)
            × ((id : RecordId)
                → contains gone id ≡ (contains (2 ∷ []) id && queued (find id two_rows))))
        × ((id : RecordId)
            → find id (withdraw_queued_all (2 ∷ []) 50000000 210000000 two_rows).0
              ≡ (if contains (2 ∷ []) id then none else find id two_rows)))
withdraw_queued_all_lem_example = withdraw_queued_all_lem (2 ∷ []) 50000000 210000000 two_rows
