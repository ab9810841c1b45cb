-- ===== src/Reclaim/Device.antt =====
-- What a reclaimer works on: the ledger and the cached locations of the device, the calls that destroy
-- something in the account, and a network that may answer anything.
use sennit.Prelude.{ℕ, String, List, [], ◌∷◌, ◌++◌, Result, ok, err, if◌then◌else◌, str_eq}
use sennit.Slabs.{SlabLedger, forget_slab}
use sennit.Reclaim.Plan.{StoredObject}

pub data Fault : Type 0 where
  degenerate : Fault
  network_failed : Fault
  not_ours_to_release : Fault
  write_failed wrong_count index_out_of_range apply_failed : Fault

pub data Call : Type 0 where
  delete_objects : List String → Call
  unpin_slab : String → Call

-- The answers of `sia.Client`. What the account and the walk answer may depend on the calls before.
pub record Network : Type 0 where
  pub on_account : List Call → Result Fault ℕ
  pub on_walk : List Call → Result Fault (List StoredObject × List String)
  pub on_pinned : List Call → Result Fault (List String)
  pub on_delete : List String → Result Fault (Unit {0})
  pub on_unpin : String → Result Fault (Unit {0})
  pub on_download : String → Result Fault (List ℕ)

-- The device, with the calls made so far and the slabs released.
pub record Device : Type 0 where
  pub ledger : SlabLedger
  pub cached : List String
  pub calls : List Call
  pub released : List String

abbrev pub and_then {ℓ κ} :
    {A : Type ℓ} {B : Type κ}
    → Device × Result Fault A
    → (Device → A → Device × Result Fault B)
    → Device × Result Fault B
and_then (d, ok a) next = next d a
and_then (d, err e) next = (d, err e)

abbrev pub call : Call → Device → Device
call c d = record d { calls = d.calls ++ c ∷ [] }

-- `client.DeleteObjects`
unfoldable pub delete : Network → List String → Device → Device × Result Fault (Unit {0})
delete n refs d = (call (delete_objects refs) d, n.on_delete refs)

-- `ForgetSlabMeta`: the cached locations over a slab.
unfoldable pub forget_slab_meta : String → List String → List String
forget_slab_meta id [] = []
forget_slab_meta id (s ∷ ss) =
    let rest = forget_slab_meta id ss in if str_eq s id then rest else s ∷ rest

-- What `Unpin` does on the device once the slab is released.
unfoldable pub forget : String → Device → Device
unfolding forget_slab forget_slab_meta
forget slab d = record d {
  ledger = forget_slab slab d.ledger;
  cached = forget_slab_meta slab d.cached;
  released = d.released ++ slab ∷ [];
}

-- `func (r *Reclaimer) Unpin(ctx context.Context, slabID sia.SlabID) error`
unfoldable pub unpin : Network → String → Device → Device × Result Fault (Unit {0})
unfolding forget
unpin n slab d =
    and_then (call (unpin_slab slab) d, n.on_unpin slab) (λ d' _. (forget slab d', ok tt))

-- The loops that unpin one slab after the other, up to the first that fails.
unfoldable pub unpin_each : Network → List String → Device → Device × Result Fault (Unit {0})
unfolding unpin
unpin_each n [] d = (d, ok tt)
unpin_each n (s ∷ ss) d = and_then (unpin n s d) (λ d' _. unpin_each n ss d')
