-- ===== src/Vault/Forgotten.antt =====
-- What forgetting a conversation leaves: everything where a flush has part of it, and otherwise nothing.
use sennit.Prelude.{◌≡◌, ◌∙◌, Bool, none, List, Result, ok, err, ◌==◌, if◌then◌else◌}
use sennit.Prelude.Keys.{number_key, contains}
use sennit.Prelude.Maps as Maps
use sennit.Record.{RecordId}
use sennit.Queue.{find}
use sennit.Queue as Queue
use sennit.Queue.Withdrawal.{held}
use sennit.Packer.Policy.{respected}
use sennit.Packer.Flush.{Packer}
use sennit.Manifest.Lines.{Format}
use sennit.Manifest.Service.{lookup, not_found}
use sennit.Index as Index
use sennit.Index.Laws.{vector_of}
use sennit.Index.Persist.{Sealer}
use sennit.Index.Persist as Persist
use sennit.Index.Files as Files
use sennit.Sessions as Sessions
use sennit.Sessions.{find_head}
use sennit.Transcript.Session.{Session}
use sennit.Vault.Heads as Heads
use sennit.Vault.Heads.{Codec, Round, revise_edges, take_child, disowned}
use sennit.Vault.Forgetting.{
  Fault, Vault, Surroundings, Outcome, and_then, chunk_ids, forget_ranking_meta, remove_vector,
  tell_parent, drop_head,
}
use sennit.Vault.Stopping.{Stops}

-- A conversation that is forgotten, with its chunks, from the vault `v`: what `u` has.
pub record IsForgotten (id : RecordId) (chunks : List RecordId) (v u : Vault) : Type 0 where
  pub queue :
      (j : RecordId)
      → find j u.packer.queue ≡ (if contains chunks j then none else find j v.packer.queue)
  pub catalog :
      (j : RecordId)
      → lookup u.manifest j ≡ (if contains chunks j then err not_found else lookup v.manifest j)
  pub bodies :
      (j : RecordId)
      → Maps.lookup u.bodies j ≡ (if contains chunks j then none else Maps.lookup v.bodies j)
  pub vectors :
      (j : RecordId) → vector_of u.index j ≡ (if id == j then none else vector_of v.index j)
  pub metas :
      (j : RecordId) → Maps.lookup u.metas j ≡ (if id == j then none else Maps.lookup v.metas j)
  pub head : find_head id u.heads ≡ none

-- The vault but for its heads.
record SameBut (v u : Vault) : Type 0 where
  packer : u.packer ≡ v.packer
  manifest : u.manifest ≡ v.manifest
  bodies : u.bodies ≡ v.bodies
  metas : u.metas ≡ v.metas

SameBut-join : (v u w : Vault) → SameBut v u → SameBut u w → SameBut v w
SameBut-join v u w a b = record {
  packer = b.packer ∙ a.packer;
  manifest = b.manifest ∙ a.manifest;
  bodies = b.bodies ∙ a.bodies;
  metas = b.metas ∙ a.metas;
}

module _ (codec : Codec) (format : Format) (sealer : Sealer) where
  -- The steps behind the chunks, where all of them succeed.
  drop_rest : Surroundings → RecordId → Session → Vault → Outcome
  drop_rest at id s v = and_then (tell_parent codec at id s v) (λ v2.
      and_then (remove_vector sealer at id v2)
        (λ v3. drop_head at id s.version (forget_ranking_meta id v3)))

-- Whether a flush holds a record, by the queue of the vault at the time of the call.
abbrev pub is_claimed : Surroundings → Vault → RecordId → Bool
is_claimed at v id = held (respected v.packer.policy) at.now (find id v.packer.queue)

module _ (codec : Codec) (format : Format) (sealer : Sealer) (at : Surroundings) (id : RecordId)
    (s : Session) (v : Vault) where
  -- How a forget ends: everything is gone, or one of these stopped it.
  abbrev pub Ends : Vault × Result Fault (Unit {0}) → Type 0
  Ends (u, ok a) = IsForgotten id (chunk_ids s.chunks) v u
  Ends (u, err e) = Stops codec format sealer at id s v e
