-- ===== src/Vault/Forgetting.antt =====
-- vault/session.go: taking a conversation out of the vault, and taking back a chunk that no head names.
use sennit.Prelude.{ℕ, suc, Option, none, some, List, [], ◌∷◌, Result, ok, err}
use sennit.Prelude.Keys.{number_key}
use sennit.Prelude.Maps.{delete}
use sennit.Record.{RecordId, Kind}
use sennit.Packer.Flush.{Packer, withdraw, withdraw_all}
use sennit.Manifest.Lines.{Format}
use sennit.Manifest.Lines as Lines
use sennit.Manifest.Service as Manifest
use sennit.Manifest.Service.{Manifest, World}
use sennit.Manifest.Log.{Disk}
use sennit.Index as Index
use sennit.Index.{Index}
use sennit.Index.Persist as Persist
use sennit.Index.Persist.{Sealer}
use sennit.Index.Files as Files
use sennit.Recall.{Meta}
use sennit.Sessions as Sessions
use sennit.Sessions.{Table, forget_session_head_at}
use sennit.Transcript.Session.{Session, ChunkRef}
use sennit.Vault.Heads as Heads
use sennit.Vault.Heads.{Codec, Round, session, disown_child}

-- The parts of `type Vault struct` that these operations change. `bodies` is the table `bodies`, and
-- `metas` what the ranking tables have for a record.
pub record Vault : Type 0 where
  pub packer : Packer
  pub manifest : Manifest
  pub bodies : List (RecordId × (Kind × List ℕ))
  pub heads : Table
  pub vectors : Files.Store
  pub index : Index
  pub metas : List (RecordId × Meta)

-- `claimed` is `local.ErrClaimed`.
pub data Fault : Type 0 where
  claimed : Fault
  head_failed : Heads.Fault → Fault
  catalog_failed : Lines.Fault → Fault
  vectors_failed : Persist.Fault → Fault
  head_moved : Sessions.Fault → Fault

-- What a call meets: the time, the disks of the catalog, one for each removal, and of the index, the
-- other writers of the parent's head, and what they do to the heads before the last step.
pub record Surroundings : Type 0 where
  pub now : ℕ
  pub worlds : ℕ → World
  pub rounds : ℕ → Round
  pub disks : ℕ → Disk
  pub nonces : ℕ → List ℕ
  pub meanwhile : Table → Table

abbrev pub Outcome : Type 0
Outcome = Vault × Result Fault (Unit {0})

-- `if err := step; err != nil { return err }`
abbrev pub and_then : Outcome → (Vault → Outcome) → Outcome
and_then (v, ok a) k = k v
and_then (v, err e) k = (v, err e)

abbrev pub chunk_ids : List ChunkRef → List RecordId
chunk_ids [] = []
chunk_ids (c ∷ cs) = c.id ∷ chunk_ids cs

-- `v.local.ForgetBody(id)`
abbrev pub forget_body : RecordId → Vault → Vault
forget_body id v = record v { bodies = delete v.bodies id }

-- `v.local.ForgetRankingMeta(id)`
abbrev pub forget_ranking_meta : RecordId → Vault → Vault
forget_ranking_meta id v = record v { metas = delete v.metas id }

abbrev pub removed_entry :
    Vault → Manifest × Result Manifest.Refusal (Unit {0}) → Vault × Result Fault (Unit {0})
removed_entry v (m, ok a) = (record v { manifest = m }, ok tt)
removed_entry v (m, err Manifest.not_found) = (record v { manifest = m }, ok tt)
removed_entry v (m, err (Manifest.log_failed x)) =
    (record v { manifest = m }, err (catalog_failed x))

abbrev pub removed_vector :
    RecordId → Vault → Files.Store × Result Persist.Fault (Unit {0}) → Outcome
removed_vector id v (s, err e) = (record v { vectors = s }, err (vectors_failed e))
removed_vector id v (s, ok a) =
    (record v { vectors = s; index = (Index.remove id v.index).0 }, ok tt)

abbrev pub told_parent : Vault → Table × Result Heads.Fault (Unit {0}) → Outcome
told_parent v (t, ok a) = (record v { heads = t }, ok tt)
told_parent v (t, err e) = (record v { heads = t }, err (head_failed e))

abbrev pub dropped_head : Vault → Table × Result Sessions.Fault (Unit {0}) → Outcome
dropped_head v (t, ok a) = (record v { heads = t }, ok tt)
dropped_head v (t, err e) = (record v { heads = t }, err (head_moved e))

module _ (format : Format) where
  -- `v.manifest.Remove(id)`, where a record that is not there is no fault.
  unfoldable pub remove_entry : World → ℕ → RecordId → Vault → Outcome
  remove_entry w now id v = removed_entry v (Manifest.remove format w now id v.manifest)

  -- The catalog and the device: the end of `discardChunk`, and a turn of the loop of `ForgetSession`.
  unfoldable pub drop_chunk : World → ℕ → RecordId → Vault → Outcome
  unfolding remove_entry
  drop_chunk w now id v = and_then (remove_entry w now id v) (λ u. (forget_body id u, ok tt))

  -- `func (v *Vault) discardChunk(id record.ID) error`
  unfoldable pub discard_chunk : World → ℕ → RecordId → Vault → Outcome
  unfolding withdraw drop_chunk
  discard_chunk w now id v =
      let (p, answer) = withdraw v.packer id now in
      let later = drop_chunk w now id (record v { packer = p }) in
      elim answer [ ok was ↦ later | err e ↦ (record v { packer = p }, err claimed) ]

  -- The loop of `abandon`: every chunk is tried, and the faults are collected.
  unfoldable pub abandon : (ℕ → World) → ℕ → List ChunkRef → Vault → Vault × List Fault
  unfolding discard_chunk
  abandon worlds now [] v = (v, [])
  abandon worlds now (c ∷ cs) v =
      let (u, answer) = discard_chunk (worlds 0) now c.id v in
      let (w, faults) = abandon (λ n. worlds (suc n)) now cs u in
      (w, elim answer [ ok a ↦ faults | err e ↦ e ∷ faults ])

  -- The loop of `ForgetSession` over the chunks.
  unfoldable pub drop_chunks : (ℕ → World) → ℕ → List RecordId → Vault → Outcome
  unfolding drop_chunk
  drop_chunks worlds now [] v = (v, ok tt)
  drop_chunks worlds now (i ∷ is) v =
      and_then (drop_chunk (worlds 0) now i v) (λ u. drop_chunks (λ n. worlds (suc n)) now is u)

-- `func (v *Vault) removeVector(id record.ID) error` of vault/vectors.go
unfoldable pub remove_vector : Sealer → Surroundings → RecordId → Vault → Outcome
unfolding Files.remove Index.remove
remove_vector sealer at id v =
    removed_vector id v (Files.remove sealer at.disks at.nonces (id ∷ []) v.vectors)

-- The head of the parent, where there is one, stops naming the conversation.
unfoldable pub tell : Codec → Surroundings → RecordId → Option RecordId → Vault → Outcome
unfolding disown_child
tell codec at id none v = (v, ok tt)
tell codec at id (some parent) v = told_parent v (disown_child codec parent id at.rounds v.heads)

unfoldable pub tell_parent : Codec → Surroundings → RecordId → Session → Vault → Outcome
unfolding tell
tell_parent codec at id s v = tell codec at id s.lineage.parent_session v

-- The last step: the head, at the version that was read.
unfoldable pub drop_head : Surroundings → RecordId → ℕ → Vault → Outcome
unfolding forget_session_head_at
drop_head at id version v =
    dropped_head v (forget_session_head_at id version (at.meanwhile v.heads))

module _ (codec : Codec) (format : Format) (sealer : Sealer) where
  -- The part of `ForgetSession` behind the queue.
  unfoldable pub drop_session : Surroundings → RecordId → Session → Vault → Outcome
  unfolding drop_chunks tell_parent remove_vector drop_head
  drop_session at id s v =
      and_then (drop_chunks format at.worlds at.now (chunk_ids s.chunks) v) (λ v1.
        and_then (tell_parent codec at id s v1) (λ v2.
          and_then (remove_vector sealer at id v2)
            (λ v3. drop_head at id s.version (forget_ranking_meta id v3))))

  -- `func (v *Vault) ForgetSession(id record.ID) error`
  unfoldable pub forget_session : Surroundings → RecordId → Vault → Outcome
  unfolding session withdraw_all drop_session
  forget_session at id v = elim (session codec id v.heads) [
    | err e ↦ (v, err (head_failed e))
    | ok s ↦
        let (p, answer) = withdraw_all v.packer (chunk_ids s.chunks) at.now in
        let later = drop_session at id s (record v { packer = p }) in
        elim answer [ err e ↦ (record v { packer = p }, err claimed) | ok gone ↦ later ]
  ]
