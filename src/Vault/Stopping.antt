-- ===== src/Vault/Stopping.antt =====
-- What may stop the steps of forgetting a conversation, and that nothing else does.
use sennit.Prelude.{
  ℕ, suc, ◌≡◌, refl, ◌∙◌, sym, ap, true, false, not, ◌&&◌, Option, none, some, List, [], ◌∷◌,
  Result, ok, err, if◌then◌else◌, arith,
}
use sennit.Prelude.Keys.{number_key, contains}
use sennit.Record.{RecordId}
use sennit.Manifest.Lines.{Format}
use sennit.Manifest.Service as Manifest
use sennit.Manifest.Service.{Manifest, World, lookup, not_found}
use sennit.Index.Persist.{Sealer}
use sennit.Index.Persist as Persist
use sennit.Index.Files as Files
use sennit.Sessions as Sessions
use sennit.Sessions.{Table, find_head, is_held, is_at, forget_session_head_at}
use sennit.Sessions.Versions.{forget_session_head_at_lem}
use sennit.Transcript.Session.{Session}
use sennit.Vault.Heads as Heads
use sennit.Vault.Heads.{Codec, Round, session, disown_child, revise_edges, take_child, disowned}
use sennit.Vault.Forgetting.{
  Fault, catalog_failed, vectors_failed, head_failed, head_moved, removed_entry, remove_entry,
  drop_chunk, Vault, claimed, Surroundings, Outcome, and_then, chunk_ids, forget_body,
  forget_ranking_meta, told_parent, removed_vector, dropped_head, drop_chunks, remove_vector, tell,
  tell_parent, drop_head, drop_session,
}

-- What the loop over the chunks ends with: a fault is the catalog's, of one of the chunks.
abbrev ChunkStops : Format → (ℕ → World) → ℕ → List RecordId → Outcome → Type 0
ChunkStops format worlds now is (u, ok a) = Unit {0}
ChunkStops format worlds now is (u, err (catalog_failed x)) =
    (j : RecordId) × (n : ℕ) × (m : Manifest) × (contains is j ≡ true)
    × ((Manifest.remove format (worlds n) now j m).1 ≡ err (Manifest.log_failed x))
ChunkStops format worlds now is (u, err claimed) = ⊥
ChunkStops format worlds now is (u, err (vectors_failed x)) = ⊥
ChunkStops format worlds now is (u, err (head_failed x)) = ⊥
ChunkStops format worlds now is (u, err (head_moved x)) = ⊥

ChunkStops-later :
    (format : Format) (worlds : ℕ → World) (now : ℕ) (i : RecordId) (is : List RecordId)
    (out : Outcome)
    → ChunkStops format (λ n. worlds (suc n)) now is out
    → ChunkStops format worlds now (i ∷ is) out
ChunkStops-later format worlds now i is (u, ok a) h = tt
ChunkStops-later format worlds now i is (u, err (catalog_failed x)) (j, n, m, c, e) =
    (j, suc n, m, ground (arith, c), e)
ChunkStops-later format worlds now i is (u, err claimed) h = h
ChunkStops-later format worlds now i is (u, err (vectors_failed x)) h = h
ChunkStops-later format worlds now i is (u, err (head_failed x)) h = h
ChunkStops-later format worlds now i is (u, err (head_moved x)) h = h

and_then-ChunkStops :
    (format : Format) (worlds : ℕ → World) (now : ℕ) (is : List RecordId) (out : Outcome)
    (k : Vault → Outcome)
    → ChunkStops format worlds now is out
    → ((u : Vault) → ChunkStops format worlds now is (k u))
    → ChunkStops format worlds now is (and_then out k)
and_then-ChunkStops format worlds now is (u, ok a) k h g = g u
and_then-ChunkStops format worlds now is (u, err e) k h g = h

drop_chunks-ChunkStops :
    (format : Format) (worlds : ℕ → World) (now : ℕ) (is : List RecordId) (v : Vault)
    → ChunkStops format worlds now is (drop_chunks format worlds now is v)
unfolding drop_chunks drop_chunk remove_entry
drop_chunks-ChunkStops format worlds now [] v = tt
drop_chunks-ChunkStops format worlds now (i ∷ is) v =
    and_then-ChunkStops format worlds now (i ∷ is) (drop_chunk format (worlds 0) now i v)
      (drop_chunks format (λ n. worlds (suc n)) now is)
      (and_then-ChunkStops format worlds now (i ∷ is) (remove_entry format (worlds 0) now i v)
        (λ u. (forget_body i u, ok tt))
        (removed (Manifest.remove format (worlds 0) now i v.manifest) refl) (λ u. tt))
      (λ u.
        ChunkStops-later format worlds now i is (drop_chunks format (λ n. worlds (suc n)) now is u)
          (drop_chunks-ChunkStops format (λ n. worlds (suc n)) now is u))
  where
    removed :
        (r : Manifest × Result Manifest.Refusal (Unit {0}))
        → (Manifest.remove format (worlds 0) now i v.manifest).1 ≡ r.1
        → ChunkStops format worlds now (i ∷ is) (removed_entry v r)
    removed (m, ok a) h = tt
    removed (m, err Manifest.not_found) h = tt
    removed (m, err (Manifest.log_failed x)) h = (i, 0, v.manifest, ground arith, h)

-- A step leaves the heads and the files of the index as they are.
abbrev Others : Vault → Outcome → Type 0
Others v out = (out.0.heads ≡ v.heads) × (out.0.vectors ≡ v.vectors)

and_then-Others :
    (v : Vault) (out : Outcome) (k : Vault → Outcome)
    → Others v out
    → ((u : Vault) → Others u (k u))
    → Others v (and_then out k)
and_then-Others v (u, ok a) k (h, w) g = ((g u).0 ∙ h, (g u).1 ∙ w)
and_then-Others v (u, err e) k h g = h

drop_chunks-Others :
    (format : Format) (worlds : ℕ → World) (now : ℕ) (is : List RecordId) (v : Vault)
    → Others v (drop_chunks format worlds now is v)
unfolding drop_chunks drop_chunk remove_entry
drop_chunks-Others format worlds now [] v = (refl, refl)
drop_chunks-Others format worlds now (i ∷ is) v =
    and_then-Others v (drop_chunk format (worlds 0) now i v)
      (drop_chunks format (λ n. worlds (suc n)) now is)
      (and_then-Others v (remove_entry format (worlds 0) now i v) (λ u. (forget_body i u, ok tt))
        (removed (Manifest.remove format (worlds 0) now i v.manifest)) (λ u. (refl, refl)))
      (λ u. drop_chunks-Others format (λ n. worlds (suc n)) now is u)
  where
    removed : (r : Manifest × Result Manifest.Refusal (Unit {0})) → Others v (removed_entry v r)
    removed (m, ok a) = (refl, refl)
    removed (m, err Manifest.not_found) = (refl, refl)
    removed (m, err (Manifest.log_failed x)) = (refl, refl)

tell-vectors :
    (codec : Codec) (at : Surroundings) (id : RecordId) (parent : Option RecordId) (v : Vault)
    → (tell codec at id parent v).0.vectors ≡ v.vectors
unfolding tell
tell-vectors codec at id none v = refl
tell-vectors codec at id (some parent) v = go (disown_child codec parent id at.rounds v.heads)
  where
    go : (r : Table × Result Heads.Fault (Unit {0})) → (told_parent v r).0.vectors ≡ v.vectors
    go (t, ok a) = refl
    go (t, err e) = refl

-- An answer that does not say that there is no head.
abbrev Found : Result Heads.Fault (Unit {0}) → Type 0
Found (ok a) = Unit {0}
Found (err Heads.no_such_session) = ⊥
Found (err Heads.malformed_head) = Unit {0}
Found (err (Heads.heads_refused Sessions.not_found)) = ⊥
Found (err (Heads.heads_refused Sessions.stale_head)) = Unit {0}

disowned-Found : (a : Result Heads.Fault (Unit {0})) → Found (disowned a)
disowned-Found (ok a) = tt
disowned-Found (err Heads.no_such_session) = tt
disowned-Found (err Heads.malformed_head) = tt
disowned-Found (err (Heads.heads_refused Sessions.not_found)) = tt
disowned-Found (err (Heads.heads_refused Sessions.stale_head)) = tt

disown_child-Found :
    (codec : Codec) (parent id : RecordId) (rounds : ℕ → Round) (t : Table)
    → Found (disown_child codec parent id rounds t).1
unfolding disown_child
disown_child-Found codec parent id rounds t =
    disowned-Found (revise_edges codec (take_child id) parent rounds t).1

module _ (codec : Codec) (format : Format) (sealer : Sealer) (at : Surroundings) (id : RecordId)
    (s : Session) (v : Vault) where
  -- What may stop forgetting. Each fault is what a call has answered: the removal of one of the chunks
  -- from the catalog, the removal from the index's files, or the change of the parent's head, which does
  -- not answer that there is none; or the head is there and at another version.
  abbrev pub Stops : Fault → Type 0
  Stops claimed = ⊥
  Stops (catalog_failed x) =
      (j : RecordId) × (n : ℕ) × (m : Manifest) × (contains (chunk_ids s.chunks) j ≡ true)
      × ((Manifest.remove format (at.worlds n) at.now j m).1 ≡ err (Manifest.log_failed x))
  Stops (vectors_failed x) = (Files.remove sealer at.disks at.nonces (id ∷ []) v.vectors).1 ≡ err x
  Stops (head_failed Heads.no_such_session) = ⊥
  Stops (head_failed (Heads.heads_refused Sessions.not_found)) = ⊥
  Stops (head_failed e) =
      (parent : RecordId) × (s.lineage.parent_session ≡ some parent)
      × ((disown_child codec parent id at.rounds v.heads).1 ≡ err e)
  Stops (head_moved Sessions.not_found) = ⊥
  Stops (head_moved Sessions.stale_head) =
      (t : Table) × (is_held (find_head id (at.meanwhile t)) ≡ true)
      × (is_at s.version (find_head id (at.meanwhile t)) ≡ false)

  abbrev pub StopsWell : Outcome → Type 0
  StopsWell (u, ok a) = Unit {0}
  StopsWell (u, err e) = Stops e

  and_then-StopsWell :
      (P : Vault → Type 0) (out : Outcome) (k : Vault → Outcome)
      → StopsWell out
      → P out.0
      → ((u : Vault) → P u → StopsWell (k u))
      → StopsWell (and_then out k)
  and_then-StopsWell P (u, ok a) k h p g = g u p
  and_then-StopsWell P (u, err e) k h p g = h

  drop_chunks-StopsWell :
      (out : Outcome) → ChunkStops format at.worlds at.now (chunk_ids s.chunks) out → StopsWell out
  drop_chunks-StopsWell (u, ok a) h = tt
  drop_chunks-StopsWell (u, err claimed) h = h
  drop_chunks-StopsWell (u, err (catalog_failed x)) h = h
  drop_chunks-StopsWell (u, err (vectors_failed x)) h = absurd h
  drop_chunks-StopsWell (u, err (head_failed x)) h = absurd h
  drop_chunks-StopsWell (u, err (head_moved x)) h = absurd h

  tell-StopsWell :
      (parent : Option RecordId) (u : Vault)
      → s.lineage.parent_session ≡ parent
      → u.heads ≡ v.heads
      → StopsWell (tell codec at id parent u)
  unfolding tell
  tell-StopsWell none u e same = tt
  tell-StopsWell (some parent) u e same =
      told (disown_child codec parent id at.rounds u.heads)
        (ap (λ t. (disown_child codec parent id at.rounds t).1) (sym same))
        (disown_child-Found codec parent id at.rounds u.heads)
    where
      told :
          (r : Table × Result Heads.Fault (Unit {0}))
          → (disown_child codec parent id at.rounds v.heads).1 ≡ r.1
          → Found r.1
          → StopsWell (told_parent u r)
      told (t, ok a) h f = tt
      told (t, err Heads.no_such_session) h f = f
      told (t, err Heads.malformed_head) h f = (parent, e, h)
      told (t, err (Heads.heads_refused Sessions.not_found)) h f = f
      told (t, err (Heads.heads_refused Sessions.stale_head)) h f = (parent, e, h)

  remove_vector-StopsWell :
      (u : Vault) → u.vectors ≡ v.vectors → StopsWell (remove_vector sealer at id u)
  unfolding remove_vector
  remove_vector-StopsWell u same =
      go (Files.remove sealer at.disks at.nonces (id ∷ []) u.vectors)
        (ap (λ t. (Files.remove sealer at.disks at.nonces (id ∷ []) t).1) (sym same))
    where
      go :
          (r : Files.Store × Result Persist.Fault (Unit {0}))
          → (Files.remove sealer at.disks at.nonces (id ∷ []) v.vectors).1 ≡ r.1
          → StopsWell (removed_vector id u r)
      go (t, ok a) h = tt
      go (t, err e) h = h

  drop_head-StopsWell : (u : Vault) → StopsWell (drop_head at id s.version u)
  unfolding drop_head
  drop_head-StopsWell u =
      go (forget_session_head_at id s.version (at.meanwhile u.heads))
        (forget_session_head_at_lem id s.version (at.meanwhile u.heads)).0
    where
      go :
          (r : Table × Result Sessions.Fault (Unit {0}))
          → r.1 ≡ (
              if is_held (find_head id (at.meanwhile u.heads))
                && not (is_at s.version (find_head id (at.meanwhile u.heads)))
              then err Sessions.stale_head
              else ok tt)
          → StopsWell (dropped_head u r)
      go (t, ok a) h = tt
      go (t, err Sessions.stale_head) h = (u.heads, ground (arith, h), ground (arith, h))
      go (t, err Sessions.not_found) h = absurd (ground (arith, h))

  pub drop_session-StopsWell :
      (w : Vault)
      → w.heads ≡ v.heads
      → w.vectors ≡ v.vectors
      → StopsWell (drop_session codec format sealer at id s w)
  unfolding drop_session tell_parent
  drop_session-StopsWell w heads vectors =
      let after : Vault → Outcome = λ u.
        and_then (remove_vector sealer at id u)
          (λ u'. drop_head at id s.version (forget_ranking_meta id u')) in
      let (kept_heads, kept_vectors) =
        drop_chunks-Others format at.worlds at.now (chunk_ids s.chunks) w in
      and_then-StopsWell (λ u. (u.heads ≡ v.heads) × (u.vectors ≡ v.vectors))
        (drop_chunks format at.worlds at.now (chunk_ids s.chunks) w)
        (λ u. and_then (tell codec at id s.lineage.parent_session u) after)
        (drop_chunks-StopsWell (drop_chunks format at.worlds at.now (chunk_ids s.chunks) w)
          (drop_chunks-ChunkStops format at.worlds at.now (chunk_ids s.chunks) w))
        (kept_heads ∙ heads, kept_vectors ∙ vectors)
        (λ u1 p1.
          and_then-StopsWell (λ u. u.vectors ≡ v.vectors)
            (tell codec at id s.lineage.parent_session u1) after
            (tell-StopsWell s.lineage.parent_session u1 refl p1.0)
            (tell-vectors codec at id s.lineage.parent_session u1 ∙ p1.1)
            (λ u2 p2.
              and_then-StopsWell (λ u. Unit {0}) (remove_vector sealer at id u2)
                (λ u. drop_head at id s.version (forget_ranking_meta id u))
                (remove_vector-StopsWell u2 p2) tt
                (λ u3 p3. drop_head-StopsWell (forget_ranking_meta id u3))))
