-- ===== src/Vault/Heads.antt =====
-- vault/session.go: reading the head of a conversation, writing it back, and changing the edges that it
-- holds while other writers move it on.
use sennit.Prelude.{
  ℕ, zero, suc, ◌-◌, Bool, true, false, Option, none, some, List, [], ◌∷◌, ◌++◌, length, Result, ok,
  err, ◌==◌, if◌then◌else◌,
}
use sennit.Prelude.Keys.{number_key, contains}
use sennit.Record.{RecordId}
use sennit.Sessions as Sessions
use sennit.Sessions.{
  SessionRow, Table, stale_head, not_found, put_session_head, get_session_head, find_head,
}
use sennit.Sessions.Listing.{project_key}
use sennit.Transcript.Session.{Session}

-- `record.MarshalSession` and `record.UnmarshalSession`: JSON.
pub record Codec : Type 0 where
  pub marshal : Session → List ℕ
  pub unmarshal : List ℕ → Option Session

-- `no_such_session` is `ErrNoSession`.
pub data Fault : Type 0 where
  no_such_session malformed_head : Fault
  heads_refused : Sessions.Fault → Fault

-- The columns that `PutSessionHead` of local/sessions.go binds.
unfoldable pub head_row : Session → List ℕ → SessionRow
unfolding project_key
head_row s head = record {
  id = s.id;
  version = s.version;
  title = s.title;
  summary = s.summary;
  kind = s.kind;
  project = project_key s.project.repo s.project.cwd;
  agent = s.agent.name;
  parent = s.lineage.parent_session;
  created = s.created;
  updated = s.updated;
  archived = s.archived;
  messages = s.counts.messages;
  chunks = length s.chunks;
  bytes = s.counts.bytes;
  head = head;
}

-- The vault's word for a refusal of `PutSessionHead`.
abbrev pub put_fault : Result Sessions.Fault (Unit {0}) → Result Fault (Unit {0})
put_fault (ok a) = ok a
put_fault (err not_found) = err no_such_session
put_fault (err stale_head) = err (heads_refused stale_head)

-- What the other writers do in one round: before the head is read, and between the read and the write.
-- `now` is the time of the write.
pub record Round : Type 0 where
  pub before : Table → Table
  pub between : Table → Table
  pub now : ℕ

-- `headRevisions`
abbrev pub head_revisions : ℕ
head_revisions = 16

abbrev pub is_stale : Result Fault (Unit {0}) → Bool
is_stale (ok a) = false
is_stale (err no_such_session) = false
is_stale (err malformed_head) = false
is_stale (err (heads_refused not_found)) = false
is_stale (err (heads_refused stale_head)) = true

module _ (codec : Codec) where
  -- `func (v *Vault) session(id record.ID) (*record.Session, error)`
  unfoldable pub read_head : RecordId → Table → Result Fault Session
  unfolding get_session_head
  read_head id t = elim (get_session_head id t) [
    | err e ↦ err (heads_refused e)
    | ok head ↦ elim (codec.unmarshal head) [ none ↦ err malformed_head | some s ↦ ok s ]
  ]

  abbrev pub named_missing : Result Fault Session → Result Fault Session
  named_missing (ok s) = ok s
  named_missing (err no_such_session) = err no_such_session
  named_missing (err malformed_head) = err malformed_head
  named_missing (err (heads_refused not_found)) = err no_such_session
  named_missing (err (heads_refused stale_head)) = err (heads_refused stale_head)

  -- `func (v *Vault) Session(id record.ID) (*record.Session, error)`
  unfoldable pub session : RecordId → Table → Result Fault Session
  unfolding read_head
  session id t = named_missing (read_head id t)

  -- `func (v *Vault) putHead(session *record.Session, from int64) error`
  unfoldable pub put_head : Session → ℕ → Table → Table × Result Fault (Unit {0})
  unfolding put_session_head head_row
  put_head s from t =
      let (u, answer) = put_session_head (head_row s (codec.marshal s)) from t in
      (u, put_fault answer)

  -- `func (v *Vault) reviseHead(session *record.Session) error`
  unfoldable pub revise_head : ℕ → Session → Table → Table × Result Fault (Unit {0})
  unfolding put_head
  revise_head now s t = put_head (record s { version = suc s.version; updated = now }) s.version t

  -- One turn of the loop of `reviseEdges`. A change is `none` where the head says it already.
  unfoldable pub revise_once :
      (Session → Option Session) → RecordId → Round → Table → Table × Result Fault (Unit {0})
  unfolding read_head revise_head
  revise_once change id r t = elim (read_head id (r.before t)) [
    | err e ↦ (r.before t, err e)
    | ok s ↦ elim (change s) [
      | none ↦ (r.before t, ok tt)
      | some s' ↦ revise_head r.now s' (r.between (r.before t))
    ]
  ]

  -- The loop of `reviseEdges`, with the turns that are left behind this one.
  unfoldable pub revise_loop :
      (Session → Option Session)
      → RecordId
      → (ℕ → Round)
      → ℕ
      → Table
      → Table × Result Fault (Unit {0})
  unfolding revise_once
  revise_loop change id rounds zero t = revise_once change id (rounds 0) t
  revise_loop change id rounds (suc left) t =
      let (u, answer) = revise_once change id (rounds 0) t in
      let again = revise_loop change id (λ n. rounds (suc n)) left u in
      if is_stale answer then again else (u, answer)

  -- `func (v *Vault) reviseEdges(id record.ID, change func(*record.Session) bool) error`
  unfoldable pub revise_edges :
      (Session → Option Session) → RecordId → (ℕ → Round) → Table → Table × Result Fault (Unit {0})
  unfolding revise_loop
  revise_edges change id rounds t = revise_loop change id rounds (head_revisions - 1) t

abbrev pub with_children : List RecordId → Session → Session
with_children children s = record s { lineage = record s.lineage { children = children } }

-- The change that `adoptChild` makes.
unfoldable pub add_child : RecordId → Session → Option Session
add_child child s =
    if contains s.lineage.children child
    then none
    else some (with_children (s.lineage.children ++ child ∷ []) s)

abbrev pub without : RecordId → List RecordId → List RecordId
without child [] = []
without child (i ∷ is) = if i == child then without child is else i ∷ without child is

-- The change that `disownChild` makes.
unfoldable pub take_child : RecordId → Session → Option Session
take_child child s =
    if length (without child s.lineage.children) == length s.lineage.children
    then none
    else some (with_children (without child s.lineage.children) s)

-- The change that `LinkMemory` makes.
unfoldable pub add_memory : RecordId → Session → Option Session
add_memory memory s =
    if contains s.memories memory
    then none
    else some (record s { memories = s.memories ++ memory ∷ [] })

abbrev pub adopted : Result Fault (Unit {0}) → Result Fault (Unit {0})
adopted (ok a) = ok a
adopted (err no_such_session) = err no_such_session
adopted (err malformed_head) = err malformed_head
adopted (err (heads_refused not_found)) = err no_such_session
adopted (err (heads_refused stale_head)) = err (heads_refused stale_head)

abbrev pub disowned : Result Fault (Unit {0}) → Result Fault (Unit {0})
disowned (ok a) = ok a
disowned (err no_such_session) = ok tt
disowned (err malformed_head) = err malformed_head
disowned (err (heads_refused not_found)) = ok tt
disowned (err (heads_refused stale_head)) = err (heads_refused stale_head)

module _ (codec : Codec) where
  -- `func (v *Vault) adoptChild(parent, child record.ID) error`
  unfoldable pub adopt_child :
      RecordId → RecordId → (ℕ → Round) → Table → Table × Result Fault (Unit {0})
  unfolding revise_edges add_child
  adopt_child parent child rounds t =
      let (u, answer) = revise_edges codec (add_child child) parent rounds t in (u, adopted answer)

  -- `func (v *Vault) disownChild(parent, child record.ID) error`
  unfoldable pub disown_child :
      RecordId → RecordId → (ℕ → Round) → Table → Table × Result Fault (Unit {0})
  unfolding revise_edges take_child
  disown_child parent child rounds t =
      let (u, answer) = revise_edges codec (take_child child) parent rounds t in
      (u, disowned answer)

  -- `func (v *Vault) LinkMemory(sessionID, memoryID record.ID) error` of vault/session_load.go
  unfoldable pub link_memory :
      RecordId → RecordId → (ℕ → Round) → Table → Table × Result Fault (Unit {0})
  unfolding revise_edges add_memory
  link_memory id memory rounds t =
      let (u, answer) = revise_edges codec (add_memory memory) id rounds t in (u, adopted answer)
