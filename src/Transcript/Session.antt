-- ===== src/Transcript/Session.antt =====
-- record/session.go: the head of a conversation, everything about it but the conversation.
use sennit.Prelude.{
  ℕ, suc, ◌≡◌, String, Bool, true, false, not, ◌&&◌, Option, none, some, List, [], ◌∷◌, length,
  Result, ok, ◌>>◌, refuse, ltb, ◌==◌, str_eq,
}
use sennit.Prelude.Keys.{text_key, contains}
use sennit.Record.{RecordId, is_zero_id}
use sennit.Transcript.{
  Text, is_blank, Fault, missing_id, wrong_schema, missing_version, missing_revision, unknown_kind,
  no_title, long_title, long_summary, many_tags, empty_tag, long_tag, no_parent, no_chunk_id,
  misplaced_chunk, message_schema,
}

-- `type Project struct`
pub record Project : Type 0 where
  pub cwd : String
  pub repo : String
  pub branch : String

-- `type Agent struct`
pub record Agent : Type 0 where
  pub name : String
  pub version : String

-- `type AgentRef struct`
pub record AgentRef : Type 0 where
  pub id : String
  pub name : String
  pub role : String

-- `type Counts struct`
pub record Counts : Type 0 where
  pub messages : ℕ
  pub chunks : ℕ
  pub bytes : ℕ
  pub tokens_in : ℕ
  pub tokens_out : ℕ
  pub duration_ms : ℕ

-- `type Fork struct`
pub record Fork : Type 0 where
  pub session_id : RecordId
  pub message_id : String

-- `type Lineage struct`
pub record Lineage : Type 0 where
  pub parent_session : Option RecordId
  pub forked_from : Option Fork
  pub resumed_from : Option RecordId
  pub children : List RecordId

-- `type ChunkRef struct`
pub record ChunkRef : Type 0 where
  pub id : RecordId
  pub seq : ℕ
  pub first : String
  pub last : String
  pub n : ℕ
  pub bytes : ℕ
  pub cid : String

-- `type Embedding struct`
pub record Embedding : Type 0 where
  pub model : String
  pub dim : ℕ

-- `type Session struct`; `memories` is the one field of `Links`, and a time is its place in the order
-- of the stored texts.
pub record Session : Type 0 where
  pub id : RecordId
  pub schema : String
  pub schema_version : ℕ
  pub version : ℕ
  pub title : String
  pub summary : String
  pub tags : List String
  pub project : Project
  pub created : ℕ
  pub updated : ℕ
  pub archived : Bool
  pub agent : Agent
  pub models : List String
  pub counts : Counts
  pub kind : String
  pub agent_ref : Option AgentRef
  pub lineage : Lineage
  pub head_message : String
  pub preserved_tail : List String
  pub chunks : List ChunkRef
  pub memories : List RecordId
  pub embedding : Embedding

abbrev pub session_main : String
session_main = "main"

abbrev pub session_subagent : String
session_subagent = "subagent"

-- `func (k SessionKind) Valid() bool`
unfoldable pub is_session_kind : String → Bool
is_session_kind k = contains (session_main ∷ session_subagent ∷ "background" ∷ []) k

abbrev pub is_none {ℓ} : {A : Type ℓ} → Option A → Bool
is_none none = true
is_none (some a) = false

-- The loop of `Validate` over the chunks, from the place `i`.
unfoldable pub validate_chunks : ℕ → List ChunkRef → Result Fault (Unit {0})
validate_chunks i [] = ok tt
validate_chunks i (c ∷ cs) = do
  refuse (is_zero_id c.id) no_chunk_id
  refuse (not (c.seq == i)) misplaced_chunk
  validate_chunks (suc i) cs

-- Chunks that have ids, and stand at the places that they name.
abbrev pub InPlace : ℕ → List ChunkRef → Type 0
InPlace i [] = Unit {0}
InPlace i (c ∷ cs) = (is_zero_id c.id ≡ false) × (c.seq ≡ i) × InPlace (suc i) cs

module _ (text : Text) where
  -- The loop of `Validate` over the tags.
  unfoldable pub validate_tags : List String → Result Fault (Unit {0})
  validate_tags [] = ok tt
  validate_tags (t ∷ ts) = do
    refuse (is_blank text t) empty_tag
    refuse (ltb 64 (text.bytes t)) long_tag
    validate_tags ts

  -- `func (s *Session) Validate() error`
  unfoldable pub validate_session : Session → Result Fault (Unit {0})
  unfolding is_session_kind validate_tags validate_chunks
  validate_session s = do
    refuse (is_zero_id s.id) missing_id
    refuse (not (str_eq s.schema message_schema)) wrong_schema
    refuse (s.schema_version == 0) missing_version
    refuse (s.version == 0) missing_revision
    refuse (not (is_session_kind s.kind)) unknown_kind
    refuse (is_blank text s.title) no_title
    refuse (ltb 512 (text.bytes s.title)) long_title
    refuse (ltb 16384 (text.bytes s.summary)) long_summary
    refuse (ltb 32 (length s.tags)) many_tags
    validate_tags s.tags
    refuse (str_eq s.kind session_subagent && is_none s.lineage.parent_session) no_parent
    validate_chunks 0 s.chunks
