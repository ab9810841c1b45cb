-- ===== src/Transcript/Chunk.antt =====
-- record/chunk.go: a chunk of a transcript, and its validation.
use sennit.Prelude.{ℕ, String, not, ◌==◌, List, length, Result, ◌>>◌, refuse, str_eq}
use sennit.Record.{RecordId, Kind, kind_chunk, is_zero_id}
use sennit.Transcript.{
  Text, Message, Fault, missing_id, wrong_kind, wrong_schema, missing_version, no_session,
  no_messages, message_schema, validate_messages,
}

-- `type Chunk struct`
pub record Chunk : Type 0 where
  pub id : RecordId
  pub kind : Kind
  pub schema : String
  pub schema_version : ℕ
  pub session : RecordId
  pub seq : ℕ
  pub messages : List Message

-- `func (c *Chunk) Validate() error`
unfoldable pub validate_chunk : Text → Chunk → Result Fault (Unit {0})
unfolding validate_messages
validate_chunk text c = do
  refuse (is_zero_id c.id) missing_id
  refuse (not (str_eq c.kind kind_chunk)) wrong_kind
  refuse (not (str_eq c.schema message_schema)) wrong_schema
  refuse (c.schema_version == 0) missing_version
  refuse (is_zero_id c.session) no_session
  refuse (length c.messages == 0) no_messages
  validate_messages text c.messages
