-- ===== src/Transcript.antt =====
-- record/message.go, record/chunk.go, record/session.go and record/span.go: the messages of a session,
-- their chunks, and the head that names them.
pub mod Split
pub mod Span
pub mod Session
pub mod Chunk
pub mod Examples
use sennit.Prelude.{
  ℕ, zero, suc, ◌+◌, String, Bool, true, false, not, ◌&&◌, ◌||◌, Option, none, some, List, [], ◌∷◌,
  ◌++◌, length, take, drop, Result, ok, err, ◌>>=◌, ◌>>◌, refuse, ltb, ◌==◌, str_eq, if◌then◌else◌,
}
use sennit.Prelude.Keys.{text_key, contains}
use sennit.Record.{RecordId, Kind, kind_chunk, is_zero_id}

-- The parts of `strings` and of the language that the checks use: `strings.TrimSpace`, and the number
-- of bytes of a text.
pub record Text : Type 0 where
  pub trim : String → String
  pub bytes : String → ℕ

mutual
  -- `type Part struct`: its type, its correlation, the name of a call, the parts of a result, and the
  -- fields that are only stored.
  pub data Part : Type 0 where
    part : String → String → String → Parts → List ℕ → Part

  pub data Parts : Type 0 where
    no_parts : Parts
    more_parts : Part → Parts → Parts

-- `type Message struct`, with `Meta.Model`, and what is only stored as its bytes.
pub record Message : Type 0 where
  pub id : String
  pub role : String
  pub parts : Parts
  pub model : String
  pub stored : List ℕ

abbrev pub part_tool_call : String
part_tool_call = "toolCall"

abbrev pub part_tool_result : String
part_tool_result = "toolResult"

-- The ways in which a transcript is invalid; all wrap the source's `ErrInvalid`.
pub data Fault : Type 0 where
  missing_id wrong_kind wrong_schema missing_version no_session no_messages : Fault
  no_message_id long_message_id unknown_role no_message_parts many_parts no_part_type no_call_id :
      Fault
  already_there unmeasured : Fault
  missing_revision unknown_kind no_title long_title long_summary many_tags empty_tag long_tag :
      Fault
  no_parent no_chunk_id misplaced_chunk : Fault

-- `MessageSchema` and `SchemaVersion`
abbrev pub message_schema : String
message_schema = "sennit.session/1"

abbrev pub schema_version : ℕ
schema_version = 1

-- `func (r Role) Valid() bool`
unfoldable pub is_role : String → Bool
is_role r = contains ("user" ∷ "assistant" ∷ "system" ∷ "tool" ∷ []) r

unfoldable pub count_parts : Parts → ℕ
count_parts no_parts = 0
count_parts (more_parts p ps) = suc (count_parts ps)

module _ (text : Text) where
  abbrev pub is_blank : String → Bool
  is_blank s = str_eq (text.trim s) ""

  unfoldable mutual
    -- `func (p *Part) validate(messageID string) error`
    pub validate_part : Part → Result Fault (Unit {0})
    validate_part (part kind call name content stored) = do
      refuse (is_blank kind) no_part_type
      refuse ((str_eq kind part_tool_call || str_eq kind part_tool_result) && is_blank call)
          no_call_id
      validate_parts content

    pub validate_parts : Parts → Result Fault (Unit {0})
    validate_parts no_parts = ok tt
    validate_parts (more_parts p ps) = validate_part p >> validate_parts ps

  -- `func (m *Message) Validate() error`
  unfoldable pub validate_message : Message → Result Fault (Unit {0})
  unfolding is_role count_parts validate_parts
  validate_message m = do
    refuse (is_blank m.id) no_message_id
    refuse (ltb 256 (text.bytes m.id)) long_message_id
    refuse (not (is_role m.role)) unknown_role
    refuse (count_parts m.parts == 0) no_message_parts
    refuse (ltb 1024 (count_parts m.parts)) many_parts
    validate_parts m.parts

  unfoldable pub validate_messages : List Message → Result Fault (Unit {0})
  unfolding validate_message
  validate_messages [] = ok tt
  validate_messages (m ∷ ms) = validate_message m >> validate_messages ms
