-- ===== src/Record.antt =====
-- record/id.go and record/kind.go: the identity and the class of a record.
use sennit.Prelude.{ℕ, ◌^◌, ◌<◌, ◌==◌, Bool, String, List}
use sennit.Bytes.{be_bytes, be_value}

-- `type ID [IDSize]byte`: the number whose big-endian bytes the array holds. Go's `==` on arrays is
-- equality of these numbers, and the order of `String()`, which writes the array in hexadecimal, is
-- their order.
abbrev pub id_size : ℕ
id_size = 16

abbrev pub RecordId : Type 0
RecordId = ℕ

abbrev pub IsRecordId : RecordId → Type 0
IsRecordId id = id < 256 ^ 16

-- `id[:]`
abbrev pub id_bytes : RecordId → List ℕ
id_bytes id = be_bytes id_size id

-- `copy(id[:], b)` for a slice of `id_size` bytes.
abbrev pub id_from_bytes : List ℕ → RecordId
id_from_bytes b = be_value 0 b

-- `func (id ID) IsZero() bool`
abbrev pub is_zero_id : RecordId → Bool
is_zero_id id = id == 0

-- `type Kind string`
abbrev pub Kind : Type 0
Kind = String

abbrev pub kind_memory : Kind
kind_memory = "memory"

abbrev pub kind_session : Kind
kind_session = "session"

abbrev pub kind_chunk : Kind
kind_chunk = "chunk"
