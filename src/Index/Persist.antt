-- ===== src/Index/Persist.antt =====
-- index/persist.go: the codec of the entries that the index is persisted as.
pub mod RoundTrip
use sennit.Prelude.{
  ℕ, zero, suc, ◌+◌, ◌*◌, ◌^◌, ◌<◌, ◌≡◌, Bool, not, ◌||◌, Option, none, some, List, [], ◌∷◌, ◌++◌,
  Result, ok, err, length, take, drop, ltb, ◌==◌, if◌then◌else◌, All,
}
use sennit.Bytes.{le_bytes, le_value}
use sennit.Record.{RecordId, IsRecordId, id_size, id_bytes, id_from_bytes}

-- `type Entry struct`: the model's name is its bytes, and a `float32` is its bits.
pub record Entry : Type 0 where
  pub id : RecordId
  pub model : List ℕ
  pub dim : ℕ
  pub vector : List ℕ

-- `func (e Entry) Removed() bool`
abbrev pub removed : Entry → Bool
removed e = e.dim == 0

-- `func Removal(id record.ID) Entry`
abbrev pub removal : RecordId → Entry
removal id = record { id = id; model = []; dim = 0; vector = [] }

-- `type Sealer interface`, with the nonce that sealing draws; `unseal` is `Open`. What is sealed opens, and is not empty.
pub record Sealer : Type 0 where
  pub seal : List ℕ → List ℕ → Option (List ℕ)
  pub unseal : List ℕ → Option (List ℕ)
  pub unseal-seal :
      (nonce plaintext sealed : List ℕ)
      → seal nonce plaintext ≡ some sealed
      → unseal sealed ≡ some plaintext
  pub seal_nonempty :
      (nonce plaintext sealed : List ℕ) → seal nonce plaintext ≡ some sealed → 0 < length sealed

-- `corrupt` is `ErrCorruptIndex`.
pub data Fault : Type 0 where
  dimension_mismatch seal_failed corrupt write_failed : Fault

-- `math.Float32bits` of each value, four bytes each.
unfoldable pub le_words : List ℕ → List ℕ
le_words [] = []
le_words (v ∷ vs) = le_bytes 4 v ++ le_words vs

-- The bytes that `encodeEntry` seals. `uint16` keeps the low two bytes of a length.
unfoldable pub entry_body : Entry → List ℕ
unfolding le_words
entry_body e =
    le_bytes 2 (length e.model)
    ++ (e.model ++ (le_bytes 2 e.dim ++ (id_bytes e.id ++ le_words e.vector)))

abbrev pub seal_line : Option (List ℕ) → Result Fault (List ℕ)
seal_line none = err seal_failed
seal_line (some sealed) = ok (le_bytes 4 (length sealed) ++ sealed)

-- `func encodeEntry(sealer Sealer, entry Entry) ([]byte, error)`
unfoldable pub encode_entry : Sealer → List ℕ → Entry → Result Fault (List ℕ)
unfolding entry_body
encode_entry s nonce e =
    if not (length e.vector == e.dim)
    then err dimension_mismatch
    else seal_line (s.seal nonce (entry_body e))

-- The loop of `decodeEntry` over the vector.
unfoldable pub read_words : ℕ → List ℕ → List ℕ
read_words zero b = []
read_words (suc n) b = le_value (take 4 b) ∷ read_words n (drop 4 b)

-- The part of `decodeEntry` behind the model's name; `b` begins at the dimension.
unfoldable pub decode_vector : List ℕ → List ℕ → Result Fault Entry
unfolding read_words
decode_vector model b =
    let dim = le_value (take 2 b) in
    let values = drop id_size (drop 2 b) in
    if not (length values == 4 * dim)
    then err corrupt
    else ok (record {
      id = id_from_bytes (take id_size (drop 2 b));
      model = model;
      dim = dim;
      vector = read_words dim values;
    })

-- `func decodeEntry(body []byte) (Entry, error)`
unfoldable pub decode_entry : List ℕ → Result Fault Entry
unfolding decode_vector
decode_entry body =
    let name_len = le_value (take 2 body) in
    if ltb (length body) 2 || ltb (length body) (2 + name_len + 2 + id_size)
    then err corrupt
    else decode_vector (take name_len (drop 2 body)) (drop name_len (drop 2 body))

-- An entry whose parts fit the widths that the format gives them.
pub record IsEntry (e : Entry) : Type 0 where
  pub id : IsRecordId e.id
  pub model : length e.model < 2 ^ 16
  pub dim : e.dim < 2 ^ 16
  pub width : length e.vector ≡ e.dim
  pub values : All (λ v. v < 2 ^ 32) e.vector
