-- ===== src/Index/Persist/RoundTrip.antt =====
-- What is encoded is decoded.
use sennit.Prelude.{
  ℕ, ◌*◌, ◌^◌, ◌<◌, ◌≡◌, refl, ◌∙◌, ap, sym, List, [], ◌∷◌, ◌++◌, ok, length, All, arith,
  length-append, take-append, drop-append,
}
use sennit.Bytes.{le_bytes, length-le_bytes, le_value-le_bytes, length-be_bytes, be_value-be_bytes}
use sennit.Record.{id_bytes}
use sennit.Index.Persist.{
  Entry, le_words, entry_body, read_words, decode_vector, decode_entry, IsEntry,
}

length-le_words : (vs : List ℕ) → length (le_words vs) ≡ 4 * length vs
unfolding le_words
length-le_words [] = refl
length-le_words (v ∷ vs) =
    omega
      (arith, length-append (le_bytes 4 v) (le_words vs), length-le_bytes 4 v, length-le_words vs)

read_words-le_words :
    (vs : List ℕ) → All (λ v. v < 2 ^ 32) vs → read_words (length vs) (le_words vs) ≡ vs
unfolding read_words le_words
read_words-le_words [] h = refl
read_words-le_words (v ∷ vs) h =
    rw
      (
        take-append 4 (le_bytes 4 v) (le_words vs) (length-le_bytes 4 v),
        drop-append 4 (le_bytes 4 v) (le_words vs) (length-le_bytes 4 v),
        le_value-le_bytes 4 v (omega (arith, h.0)),
        read_words-le_words vs h.1,
      )
      refl

abbrev behind_model : Entry → List ℕ
behind_model e = le_bytes 2 e.dim ++ (id_bytes e.id ++ le_words e.vector)

decode_vector-behind_model : (e : Entry) → IsEntry e → decode_vector e.model (behind_model e) ≡ ok e
unfolding decode_vector
decode_vector-behind_model e h =
    rw
      (
        take-append 2 (le_bytes 2 e.dim) (id_bytes e.id ++ le_words e.vector)
            (length-le_bytes 2 e.dim),
        drop-append 2 (le_bytes 2 e.dim) (id_bytes e.id ++ le_words e.vector)
            (length-le_bytes 2 e.dim),
        take-append 16 (id_bytes e.id) (le_words e.vector) (length-be_bytes 16 e.id),
        drop-append 16 (id_bytes e.id) (le_words e.vector) (length-be_bytes 16 e.id),
        le_value-le_bytes 2 e.dim (omega (arith, h.dim)),
        be_value-be_bytes 16 e.id h.id,
      )
      (let whole : length (le_words e.vector) ≡ 4 * e.dim =
          omega (arith, length-le_words e.vector, h.width) in
        let words : read_words e.dim (le_words e.vector) ≡ e.vector =
          ap (λ n. read_words n (le_words e.vector)) (sym h.width)
          ∙ read_words-le_words e.vector h.values in
        rw (words) (ground (arith, whole)))

-- The bytes of an entry whose parts fit their widths, as they were before sealing, decode to it: the
-- two lengths, the model's name, the identifier and every bit of the vector.
pub decode_entry-entry_body : (e : Entry) → IsEntry e → decode_entry (entry_body e) ≡ ok e
unfolding decode_entry entry_body
decode_entry-entry_body e h =
    rw
      (
        take-append 2 (le_bytes 2 (length e.model)) (e.model ++ behind_model e)
            (length-le_bytes 2 (length e.model)),
        drop-append 2 (le_bytes 2 (length e.model)) (e.model ++ behind_model e)
            (length-le_bytes 2 (length e.model)),
        le_value-le_bytes 2 (length e.model) (omega (arith, h.model)),
        take-append (length e.model) e.model (behind_model e) refl,
        drop-append (length e.model) e.model (behind_model e) refl,
        decode_vector-behind_model e h,
      )
      (ground (
        arith,
        length-append (le_bytes 2 (length e.model)) (e.model ++ behind_model e),
        length-le_bytes 2 (length e.model),
        length-append e.model (behind_model e),
        length-append (le_bytes 2 e.dim) (id_bytes e.id ++ le_words e.vector),
        length-le_bytes 2 e.dim,
        length-append (id_bytes e.id) (le_words e.vector),
        length-be_bytes 16 e.id,
      ))
