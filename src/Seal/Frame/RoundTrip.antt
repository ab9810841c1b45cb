-- ===== src/Seal/Frame/RoundTrip.antt =====
-- One frame read back.
use sennit.Prelude.{
  ℕ, ◌+◌, ◌^◌, ◌<◌, ◌≡◌, refl, List, ◌∷◌, ◌++◌, append_assoc, arith, Result, ok, err, some, eq_iff,
  length, length-append, take-append, drop-append,
}
use sennit.Bytes.{length-be_bytes, be_value-be_bytes}
use sennit.Record.{Kind, RecordId, IsRecordId, id_bytes, kind_memory, kind_session, kind_chunk}
use sennit.Seal.Uvarint.{append_uvarint, uvarint, uvarint-append_uvarint}
use sennit.Seal.Frame.{
  Fault, Frame, kind_code, kind_from_code, frame_record, read_body, cut_body, unframe,
  frame_overhead, frame_version, frame_id_len,
}

-- The lengths that Go can hold keep a body within a 64-bit length.
abbrev pub Fits : List ℕ → Type 0
Fits sealed = length sealed + 21 < 2 ^ 64

kind_from_code-kind_code :
    (kind : Kind) (code : ℕ) → kind_code kind ≡ ok code → kind_from_code code ≡ ok kind
unfolding kind_code kind_from_code
kind_from_code-kind_code kind code h =
    ground (arith, eq_iff kind kind_memory, eq_iff kind kind_session, eq_iff kind kind_chunk)

abbrev body_of : ℕ → RecordId → List ℕ → List ℕ
body_of code id sealed = b'M' ∷ b'n' ∷ frame_version ∷ code ∷ frame_id_len ∷ (id_bytes id ++ sealed)

length-body_of :
    (code : ℕ) (id : RecordId) (sealed : List ℕ)
    → length (body_of code id sealed) ≡ length sealed + 21
length-body_of code id sealed =
    omega (arith, length-append (id_bytes id) sealed, length-be_bytes 16 id)

read_body-body_of :
    (kind : Kind) (code : ℕ) (id : RecordId) (sealed : List ℕ)
    → kind_code kind ≡ ok code
    → IsRecordId id
    → read_body (body_of code id sealed) ≡ ok (record { kind = kind; id = id; sealed = sealed })
unfolding read_body
read_body-body_of kind code id sealed h hid = ground (
  arith,
  kind_from_code-kind_code kind code h,
  length-append (id_bytes id) sealed,
  length-be_bytes 16 id,
  take-append 16 (id_bytes id) sealed (length-be_bytes 16 id),
  drop-append 16 (id_bytes id) sealed (length-be_bytes 16 id),
  be_value-be_bytes 16 id hid,
)

cut_body-append :
    (body rest : List ℕ) {frame : Frame}
    → read_body body ≡ ok frame
    → cut_body (length body) (body ++ rest) ≡ ok (frame, rest)
unfolding cut_body
cut_body-append body rest h = ground (
  arith,
  length-append body rest,
  take-append (length body) body rest refl,
  drop-append (length body) body rest refl,
)

-- What `frame_record` writes for a kind that has a code.
pub frame_record_lem :
    (kind : Kind) (id : RecordId) (sealed bytes : List ℕ)
    → frame_record kind id sealed ≡ ok bytes
    → (code : ℕ) × (kind_code kind ≡ ok code)
      × (bytes ≡ append_uvarint (length (body_of code id sealed)) ++ body_of code id sealed)
unfolding frame_record
frame_record_lem kind id sealed bytes h = go (kind_code kind) refl
  where
    go :
        (r : Result Fault ℕ)
        → kind_code kind ≡ r
        → (code : ℕ) × (kind_code kind ≡ ok code)
          × (bytes ≡ append_uvarint (length (body_of code id sealed)) ++ body_of code id sealed)
    go (ok code) e = (code, e, cc)
    go (err x) e = cc

-- A record framed by `FrameRecord` is the first frame that `Unframe` reads, with its kind, its id and
-- its sealed body, and whatever bytes follow the frame are what is left. The id is one of 16 bytes
-- and the body with its header has a 64-bit length.
pub unframe-frame_record :
    (kind : Kind) (id : RecordId) (sealed bytes rest : List ℕ)
    → IsRecordId id
    → Fits sealed
    → frame_record kind id sealed ≡ ok bytes
    → unframe (bytes ++ rest) ≡ ok (record { kind = kind; id = id; sealed = sealed }, rest)
unfolding unframe
unframe-frame_record kind id sealed bytes rest hid fits h =
    let (code, hc, e) = frame_record_lem kind id sealed bytes h in
    let body = body_of code id sealed in
    let n = length body in
    let opened : uvarint (bytes ++ rest) ≡ some (n, body ++ rest) =
      rw (e, append_assoc (append_uvarint n) body rest)
        (uvarint-append_uvarint n (body ++ rest) (omega (arith, length-body_of code id sealed))) in
    rw (opened, unframe) (cut_body-append body rest (read_body-body_of kind code id sealed hc hid))

-- `FrameOverhead` is exactly what framing adds to the sealed length.
pub length-frame_record :
    (kind : Kind) (id : RecordId) (sealed bytes : List ℕ)
    → frame_record kind id sealed ≡ ok bytes
    → length bytes ≡ frame_overhead (length sealed) + length sealed
unfolding frame_overhead
length-frame_record kind id sealed bytes h =
    let (code, _, e) = frame_record_lem kind id sealed bytes h in
    let body = body_of code id sealed in
    let n : length body ≡ 5 + 16 + length sealed = omega (arith, length-body_of code id sealed) in
    rw (e, length-append (append_uvarint (length body)) body, n) (omega arith)
