-- ===== src/Seal/Frame.antt =====
-- seal/frame.go: the frame around a sealed record, and the walk over a packed blob.
pub mod RoundTrip
pub mod Walk
pub mod Examples
use sennit.Prelude.{
  ℕ, zero, suc, ◌+◌, ◌-◌, Bool, not, ◌&&◌, Option, none, some, List, [], ◌∷◌, ◌++◌, Result, ok, err,
  refuse, ◌>>=◌, ◌>>◌, length, take, drop, ltb, ◌==◌, if◌then◌else◌, str_eq,
}
use sennit.Record.{
  Kind, RecordId, id_size, id_bytes, id_from_bytes, kind_memory, kind_session, kind_chunk,
}
use sennit.Seal.Uvarint.{append_uvarint, uvarint}

-- What `FrameRecord` and `Unframe` return in place of a value, one for each message. All but
-- `unknown_kind` wrap the source's `ErrCorrupt`.
pub data Fault : Type 0 where
  unknown_kind unreadable_length length_past_end header_truncated bad_magic : Fault
  bad_version unknown_code id_truncated bad_id_length : Fault

pub record Frame : Type 0 where
  pub kind : Kind
  pub id : RecordId
  pub sealed : List ℕ

abbrev pub frame_version : ℕ
frame_version = 1

-- `frameIDLen`
abbrev pub frame_id_len : ℕ
frame_id_len = id_size

-- `func kindCode(kind record.Kind) (byte, error)`
unfoldable pub kind_code : Kind → Result Fault ℕ
kind_code kind =
    if str_eq kind kind_memory
    then ok 1
    else if str_eq kind kind_session
    then ok 2
    else if str_eq kind kind_chunk
    then ok 3
    else err unknown_kind

-- `func kindFromCode(code byte) (record.Kind, error)`
unfoldable pub kind_from_code : ℕ → Result Fault Kind
kind_from_code code =
    if code == 1
    then ok kind_memory
    else if code == 2
    then ok kind_session
    else if code == 3
    then ok kind_chunk
    else err unknown_code

-- `func FrameRecord`: the length of the body, then the body.
unfoldable pub frame_record : Kind → RecordId → List ℕ → Result Fault (List ℕ)
frame_record kind id sealed = do
  code ← kind_code kind
  let header : List ℕ = b'M' ∷ b'n' ∷ frame_version ∷ code ∷ frame_id_len ∷ []
  let body = header ++ (id_bytes id ++ sealed)
  ok (append_uvarint (length body) ++ body)

-- The part of `Unframe` that reads a body of five bytes or more: the header's five, and `content`.
abbrev pub open_body : ℕ → ℕ → ℕ → ℕ → ℕ → List ℕ → Result Fault Frame
open_body m0 m1 version code id_len content = do
  refuse (not (m0 == b'M' && m1 == b'n')) bad_magic
  refuse (not (version == frame_version)) bad_version
  kind ← kind_from_code code
  refuse (ltb (length content) id_len) id_truncated
  refuse (not (id_len == frame_id_len)) bad_id_length
  ok (record {
    kind = kind;
    id = id_from_bytes (take id_len content);
    sealed = drop id_len content;
  })

-- `len(body) < 5` is the second clause.
unfoldable pub read_body : List ℕ → Result Fault Frame
read_body (m0 ∷ m1 ∷ version ∷ code ∷ id_len ∷ content) =
    open_body m0 m1 version code id_len content
read_body short = err header_truncated

-- The part of `Unframe` behind the length `n`, over the bytes that follow it.
unfoldable pub cut_body : ℕ → List ℕ → Result Fault (Frame × List ℕ)
cut_body n b = do
  refuse (ltb (length b) n) length_past_end
  frame ← read_body (take n b)
  ok (frame, drop n b)

-- `func Unframe(b []byte) (Frame, []byte, error)`
unfoldable pub unframe : List ℕ → Result Fault (Frame × List ℕ)
unframe b = elim (uvarint b) [ none ↦ err unreadable_length | some (n, rest) ↦ cut_body n rest ]

-- The loop of `Frames`, on fuel; `none` means that the fuel ran out, and Go's pair is a list and the
-- error that stopped the walk, if one did.
unfoldable pub frames_loop : ℕ → List Frame → List ℕ → Option (List Frame × Option Fault)
frames_loop fuel out [] = some (out, none)
frames_loop zero out (b ∷ bs) = none
frames_loop (suc fuel) out (b ∷ bs) = elim (unframe (b ∷ bs)) [
  | err e ↦ some (out, some e)
  | ok (frame, rest) ↦ frames_loop fuel (out ++ frame ∷ []) rest
]

-- `func Frames(blob []byte) ([]Frame, error)`. Each round takes a byte at least, so one round for each
-- byte is enough (`frames_total`).
unfoldable pub frames : List ℕ → Option (List Frame × Option Fault)
unfolding frames_loop
frames blob = frames_loop (length blob) [] blob

-- `func FrameOverhead(sealedLen int) int`
unfoldable pub frame_overhead : ℕ → ℕ
frame_overhead sealed_len =
    let body = 5 + frame_id_len + sealed_len in length (append_uvarint body) + body - sealed_len
