-- ===== src/Seal/Frame/Examples.antt =====
-- Concrete frames, and the theorems at concrete inputs.
use sennit.Prelude.{ℕ, ◌≡◌, refl, List, [], ◌∷◌, ◌++◌, arith, ok, err, Option, some}
use sennit.Bytes.{be_bytes}
use sennit.Record.{kind_memory}
use sennit.Seal.Uvarint.{append_uvarint, uvarint}
use sennit.Seal.Frame.{
  Frame, Fault, unknown_kind, bad_magic, unreadable_length, kind_code, kind_from_code, frame_record,
  read_body, cut_body, unframe, frames,
}
use sennit.Seal.Frame.Walk.{frames-pack, frames_total}

abbrev sealed_body : List ℕ
sealed_body = 7 ∷ 8 ∷ 9 ∷ []

abbrev framed : List ℕ
framed =
    24 ∷ 77 ∷ 110 ∷ 1 ∷ 1 ∷ 16 ∷ 0 ∷ 0 ∷ 0 ∷ 0 ∷ 0 ∷ 0 ∷ 0 ∷ 0 ∷ 0 ∷ 0 ∷ 0 ∷ 0 ∷ 0 ∷ 0 ∷ 1 ∷ 2 ∷ 7
    ∷ 8 ∷ 9 ∷ []

frame_memory : frame_record kind_memory 258 sealed_body ≡ ok framed
unfolding frame_record kind_code append_uvarint be_bytes
frame_memory = refl

frame_unknown : frame_record "skill" 258 sealed_body ≡ err unknown_kind
unfolding frame_record kind_code
frame_unknown = refl

unframe_empty : unframe [] ≡ err unreadable_length
unfolding unframe uvarint
unframe_empty = refl

damaged : frames (5 ∷ 1 ∷ 2 ∷ 3 ∷ 4 ∷ 5 ∷ []) ≡ some ([], some bad_magic)
unfolding frames unframe uvarint cut_body read_body kind_from_code
damaged = refl

abbrev item : Frame
item = record { kind = kind_memory; id = 258; sealed = sealed_body }

frames-pack_example :
    frames (framed ++ 5 ∷ 1 ∷ 2 ∷ 3 ∷ 4 ∷ 5 ∷ []) ≡ some (item ∷ [], some bad_magic)
frames-pack_example =
    frames-pack (item ∷ []) framed (5 ∷ 1 ∷ 2 ∷ 3 ∷ 4 ∷ 5 ∷ []) [] (some bad_magic) (omega arith)
      (unfold frame_record kind_code append_uvarint be_bytes in refl) damaged

frames_total_example :
    (found : List Frame) × (fault : Option Fault) × (frames (5 ∷ []) ≡ some (found, fault))
frames_total_example = frames_total (5 ∷ [])
