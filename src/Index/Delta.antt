-- ===== src/Index/Delta.antt =====
-- index/persist.go and index/tail.go: the files of framed records, and where their whole records end.
pub mod Reading
pub mod Whole
use sennit.Prelude.{
  ℕ, zero, suc, ◌+◌, Bool, true, false, not, ◌||◌, Option, none, some, List, [], ◌∷◌, ◌++◌, Result,
  ok, err, length, take, drop, ltb, ◌==◌, if◌then◌else◌,
}
use sennit.Bytes.{le_value}
use sennit.Index.Persist.{Entry, Sealer, Fault, corrupt, decode_entry}

-- The framing that both loops read by: a length of four bytes, not 0, and as many bytes; and what
-- follows them.
unfoldable pub next_record : List ℕ → Option (List ℕ × List ℕ)
next_record raw =
    let size = le_value (take 4 raw) in
    if ltb (length raw) 4
    then none
    else if size == 0 || ltb (length (drop 4 raw)) size
    then none
    else some (take size (drop 4 raw), drop size (drop 4 raw))

module _ (s : Sealer) where
  abbrev pub decode_opened : Option (List ℕ) → Result Fault Entry
  decode_opened none = err corrupt
  decode_opened (some body) = decode_entry body

  -- `sealer.Open`, then `decodeEntry`.
  unfoldable pub open_entry : List ℕ → Result Fault Entry
  unfolding decode_entry
  open_entry sealed = decode_opened (s.unseal sealed)

  -- The loop of `readEntries`, on fuel. Each round takes five bytes at least, so one round for each
  -- byte is enough (`Delta.Reading.read_loop_enough`).
  unfoldable pub read_loop : ℕ → List ℕ → List Entry
  unfolding next_record open_entry
  read_loop zero raw = []
  read_loop (suc fuel) raw = elim (next_record raw) [
    | none ↦ []
    | some (sealed, rest) ↦ elim (open_entry sealed) [
      | err e ↦ []
      | ok entry ↦ entry ∷ read_loop fuel rest
    ]
  ]

  -- `func readEntries(sealer Sealer, path string) ([]Entry, error)`, over what the file holds. A file
  -- that is not there has no entries.
  unfoldable pub read_entries : Option (List ℕ) → List Entry
  unfolding read_loop
  read_entries none = []
  read_entries (some raw) = read_loop (length raw) raw

  -- The loop of `wholeRecords`, on fuel: where it stops, the last record with its place, and the bytes
  -- that it stopped at.
  unfoldable pub walk : ℕ → ℕ → Option (ℕ × List ℕ) → List ℕ → ℕ × Option (ℕ × List ℕ) × List ℕ
  unfolding next_record
  walk zero place last raw = (place, last, raw)
  walk (suc fuel) place last raw = elim (next_record raw) [
    | none ↦ (place, last, raw)
    | some (sealed, rest) ↦ walk fuel (place + (4 + length sealed)) (some (place, sealed)) rest
  ]

  -- The end of `wholeRecords`, where the framing reached the end of the file: a last record that does
  -- not open is not whole.
  unfoldable pub check_last : ℕ → Option (ℕ × List ℕ) → ℕ
  unfolding open_entry
  check_last end none = end
  check_last end (some (start, sealed)) = elim (open_entry sealed) [
    | err e ↦ start
    | ok entry ↦ end
  ]

  abbrev pub stop_at : ℕ × Option (ℕ × List ℕ) × List ℕ → ℕ
  stop_at (place, last, []) = check_last place last
  stop_at (place, last, b ∷ bs) = place

  -- `func wholeRecords(sealer Sealer, raw []byte) int`
  unfoldable pub whole_records : List ℕ → ℕ
  unfolding walk check_last
  whole_records raw = stop_at (walk (length raw) 0 none raw)
