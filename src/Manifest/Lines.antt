-- ===== src/Manifest/Lines.antt =====
-- manifest/lines.go: the catalog's durable form, one sealed entry to a line, and its reader.
pub mod Reading
use sennit.Prelude.{
  ℕ, zero, suc, ◌+◌, ◌^◌, ◌<◌, ◌≤◌, ◌≡◌, Bool, true, false, not, ◌&&◌, Option, none, some, List, [],
  ◌∷◌, ◌++◌, Result, ok, err, ◌>>=◌, length, ltb, leb, ◌==◌, if◌then◌else◌, All, ◌≢◌,
}
use sennit.Manifest.{Entry}
use sennit.Manifest.Catalog.{Catalog, put_entry}

abbrev pub newline : ℕ
newline = 10

abbrev pub carriage_return : ℕ
carriage_return = 13

-- `const maxLineBytes = 1 << 20`
abbrev pub max_line_bytes : ℕ
max_line_bytes = 2 ^ 20

abbrev pub is_empty {ℓ} : {A : Type ℓ} → List A → Bool
is_empty [] = true
is_empty (x ∷ xs) = false

-- A byte that ends neither a line nor the text of one.
abbrev pub IsText : ℕ → Type 0
IsText b = (b ≢ newline) × (b ≢ carriage_return)

-- How an entry is turned into the text of a line, under a nonce, and back: JSON, then the sealer,
-- then base64. `Manifest.Sealed` has these from the source's calls; the reader and the log use no
-- more of them than the laws.
pub record Format : Type 1 where
  pub IsStorable : Entry → Type 0
  pub encode_text : List ℕ → Entry → List ℕ
  pub decode_line : List ℕ → Option Entry
  pub decode_line-encode_text :
      (nonce : List ℕ) (e : Entry) → IsStorable e → decode_line (encode_text nonce e) ≡ some e
  pub encode_text-IsText :
      (nonce : List ℕ) (e : Entry) → IsStorable e → All IsText (encode_text nonce e)
  pub encode_text-ne-nil :
      (nonce : List ℕ) (e : Entry) → IsStorable e → is_empty (encode_text nonce e) ≡ false

-- `func scanLine`, applied until the data ends: each line keeps its newline, and a last line may have
-- none.
abbrev pub onto_first : ℕ → List (List ℕ) → List (List ℕ)
onto_first b [] = (b ∷ []) ∷ []
onto_first b (t ∷ ts) = (b ∷ t) ∷ ts

unfoldable pub scan_lines : List ℕ → List (List ℕ)
scan_lines [] = []
scan_lines (b ∷ bs) =
    let rest = scan_lines bs in if b == newline then (b ∷ []) ∷ rest else onto_first b rest

-- `bytes.TrimSuffix(token, []byte{b})`
unfoldable pub trim_suffix : ℕ → List ℕ → List ℕ
trim_suffix b [] = []
trim_suffix b (x ∷ []) = if x == b then [] else x ∷ []
trim_suffix b (x ∷ y ∷ ys) = x ∷ trim_suffix b (y ∷ ys)

-- `func trimLine(token []byte) []byte`
unfoldable pub trim_line : List ℕ → List ℕ
unfolding trim_suffix
trim_line token = trim_suffix carriage_return (trim_suffix newline token)

unfoldable pub ends_line : List ℕ → Bool
ends_line [] = false
ends_line (x ∷ []) = x == newline
ends_line (x ∷ y ∷ ys) = ends_line (y ∷ ys)

-- `bufio.Scanner` gives up once its buffer of `max_line_bytes` is full and holds no newline.
unfoldable pub too_long : List ℕ → Bool
unfolding ends_line
too_long token =
    if ends_line token then ltb max_line_bytes (length token) else leb max_line_bytes (length token)

-- The errors of the log: `unreadable` is a line that does not open, `too_long_line` the scanner's
-- error, `no_line_break` that of `lineStart`, and `write_failed` a write that the disk refused.
pub data Fault : Type 0 where
  unreadable too_long_line no_line_break write_failed : Fault

-- `type replay struct`, with the entries that the source keeps in a map beside it; of `cutOff` only
-- whether it is set.
pub record Replay : Type 0 where
  pub catalog : Catalog
  pub end : ℕ
  pub cut_off : Bool

module _ (f : Format) where
  -- `func encodeEntry`
  unfoldable pub encode_entry : List ℕ → Entry → List ℕ
  encode_entry nonce e = f.encode_text nonce e ++ newline ∷ []

  -- One round of the loop of `readEntries`, over a line that ends at `offset`.
  unfoldable pub read_line : List ℕ → ℕ → Replay → Result Fault Replay
  read_line token offset read =
      if too_long token
      then err too_long_line
      else if is_empty (trim_line token)
      then ok read
      else if read.cut_off
      then err unreadable
      else elim (f.decode_line (trim_line token)) [
        | none ↦ ok (record read { cut_off = true })
        | some e ↦ ok (record read { catalog = put_entry read.catalog e; end = offset })
      ]

  unfoldable pub read_lines : List (List ℕ) → ℕ → Replay → Result Fault Replay
  unfolding read_line
  read_lines [] offset read = ok read
  read_lines (token ∷ tokens) offset read =
      read_line token (offset + length token) read >>= λ read'.
      read_lines tokens (offset + length token) read'

  -- `func readEntries`
  unfoldable pub read_entries : List ℕ → Catalog → Result Fault Replay
  unfolding read_lines scan_lines
  read_entries bytes c =
      read_lines (scan_lines bytes) 0 (record { catalog = c; end = 0; cut_off = false })
