-- ===== src/Manifest/Log.antt =====
-- manifest/log.go and manifest/snapshot.go: the log that entries are appended to, the snapshot that
-- it is folded into, and what a crash leaves of them. The file lock makes each operation one step.
pub mod Settling
pub mod Recovery
pub mod Crash
pub mod Compaction
use sennit.Prelude.{
  ℕ, zero, suc, ◌+◌, ◌*◌, Bool, true, false, not, ◌&&◌, ◌||◌, Option, none, some, List, [], ◌∷◌,
  ◌++◌, Result, ok, err, ◌>>=◌, length, take, ltb, leb, ◌==◌, if◌then◌else◌,
}
use sennit.Manifest.{Entry}
use sennit.Manifest.Catalog.{Catalog, empty}
use sennit.Manifest.Catalog.Sound.{held}
use sennit.Manifest.Lines.{
  newline, max_line_bytes, is_empty, Format, Fault, unreadable, no_line_break, write_failed, Replay,
  trim_line, encode_entry, read_entries,
}

-- `type Log struct`, with the two files themselves in place of their handles.
pub record Log : Type 0 where
  pub file : List ℕ
  pub snapshot : Option (List ℕ)
  pub log_bytes : ℕ
  pub snapshot_bytes : ℕ
  pub written : ℕ
  pub compactions : ℕ
  pub dropped : ℕ

-- What the disk does with a write: all of it, or the first bytes and an error.
pub data Disk : Type 0 where
  takes_all : Disk
  takes_first : ℕ → Disk

-- The bytes that reached the file.
abbrev pub reached : Disk → List ℕ → List ℕ
reached takes_all bytes = bytes
reached (takes_first n) bytes = take n bytes

abbrev pub refused : Disk → Bool
refused takes_all = false
refused (takes_first n) = true

-- A file in its whole lines and what stands behind its last newline.
unfoldable pub split_last : List ℕ → List ℕ × List ℕ
split_last [] = ([], [])
split_last (b ∷ bs) =
    let (lines, tail) = split_last bs in
    if is_empty lines
    then (if b == newline then (b ∷ [], tail) else ([], b ∷ tail))
    else (b ∷ lines, tail)

-- `lineStart` reads back blocks of `64 << 10` bytes, and refuses once it has passed `max_line_bytes`
-- without finding a newline: it looks at the last 17 blocks.
abbrev pub scanned_back : ℕ
scanned_back = 17 * 65536

-- `func (l *Log) lineStart`: the length of the whole lines, or `none` where it gives up. A file with
-- a newline is given up where the newline stands further back than the blocks reach.
unfoldable pub line_start : List ℕ → List ℕ → Option ℕ
line_start lines tail =
    if ltb scanned_back (length tail) || (leb scanned_back (length tail) && not (is_empty lines))
    then none
    else some (length lines)

-- `func (l *Log) cut(size int64) error`
unfoldable pub cut : ℕ → Log → Log
cut size l = record l { file = take size l.file }

module _ (f : Format) where
  -- The part of `settle` that has read the tail, which begins at `start`.
  unfoldable pub settle_tail : Disk → List ℕ → ℕ → Log → Log × Result Fault ℕ
  unfolding cut
  settle_tail disk tail start l =
      let dropping : Log × Result Fault ℕ =
        (record (cut start l) { dropped = l.dropped + 1 }, ok start) in
      let finished : Log = record l {
        file = l.file ++ newline ∷ [];
        log_bytes = l.log_bytes + 1;
        written = l.written + 1;
      } in
      let finishing : Log × Result Fault ℕ =
        if refused disk
        then (
          cut (length l.file) (record l { file = l.file ++ reached disk (newline ∷ []) }),
          err write_failed,
        )
        else (finished, ok (length l.file + 1)) in
      if is_empty (trim_line tail)
      then finishing
      else elim (f.decode_line (trim_line tail)) [ none ↦ dropping | some e ↦ finishing ]

  -- `func (l *Log) settle() (int64, error)`
  unfoldable pub settle : Disk → Log → Log × Result Fault ℕ
  unfolding split_last line_start settle_tail
  settle disk l =
      let (lines, tail) = split_last l.file in
      if is_empty tail then (l, ok (length l.file)) else elim (line_start lines tail) [
        | none ↦ (l, err no_line_break)
        | some start ↦ settle_tail disk tail start l
      ]

  -- The write of `Append`, behind a settled log that ends at `end`.
  unfoldable pub write_line : Disk → List ℕ → ℕ → Log → Log × Result Fault (Unit {0})
  unfolding cut
  write_line disk line end l =
      if refused disk
      then (cut end (record l { file = l.file ++ reached disk line }), err write_failed)
      else (
        record l {
          file = l.file ++ line;
          log_bytes = l.log_bytes + length line;
          written = l.written + length line;
        },
        ok tt,
      )

  abbrev pub and_then {ℓ κ} :
      {A : Type ℓ} {B : Type κ}
      → Log × Result Fault A
      → (Log → A → Log × Result Fault B)
      → Log × Result Fault B
  and_then (l, ok a) next = next l a
  and_then (l, err e) next = (l, err e)

  -- `func (l *Log) Append(entry Entry) error`. The first disk is what the write of a missing newline
  -- meets, the second what the write of the line meets.
  unfoldable pub append : Disk → Disk → List ℕ → Entry → Log → Log × Result Fault (Unit {0})
  unfolding settle write_line encode_entry
  append disk disk' nonce e l =
      and_then (settle disk l) (λ l' end. write_line disk' (encode_entry f nonce e) end l')

  -- A process that stops while it appends leaves the first `n` bytes of the line.
  unfoldable pub interrupt : Disk → ℕ → List ℕ → Entry → Log → Log
  unfolding settle encode_entry
  interrupt disk n nonce e l =
      let l' = (settle disk l).0 in record l' { file = l'.file ++ take n (encode_entry f nonce e) }

  -- The first half of `replay`: the snapshot, which may have no line cut off.
  unfoldable pub read_snapshot : Option (List ℕ) → Result Fault Catalog
  unfolding read_entries
  read_snapshot none = ok empty
  read_snapshot (some bytes) = elim (read_entries f bytes empty) [
    | err e ↦ err e
    | ok read ↦ if read.cut_off then err unreadable else ok read.catalog
  ]

  -- The second half: the log, whose last line is taken off where it was cut off.
  unfoldable pub drop_cut_off : Replay → Log → Log
  unfolding cut
  drop_cut_off read l =
      if read.cut_off then record (cut read.end l) { dropped = l.dropped + 1 } else l

  unfoldable pub replay_log : Disk → Catalog → Log → Log × Result Fault Catalog
  unfolding read_entries drop_cut_off settle
  replay_log disk c l = elim (read_entries f l.file c) [
    | err e ↦ (l, err e)
    | ok read ↦
        and_then (settle disk (drop_cut_off read l))
          (λ l' size. (record l' { log_bytes = size }, ok read.catalog))
  ]

  -- `func (l *Log) replay()`, which `Replay` runs under the locks.
  unfoldable pub replay : Disk → Log → Log × Result Fault Catalog
  unfolding read_snapshot replay_log
  replay disk l = elim (read_snapshot l.snapshot) [
    | err e ↦ (l, err e)
    | ok c ↦ replay_log disk c l
  ]

  -- The lines of entries, each under a nonce of its own.
  unfoldable pub snapshot_lines : (ℕ → List ℕ) → List Entry → List ℕ
  unfolding encode_entry
  snapshot_lines nonce [] = []
  snapshot_lines nonce (e ∷ es) =
      encode_entry f (nonce 0) e ++ snapshot_lines (λ i. nonce (suc i)) es

  -- The loop of `compact` over the pending file: each line meets a disk, and the first write that is
  -- refused ends it.
  unfoldable pub write_pending : (ℕ → Disk) → (ℕ → List ℕ) → List Entry → Result Fault (List ℕ)
  unfolding encode_entry
  write_pending pending nonce [] = ok []
  write_pending pending nonce (e ∷ es) =
      let rest = write_pending (λ i. pending (suc i)) (λ i. nonce (suc i)) es in
      if refused (pending 0)
      then err write_failed
      else rest >>= λ lines. ok (encode_entry f (nonce 0) e ++ lines)

  -- The pending file is renamed over the snapshot.
  unfoldable pub install : List ℕ → Log → Log
  install lines l = record l { snapshot = some lines }

  -- The log is emptied, and the sizes are counted anew.
  unfoldable pub empty_log : ℕ → Log → Log
  unfolding cut
  empty_log size l = record (cut 0 l) {
    snapshot_bytes = size;
    log_bytes = 0;
    written = l.written + size;
    compactions = l.compactions + 1;
  }

  abbrev pub install_pending : Log → Result Fault (List ℕ) → Log × Result Fault (Unit {0})
  install_pending l (err e) = (l, err e)
  install_pending l (ok lines) = (empty_log (length lines) (install lines l), ok tt)

  -- `func (l *Log) compact() error`, with the current entry of every record. The first disk is what the
  -- replay meets. A process that stops after `install` leaves its result.
  unfoldable pub compact : Disk → (ℕ → Disk) → (ℕ → List ℕ) → Log → Log × Result Fault (Unit {0})
  unfolding replay write_pending install empty_log held
  compact disk pending nonce l =
      and_then (replay disk l)
        (λ l' c. install_pending l' (write_pending pending nonce (held c c.order)))

-- `MinCompactBytes`
abbrev pub min_compact_bytes : ℕ
min_compact_bytes = 65536

-- `func (l *Log) dueForCompaction() bool`: `logBytes > 0.25 * snapshotBytes`.
unfoldable pub due_for_compaction : Log → Bool
due_for_compaction l =
    if ltb l.log_bytes min_compact_bytes then false else ltb l.snapshot_bytes (4 * l.log_bytes)
