-- ===== src/Index/Files.antt =====
-- index/persist.go and index/tail.go: the base and the delta that the index is kept in. The file lock
-- makes each operation one step; the files are in the state in place of their handles.
pub mod Replaying
pub mod Appending
pub mod Crash
pub mod Examples
use sennit.Prelude.{
  ℕ, zero, suc, ◌+◌, ◌*◌, ◌<◌, Bool, true, false, not, Option, none, some, List, [], ◌∷◌, ◌++◌, map,
  Result, ok, err, ◌>>=◌, length, take, ltb, ◌==◌, if◌then◌else◌,
}
use sennit.Record.{RecordId}
use sennit.Manifest.Log.{Disk, reached, refused}
use sennit.Index.Persist.{Entry, removed, removal, Sealer, Fault, write_failed, encode_entry}
use sennit.Index.Delta.{read_entries, whole_records}

-- `type Store struct`; `tail` is `none` for -1.
pub record Store : Type 0 where
  pub base : Option (List ℕ)
  pub delta : List ℕ
  pub base_bytes : ℕ
  pub delta_bytes : ℕ
  pub written : ℕ
  pub compactions : ℕ
  pub tail : Option ℕ

-- `func (s *Store) cut(size int64) error`
unfoldable pub cut : ℕ → Store → Store
cut size s = record s { delta = take size s.delta; tail = some size }

-- The step of `hydrate` for one entry: `at` and `out` are one list, in which a later entry takes the
-- place of an earlier one of its record.
unfoldable pub replay_entry : Entry → List Entry → List Entry
replay_entry e [] = e ∷ []
replay_entry e (x ∷ out) =
    let rest = replay_entry e out in if x.id == e.id then e ∷ out else x ∷ rest

unfoldable pub replay : List Entry → List Entry → List Entry
unfolding replay_entry
replay out [] = out
replay out (e ∷ es) = replay (replay_entry e out) es

-- The end of `hydrate`: removals are left out.
unfoldable pub live : List Entry → List Entry
live [] = []
live (e ∷ out) = if removed e then live out else e ∷ live out

abbrev pub size_of : Option (List ℕ) → ℕ
size_of none = 0
size_of (some bytes) = length bytes

module _ (sealer : Sealer) where
  -- The part of `settle` that has read the delta.
  unfoldable pub settle_at : ℕ → Store → Store × ℕ
  unfolding cut
  settle_at end s =
      (record (if ltb end (length s.delta) then cut end s else s) { tail = some end }, end)

  abbrev pub settle_unless : Bool → Store → Store × ℕ
  settle_unless true s = (s, length s.delta)
  settle_unless false s = settle_at (whole_records sealer s.delta) s

  abbrev pub is_tail : Option ℕ → ℕ → Bool
  is_tail none size = false
  is_tail (some tail) size = size == tail

  -- `func (s *Store) settle() (int64, error)`
  unfoldable pub settle : Store → Store × ℕ
  unfolding settle_at whole_records
  settle s = settle_unless (is_tail s.tail (length s.delta)) s

  -- `func OpenStore(dir string, sealer Sealer) (*Store, error)`, over what the two files hold.
  unfoldable pub open_store : Option (List ℕ) → List ℕ → Store
  unfolding settle
  open_store base delta =
      let (s, end) = settle (record {
        base = base;
        delta = delta;
        base_bytes = size_of base;
        delta_bytes = 0;
        written = 0;
        compactions = 0;
        tail = none;
      }) in
      record s { delta_bytes = end }

  -- One round of `Append`, for a line that was encoded, behind a delta that ends at `end`.
  unfoldable pub write_line : Disk → List ℕ → ℕ → Store → Store × Result Fault ℕ
  unfolding cut
  write_line disk line end s =
      if refused disk
      then (cut end (record s { delta = s.delta ++ reached disk line }), err write_failed)
      else (
        record s {
          delta = s.delta ++ line;
          delta_bytes = s.delta_bytes + length line;
          written = s.written + length line;
          tail = some (end + length line);
        },
        ok (end + length line),
      )

  abbrev pub Next : Type 0
  Next = Store → ℕ → Store × Result Fault (Unit {0})

  abbrev pub then_next : Next → Store × Result Fault ℕ → Store × Result Fault (Unit {0})
  then_next next (s, err e) = (s, err e)
  then_next next (s, ok end) = next s end

  abbrev pub then_write :
      Disk → ℕ → Store → Next → Result Fault (List ℕ) → Store × Result Fault (Unit {0})
  then_write disk end s next (err e) = (s, err e)
  then_write disk end s next (ok line) = then_next next (write_line disk line end s)

  -- The loop of `Append`: each entry is sealed under a nonce of its own, and meets a disk.
  unfoldable pub append_loop :
      (ℕ → Disk) → (ℕ → List ℕ) → List Entry → ℕ → Store → Store × Result Fault (Unit {0})
  unfolding write_line encode_entry
  append_loop disk nonce [] end s = (s, ok tt)
  append_loop disk nonce (e ∷ es) end s =
      then_write (disk 0) end s
        (λ s' end'. append_loop (λ i. disk (suc i)) (λ i. nonce (suc i)) es end' s')
        (encode_entry sealer (nonce 0) e)

  -- `func (s *Store) Append(entries ...Entry) error`
  unfoldable pub append :
      (ℕ → Disk) → (ℕ → List ℕ) → List Entry → Store → Store × Result Fault (Unit {0})
  unfolding settle append_loop
  append disk nonce [] s = (s, ok tt)
  append disk nonce (e ∷ es) s = let (s', end) = settle s in append_loop disk nonce (e ∷ es) end s'

  -- `func (s *Store) hydrate() ([]Entry, error)`
  unfoldable pub hydrate : Store → List Entry
  unfolding replay live read_entries
  hydrate s =
      live (replay (replay [] (read_entries sealer s.base)) (read_entries sealer (some s.delta)))

  -- `func (s *Store) Remove(ids ...record.ID) error`
  unfoldable pub remove :
      (ℕ → Disk) → (ℕ → List ℕ) → List RecordId → Store → Store × Result Fault (Unit {0})
  unfolding append
  remove disk nonce ids s = append disk nonce (map removal ids) s

  -- The loop of `compact` over the pending file: each entry is sealed under a nonce of its own, and its
  -- line meets a disk.
  unfoldable pub base_lines : (ℕ → Disk) → (ℕ → List ℕ) → List Entry → Result Fault (List ℕ)
  unfolding encode_entry
  base_lines pending nonce [] = ok []
  base_lines pending nonce (e ∷ es) =
      let rest = base_lines (λ i. pending (suc i)) (λ i. nonce (suc i)) es in
      encode_entry sealer (nonce 0) e >>= λ line.
      if refused (pending 0) then err write_failed else rest >>= λ lines. ok (line ++ lines)

  -- The pending file is renamed over the base. A process that stops here leaves this.
  unfoldable pub install : List ℕ → Store → Store
  install lines s = record s { base = some lines }

  -- The delta is emptied and the sizes are counted anew.
  unfoldable pub empty_delta : ℕ → Store → Store
  unfolding cut
  empty_delta size s = record (cut 0 s) {
    base_bytes = size;
    delta_bytes = 0;
    written = s.written + size;
    compactions = s.compactions + 1;
  }

  abbrev pub install_lines : Store → Result Fault (List ℕ) → Store × Result Fault (Unit {0})
  install_lines s (err e) = (s, err e)
  install_lines s (ok lines) = (empty_delta (length lines) (install lines s), ok tt)

  -- `func (s *Store) compact(entries []Entry) error`
  unfoldable pub compact :
      (ℕ → Disk) → (ℕ → List ℕ) → List Entry → Store → Store × Result Fault (Unit {0})
  unfolding base_lines install empty_delta
  compact pending nonce entries s = install_lines s (base_lines pending nonce entries)

  -- `func (s *Store) fold() error`
  unfoldable pub fold : (ℕ → Disk) → (ℕ → List ℕ) → Store → Store × Result Fault (Unit {0})
  unfolding hydrate compact
  fold pending nonce s = compact pending nonce (hydrate s) s

  -- `func (s *Store) dueForCompaction() bool`: `deltaBytes > 0.25 * baseBytes`, where `deltaBytes`
  -- is at least `MinCompactBytes`.
  unfoldable pub due_for_compaction : Store → Bool
  due_for_compaction s =
      if ltb s.delta_bytes 65536 then false else ltb s.base_bytes (4 * s.delta_bytes)

  -- `func (s *Store) CompactIfDue() (bool, error)`
  unfoldable pub compact_if_due :
      (ℕ → Disk) → (ℕ → List ℕ) → Store → Store × Bool × Result Fault (Unit {0})
  unfolding due_for_compaction fold
  compact_if_due pending nonce s =
      let (s', done) = fold pending nonce s in
      if due_for_compaction s then (s', true, done) else (s, false, ok tt)
