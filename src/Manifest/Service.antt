-- ===== src/Manifest/Service.antt =====
-- manifest/manifest.go: the catalog that a process holds, over the log that it shares with the disk.
pub mod Durable
pub mod Lookups
pub mod Examples
use sennit.Prelude.{
  ℕ, Bool, true, false, Option, none, some, List, [], ◌∷◌, ◌+◌, Result, ok, err, length,
  if◌then◌else◌,
}
use sennit.Record.{RecordId}
use sennit.Manifest.{Entry}
use sennit.Manifest.Catalog.{Catalog, current, put_entry}
use sennit.Manifest.Lines.{Format, Fault}
use sennit.Manifest.Log
use sennit.Manifest.Log.{Log, Disk}

-- `type Manifest struct`; `entries` and `order` are its catalog.
pub record Manifest : Type 0 where
  pub log : Log
  pub catalog : Catalog

pub data Refusal : Type 0 where
  not_found : Refusal
  log_failed : Fault → Refusal

-- `entry, ok := m.entries[id]; if !ok || entry.Deleted`
abbrev pub live : Option Entry → Result Refusal Entry
live none = err not_found
live (some e) = if e.deleted then err not_found else ok e

-- `func (m *Manifest) Lookup(id record.ID) (Entry, error)`
unfoldable pub lookup : Manifest → RecordId → Result Refusal Entry
lookup m id = live (current m.catalog id)

abbrev pub keep_live : Result Refusal Entry → List Entry → List Entry
keep_live (ok e) es = e ∷ es
keep_live (err x) es = es

abbrev pub live_entries : Catalog → List RecordId → List Entry
live_entries c [] = []
live_entries c (i ∷ is) = keep_live (live (current c i)) (live_entries c is)

-- `func (m *Manifest) Entries() []Entry`
unfoldable pub entries : Manifest → List Entry
entries m = live_entries m.catalog m.catalog.order

abbrev pub count_live : List (RecordId × Entry) → ℕ
count_live [] = 0
count_live ((i, e) ∷ m) = (if e.deleted then 0 else 1) + count_live m

-- `func (m *Manifest) Len() int`
unfoldable pub len : Manifest → ℕ
len m = count_live m.catalog.entries

-- `func (m *Manifest) Named() int`
unfoldable pub named : Manifest → ℕ
named m = length m.catalog.entries

-- What the disk does, and the nonces of the lines that a call may write.
pub record World : Type 0 where
  pub settling : Disk
  pub appending : Disk
  pub compacting : Disk
  pub pending : ℕ → Disk
  pub nonce : List ℕ
  pub nonces : ℕ → List ℕ

module _ (f : Format) where
  abbrev pub logged :
      Log × Result Fault (Unit {0}) → Entry → Manifest → Manifest × Result Refusal (Unit {0})
  logged (l, ok a) e m = (record { log = l; catalog = put_entry m.catalog e }, ok tt)
  logged (l, err x) e m = (record m { log = l }, err (log_failed x))

  -- `func (m *Manifest) append(entry Entry) error`
  unfoldable pub append_entry : World → Entry → Manifest → Manifest × Result Refusal (Unit {0})
  append_entry w e m = logged (Log.append f w.settling w.appending w.nonce e m.log) e m

  abbrev pub compacted :
      Log × Result Fault (Unit {0}) → Manifest → Manifest × Result Refusal (Unit {0})
  compacted (l, ok a) m = (record m { log = l }, ok tt)
  compacted (l, err x) m = (record m { log = l }, err (log_failed x))

  -- The compaction that `Append` ends with, where one is due.
  unfoldable pub compact_if_due : World → Manifest → Manifest × Result Refusal (Unit {0})
  compact_if_due w m =
      if Log.due_for_compaction m.log
      then compacted (Log.compact f w.compacting w.pending w.nonces m.log) m
      else (m, ok tt)

  abbrev pub then_compact :
      World → Manifest × Result Refusal (Unit {0}) → Manifest × Result Refusal (Unit {0})
  then_compact w (m, ok a) = compact_if_due w m
  then_compact w (m, err x) = (m, err x)

  -- `func (m *Manifest) Append(entry Entry) error`
  unfoldable pub append : World → Entry → Manifest → Manifest × Result Refusal (Unit {0})
  unfolding append_entry compact_if_due
  append w e m = then_compact w (append_entry w e m)

  -- `func (m *Manifest) Remove(id record.ID) error`, at the time `now`.
  unfoldable pub remove : World → ℕ → RecordId → Manifest → Manifest × Result Refusal (Unit {0})
  unfolding lookup append
  remove w now id m = elim (lookup m id) [
    | err x ↦ (m, err x)
    | ok e ↦ append w (record e { deleted = true; written_at = now }) m
  ]

  abbrev pub replayed : Log × Result Fault Catalog → Log × Result Refusal Manifest
  replayed (l, ok c) = (l, ok (record { log = l; catalog = c }))
  replayed (l, err x) = (l, err (log_failed x))

  -- `func Load(log *Log) (*Manifest, error)`
  unfoldable pub load : Disk → Log → Log × Result Refusal Manifest
  load disk l = replayed (Log.replay f disk l)
