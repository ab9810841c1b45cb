-- ===== src/Manifest/Catalog.antt =====
-- The catalog that a replay builds: the current entry of each record, and the order in which the
-- records first appeared.
pub mod Fold
pub mod Sound
use sennit.Prelude.{
  ℕ, Bool, true, false, not, Option, none, some, List, [], ◌∷◌, ◌++◌, if◌then◌else◌, length,
}
use sennit.Prelude.Keys.{number_key}
use sennit.Prelude.Maps.{lookup, insert}
use sennit.Record.{RecordId}
use sennit.Manifest.{Entry}

-- The fields `entries` and `order` of `Manifest`, and what `readEntries` fills.
pub record Catalog : Type 0 where
  pub entries : List (RecordId × Entry)
  pub order : List RecordId

abbrev pub empty : Catalog
empty = record { entries = []; order = [] }

-- `entry, ok := m.entries[id]`
abbrev pub current : Catalog → RecordId → Option Entry
current c id = lookup c.entries id

abbrev pub known {ℓ} : {A : Type ℓ} → Option A → Bool
known none = false
known (some a) = true

-- `if _, seen := entries[entry.ID]; !seen { order = append(order, entry.ID) }`, then
-- `entries[entry.ID] = entry`.
unfoldable pub put_entry : Catalog → Entry → Catalog
put_entry c e = record {
  entries = insert c.entries e.id e;
  order = if known (current c e.id) then c.order else c.order ++ e.id ∷ [];
}

unfoldable pub put_entries : Catalog → List Entry → Catalog
put_entries c [] = c
put_entries c (e ∷ es) = put_entries (put_entry c e) es
