-- ===== src/Manifest.antt =====
-- manifest/entry.go: an entry of the catalog. The children model the lines that entries are stored
-- in (manifest/lines.go), the log and the snapshot (manifest/log.go, manifest/snapshot.go) and the
-- catalog over them (manifest/manifest.go).
pub mod Catalog
pub mod Lines
pub mod Log
pub mod Service
use sennit.Prelude.{ℕ, String, List, Bool}
use sennit.Record.{RecordId, Kind}

-- `type Entry struct`. A time is its count of milliseconds.
pub record Entry : Type 0 where
  pub id : RecordId
  pub kind : Kind
  pub type : String
  pub version : ℕ
  pub cid : String
  pub object_ref : String
  pub slab_id : String
  pub bytes : ℕ
  pub tags : List String
  pub written_at : ℕ
  pub deleted : Bool
