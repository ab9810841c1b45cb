-- ===== src/Manifest/Service/Durable.antt =====
-- What a process holds in memory is what the files hold.
use sennit.Prelude.{ℕ, true, List, ◌≡◌, refl, sym, Result, ok, err, ◌⊎◌, length}
use sennit.Manifest.{Entry}
use sennit.Manifest.Catalog.{Catalog, put_entry}
use sennit.Manifest.Catalog.Sound.{SameCatalog}
use sennit.Manifest.Lines.{Format, write_failed}
use sennit.Manifest.Log
use sennit.Manifest.Log.{Log, Disk, takes_all, takes_first}
use sennit.Manifest.Log.Recovery.{Holds, catalog_of, replay-Holds}
use sennit.Manifest.Log.Compaction.{AllFit}
use sennit.Manifest.Service.{Manifest, Refusal, log_failed, World, load}

SameCatalog-sym : (a b : Catalog) → SameCatalog a b → SameCatalog b a
SameCatalog-sym a b s = record { currents = λ id. sym (s.currents id); orders = sym s.orders }

-- An append whose line the disk took: the catalog in memory, and the answer.
abbrev pub Taken : World → Catalog → Manifest × Result Refusal (Unit {0}) → Type 0
Taken w c r =
    (r.0.catalog ≡ c)
    × ((r.1 ≡ ok tt)
        ⊎ ((r.1 ≡ err (log_failed write_failed)) × ((i : ℕ) × (Log.refused (w.pending i) ≡ true))))

module _ (f : Format) where
  -- The files are whole lines, the catalog in memory is the one that they hold, and each of its
  -- entries fits a line.
  pub record Agrees (ss es : List Entry) (m : Manifest) : Type 0 where
    pub files : Holds f ss es m.log
    pub memory : SameCatalog m.catalog (catalog_of f ss es)
    pub fits : AllFit f (catalog_of f ss es)

  abbrev pub AgreesSome : Manifest → Type 0
  AgreesSome m = (ss : List Entry) × (es : List Entry) × Agrees ss es m

  -- Opening the files of a manifest anew, where memory and files agree, gives the catalog that the process
  -- has.
  pub load-Agrees :
      (disk : Disk) (m : Manifest)
      → AgreesSome m
      → (m' : Manifest) × (load f disk m.log ≡ (m'.log, ok m')) × SameCatalog m'.catalog m.catalog
  unfolding load
  load-Agrees disk m (ss, es, a) = (
    record { log = record m.log { log_bytes = length m.log.file }; catalog = catalog_of f ss es },
    rw (replay-Holds f disk ss es m.log a.files) refl,
    SameCatalog-sym _ _ a.memory,
  )

  -- What an append that the log took leaves: memory has the entry, the files agree, and it has succeeded
  -- unless a disk refused a line of a new snapshot.
  abbrev Kept : World → Catalog → Manifest × Result Refusal (Unit {0}) → Type 0
  Kept w c r = AgreesSome r.0 × Taken w c r

  -- What an append answers, by what the disk does with its line.
  abbrev pub Answers :
      Disk → World → Entry → Manifest → Manifest × Result Refusal (Unit {0}) → Type 0
  Answers takes_all w e m r = Taken w (put_entry m.catalog e) r
  Answers (takes_first n) w e m r = r ≡ (m, err (log_failed write_failed))
