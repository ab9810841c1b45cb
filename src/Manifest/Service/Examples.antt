-- ===== src/Manifest/Service/Examples.antt =====
-- A small format for lines, concrete catalogs, and the theorems at concrete inputs.
use sennit.Prelude.{
  ℕ, zero, suc, ◌<◌, false, Option, none, some, List, [], ◌∷◌, ◌≡◌, refl, ◌⊎◌, inl, inr, ok, err,
  if◌then◌else◌, arith, ◌==◌, length, take, All, subst,
}
use sennit.Manifest.{Entry}
use sennit.Manifest.Catalog.{empty, put_entry, put_entries}
use sennit.Manifest.Catalog.Sound.{held, IsSound, SameCatalog, empty-IsSound, put_entries-IsSound}
use sennit.Manifest.Lines.{encode_entry, Format, IsText, is_empty}
use sennit.Manifest.Lines.Reading.{Fits}
use sennit.Manifest.Log.{
  Log, Disk, takes_all, takes_first, replay, interrupt, install, compact, snapshot_lines,
}
use sennit.Manifest.Log.Recovery.{Holds, catalog_of, Reopens}
use sennit.Manifest.Log.Crash.{interrupt_lem}
use sennit.Manifest.Log.Compaction.{entries_of, AllFit, ReopensAs, compact_lem}
use sennit.Manifest.Log as Log
use sennit.Manifest.Service.{
  append_entry, compact_if_due, Manifest, World, not_found, lookup, append, remove, load,
}
use sennit.Manifest.Service.Lookups.{lookup-remove}
use sennit.Manifest.Service.Durable.{AgreesSome, load-Agrees}

abbrev entry : ℕ → Entry
entry id = record {
  id = id;
  kind = "memory";
  type = "fact";
  version = 1;
  cid = "c";
  object_ref = "o";
  slab_id = "s";
  bytes = 10;
  tags = [];
  written_at = 0;
  deleted = false;
}

-- Two entries can be stored, each as a text of its own.
abbrev CanStore : Entry → Type 0
CanStore e = (e ≡ entry 1) ⊎ (e ≡ entry 2)

abbrev text_of : List ℕ → Entry → List ℕ
text_of nonce e = if e.id == 1 then 65 ∷ 65 ∷ [] else 66 ∷ 66 ∷ 66 ∷ []

abbrev entry_of : List ℕ → Option Entry
entry_of (x ∷ y ∷ []) = if x == 65 then some (entry 1) else none
entry_of (x ∷ y ∷ z ∷ []) = if x == 66 then some (entry 2) else none
entry_of b = none

pub entry_of-text_of :
    (nonce : List ℕ) (e : Entry) → CanStore e → entry_of (text_of nonce e) ≡ some e
entry_of-text_of nonce e (inl h) = rw h refl
entry_of-text_of nonce e (inr h) = rw h refl

pub text_of-IsText : (nonce : List ℕ) (e : Entry) → CanStore e → All IsText (text_of nonce e)
text_of-IsText nonce e (inl h) = rw h (omega arith)
text_of-IsText nonce e (inr h) = rw h (omega arith)

pub text_of-ne-nil : (nonce : List ℕ) (e : Entry) → CanStore e → is_empty (text_of nonce e) ≡ false
text_of-ne-nil nonce e (inl h) = rw h refl
text_of-ne-nil nonce e (inr h) = rw h refl

abbrev pub letters : Format
letters = record {
  IsStorable = CanStore;
  encode_text = text_of;
  decode_line = entry_of;
  decode_line-encode_text = entry_of-text_of;
  encode_text-IsText = text_of-IsText;
  encode_text-ne-nil = text_of-ne-nil;
}

Fits-one : (n : List ℕ) → Fits letters n (entry 1)
Fits-one n = record { storable = inl refl; short = omega arith }

Fits-two : (n : List ℕ) → Fits letters n (entry 2)
Fits-two n = record { storable = inr refl; short = omega arith }

-- A log that holds the first entry.
abbrev one_line : Log
one_line = record {
  file = 65 ∷ 65 ∷ 10 ∷ [];
  snapshot = none;
  log_bytes = 3;
  snapshot_bytes = 0;
  written = 3;
  compactions = 0;
  dropped = 0;
}

one_line-Holds : Holds letters [] (entry 1 ∷ []) one_line
one_line-Holds = record { snapshot = refl; log = ([], [], refl, Fits-one [], refl) }

one_line-AllFit : AllFit letters (catalog_of letters [] (entry 1 ∷ []))
unfolding put_entry put_entries
one_line-AllFit id e h n =
    let same : entry 1 ≡ e = ground arith in subst (Fits letters n) same (Fits-one n)

abbrev pub opened : Manifest
opened = record { log = one_line; catalog = put_entry empty (entry 1) }

opened-Agrees : AgreesSome letters opened
unfolding put_entries
opened-Agrees = (
  [],
  entry 1 ∷ [],
  record {
    files = one_line-Holds;
    memory = record { currents = λ id. refl; orders = refl };
    fits = one_line-AllFit;
  },
)

pub opened-IsSound : IsSound opened.catalog
unfolding put_entries
opened-IsSound = put_entries-IsSound empty (entry 1 ∷ []) empty-IsSound

abbrev pub world : World
world = record {
  settling = takes_all;
  appending = takes_all;
  compacting = takes_all;
  pending = λ i. takes_all;
  nonce = [];
  nonces = λ i. [];
}

-- One byte of the second entry's line reached the disk.
no_part :
    (m : ℕ) → m < length (text_of [] (entry 2)) → entry_of (take m (text_of [] (entry 2))) ≡ none
no_part zero h = refl
no_part (suc zero) h = refl
no_part (suc (suc zero)) h = refl
no_part (suc (suc (suc m))) h = absurd (omega arith)

interrupt_lem_example :
    Reopens letters (interrupt letters takes_all 1 [] (entry 2) one_line) [] (entry 1 ∷ [])
interrupt_lem_example =
    interrupt_lem letters takes_all 1 [] (entry 2) [] (entry 1 ∷ []) one_line one_line-Holds
      (Fits-two []) no_part

abbrev always : ℕ → Disk
always i = takes_all

compact_lem_example :
    ((compact letters takes_all always (λ i. []) one_line).1 ≡ ok tt)
    × ((compact letters takes_all always (λ i. []) one_line).0.file ≡ [])
    × ReopensAs letters
        (compact letters takes_all always (λ i. []) one_line).0
        (catalog_of letters [] (entry 1 ∷ []))
    × ReopensAs letters
        (install letters
          (snapshot_lines letters (λ i. []) (entries_of letters [] (entry 1 ∷ [])))
          (replay letters takes_all one_line).0)
        (catalog_of letters [] (entry 1 ∷ []))
unfolding put_entries put_entry held
compact_lem_example =
    compact_lem letters takes_all always (λ i. []) [] (entry 1 ∷ []) one_line one_line-Holds
      one_line-AllFit

load-Agrees_example :
    (m : Manifest) × (load letters takes_all one_line ≡ (m.log, ok m))
    × SameCatalog m.catalog opened.catalog
load-Agrees_example = load-Agrees letters takes_all opened opened-Agrees

removed : (remove letters world 9 1 opened).1 ≡ ok tt
unfolding remove lookup append append_entry compact_if_due put_entry put_entries Log.append
    Log.settle Log.write_line Log.due_for_compaction Log.split_last encode_entry
removed = refl

lookup-remove_example : lookup (remove letters world 9 1 opened).0 1 ≡ err not_found
lookup-remove_example = lookup-remove letters world 9 1 opened 1 opened-IsSound removed
