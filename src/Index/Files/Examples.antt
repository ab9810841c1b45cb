-- ===== src/Index/Files/Examples.antt =====
-- A sealer of the plainest kind, concrete files, and the theorems at concrete inputs.
use sennit.Prelude.{
  ℕ, zero, suc, ◌<◌, Option, none, some, List, [], ◌∷◌, ◌++◌, ◌≡◌, refl, arith, if◌then◌else◌, ltb,
  ok, length, take,
}
use sennit.Bytes.{le_bytes, be_bytes}
use sennit.Record.{RecordId}
use sennit.Manifest.Log.{Disk, takes_all, takes_first}
use sennit.Index.Persist.{Entry, IsEntry, Sealer, encode_entry, entry_body, le_words, decode_entry}
use sennit.Index.Persist.RoundTrip.{decode_entry-entry_body}
use sennit.Index.Delta.{read_entries}
use sennit.Index.Delta.Whole.{Fits}
use sennit.Index.Files.{Store, append, open_store}
use sennit.Index.Files.Replaying.{alive, latest}
use sennit.Index.Files.Appending.{Holds, held}
use sennit.Index.Files.Crash.{landed, open_store_lem}

abbrev tail_of : List ℕ → Option (List ℕ)
tail_of [] = none
tail_of (x ∷ xs) = some xs

pub plain_opens :
    (nonce p sealed : List ℕ)
    → ◌≡◌ {A = Option (List ℕ)} (some (0 ∷ p)) (some sealed)
    → tail_of sealed ≡ some p
plain_opens nonce p sealed h = ground (arith, h)

pub plain_nonempty :
    (nonce p sealed : List ℕ)
    → ◌≡◌ {A = Option (List ℕ)} (some (0 ∷ p)) (some sealed)
    → 0 < length sealed
plain_nonempty nonce p sealed h = ground (arith, h)

abbrev pub plain : Sealer
plain = record {
  seal = λ nonce p. some (0 ∷ p);
  unseal = tail_of;
  unseal-seal = plain_opens;
  seal_nonempty = plain_nonempty;
}

abbrev entry : ℕ → Entry
entry id = record { id = id; model = 109 ∷ []; dim = 2; vector = 5 ∷ 6 ∷ [] }

entry-IsEntry : IsEntry (entry 7)
entry-IsEntry = record {
  id = omega arith;
  model = omega arith;
  dim = omega arith;
  width = refl;
  values = (omega arith, (omega arith, tt));
}

entry_read_back : decode_entry (entry_body (entry 7)) ≡ ok (entry 7)
entry_read_back = decode_entry-entry_body (entry 7) entry-IsEntry

entry-Fits : (nonce : List ℕ) → Fits plain nonce (entry 7)
unfolding entry_body le_words le_bytes be_bytes
entry-Fits nonce = record {
  parts = entry-IsEntry;
  sealed = 0 ∷ entry_body (entry 7);
  seals = refl;
  short = omega arith;
}

abbrev pub nothing : Store
nothing = record {
  base = none;
  delta = [];
  base_bytes = 0;
  delta_bytes = 0;
  written = 0;
  compactions = 0;
  tail = none;
}

nothing-Holds : Holds plain nothing [] []
unfolding read_entries
nothing-Holds = record { base = refl; delta = refl }

-- The second write stops after one byte.
abbrev short_disk : ℕ → Disk
short_disk zero = takes_all
short_disk (suc i) = takes_first 1

abbrev no_nonce : ℕ → List ℕ
no_nonce i = []

abbrev cut_off : Store
cut_off = (append plain short_disk no_nonce (entry 7 ∷ entry 7 ∷ []) nothing).0

abbrev line_of_seven : List ℕ
line_of_seven = le_bytes 4 30 ++ 0 ∷ entry_body (entry 7)

encoded : encode_entry plain [] (entry 7) ≡ ok line_of_seven
unfolding encode_entry entry_body le_words le_bytes be_bytes
encoded = refl

-- A crash in the middle of the second append costs nothing of the first.
open_store_lem_example :
    Holds plain
      (open_store plain nothing.base (nothing.delta ++ take 3 line_of_seven))
      []
      (landed plain 3 line_of_seven [] (entry 7))
    × ((id : RecordId)
        → held plain (open_store plain nothing.base (nothing.delta ++ take 3 line_of_seven)) id ≡ (
            if ltb 3 (length line_of_seven)
            then held plain nothing id
            else alive (latest (entry 7 ∷ []) id (held plain nothing id))))
open_store_lem_example =
    open_store_lem plain 3 [] (entry 7) line_of_seven nothing [] [] nothing-Holds (entry-Fits [])
      encoded

abbrev one_entry : Store
one_entry = record nothing { delta = line_of_seven }

abbrev always : ℕ → Disk
always i = takes_all
