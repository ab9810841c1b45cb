-- ===== src/Manifest/Catalog/Fold.antt =====
-- Laws of replaying entries: the last entry of a record wins, and replaying again changes nothing.
use sennit.Prelude.{
  true, Option, some, List, [], ◌∷◌, ◌++◌, ◌≡◌, refl, ◌∙◌, sym, ap, arith, if◌then◌else◌, ◌==◌,
  Bool-cases, ◌⊎◌, inl, inr, All,
}
use sennit.Prelude.Keys.{number_key}
use sennit.Prelude.Maps.{lookup-insert}
use sennit.Record.{RecordId}
use sennit.Manifest.{Entry}
use sennit.Manifest.Catalog.{Catalog, current, known, put_entry, put_entries}

-- The last entry that a list holds for a record, or else what was there before.
abbrev pub latest : List Entry → RecordId → Option Entry → Option Entry
latest [] id before = before
latest (e ∷ es) id before = latest es id (if e.id == id then some e else before)

pub current-put_entry :
    (c : Catalog) (e : Entry) (id : RecordId)
    → current (put_entry c e) id ≡ (if e.id == id then some e else current c id)
unfolding put_entry
current-put_entry c e id = lookup-insert c.entries e.id e id

pub current-put_entries :
    (c : Catalog) (es : List Entry) (id : RecordId)
    → current (put_entries c es) id ≡ latest es id (current c id)
unfolding put_entries
current-put_entries c [] id = refl
current-put_entries c (e ∷ es) id =
    current-put_entries (put_entry c e) es id ∙ ap (latest es id) (current-put_entry c e id)

pub put_entries-append :
    (c : Catalog) (es fs : List Entry)
    → put_entries c (es ++ fs) ≡ put_entries (put_entries c es) fs
unfolding put_entries
put_entries-append c [] fs = refl
put_entries-append c (e ∷ es) fs = put_entries-append (put_entry c e) es fs

-- A list either decides what a record's entry is, or says nothing of the record.
latest_cases :
    (es : List Entry) (id : RecordId)
    → ((e : Entry) × ((o : Option Entry) → latest es id o ≡ some e))
      ⊎ ((o : Option Entry) → latest es id o ≡ o)
latest_cases [] id = inr (λ o. refl)
latest_cases (e ∷ es) id = elim (latest_cases es id) [
  | inl (f, decides) ↦ inl (f, λ o. decides _)
  | inr passes ↦ elim (Bool-cases (e.id == id)) [
    | inl h ↦ inl (e, λ o. rw h (passes (some e)))
    | inr h ↦ inr (λ o. rw h (passes o))
  ]
]

pub latest-latest :
    (es : List Entry) (id : RecordId) (o : Option Entry)
    → latest es id (latest es id o) ≡ latest es id o
latest-latest es id o = elim (latest_cases es id) [
  | inl (e, decides) ↦ decides (latest es id o) ∙ sym (decides o)
  | inr passes ↦ passes (latest es id o)
]

known-latest :
    (es : List Entry) (id : RecordId) (o : Option Entry)
    → known o ≡ true
    → known (latest es id o) ≡ true
known-latest es id o h = elim (latest_cases es id) [
  | inl (e, decides) ↦ rw (decides o) refl
  | inr passes ↦ rw (passes o) h
]

-- What was replayed has an entry.
pub All-known :
    (c : Catalog) (es : List Entry)
    → All (λ (e : Entry). known (current (put_entries c es) e.id) ≡ true) es
unfolding put_entries
All-known c [] = tt
All-known c (e ∷ es) = (
  rw (current-put_entries (put_entry c e) es e.id)
      (known-latest es e.id _ (rw (current-put_entry c e e.id) (ground arith))),
  All-known (put_entry c e) es,
)

-- Replaying entries of records that are there leaves the order alone.
pub order-put_entries-known :
    (c : Catalog) (es : List Entry)
    → All (λ (e : Entry). known (current c e.id) ≡ true) es
    → (put_entries c es).order ≡ c.order
unfolding put_entries
order-put_entries-known c [] h = refl
order-put_entries-known c (e ∷ es) h =
    order-put_entries-known (put_entry c e) es (carry es h.1) ∙ (unfold put_entry in rw h.0)
  where
    carry :
        (fs : List Entry)
        → All (λ (f : Entry). known (current c f.id) ≡ true) fs
        → All (λ (f : Entry). known (current (put_entry c e) f.id) ≡ true) fs
    carry [] k = tt
    carry (f ∷ fs) k = (rw (current-put_entry c e f.id) (ground (arith, k.0)), carry fs k.1)
