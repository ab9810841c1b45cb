-- ===== src/Index/Files/Replaying.antt =====
-- Laws of the replay: the last entry of a record wins, and replaying again changes nothing.
use sennit.Prelude.{
  Option, none, some, List, [], ◌∷◌, ◌++◌, ◌≡◌, refl, ◌∙◌, ap, arith, if◌then◌else◌, ◌==◌,
  Bool-cases, ◌⊎◌, inl, inr,
}
use sennit.Record.{RecordId}
use sennit.Index.Persist.{Entry, removed}
use sennit.Index.Files.{replay_entry, replay, live}

-- The entry of a record in a list that has one at most.
abbrev pub find : List Entry → RecordId → Option Entry
find [] id = none
find (e ∷ out) id = if e.id == id then some e else find out id

-- A removal counts as no entry.
abbrev pub alive : Option Entry → Option Entry
alive none = none
alive (some e) = if removed e then none else some e

abbrev pub latest : List Entry → RecordId → Option Entry → Option Entry
latest [] id before = before
latest (e ∷ es) id before = latest es id (if e.id == id then some e else before)

-- No record has two entries.
abbrev pub Distinct : List Entry → Type 0
Distinct [] = Unit {0}
Distinct (e ∷ out) = (find out e.id ≡ none) × Distinct out

find-replay_entry :
    (e : Entry) (out : List Entry) (id : RecordId)
    → find (replay_entry e out) id ≡ (if e.id == id then some e else find out id)
unfolding replay_entry
find-replay_entry e [] id = refl
find-replay_entry e (x ∷ out) id = ground (arith, find-replay_entry e out id)

pub find-replay :
    (out es : List Entry) (id : RecordId) → find (replay out es) id ≡ latest es id (find out id)
unfolding replay
find-replay out [] id = refl
find-replay out (e ∷ es) id =
    find-replay (replay_entry e out) es id ∙ ap (latest es id) (find-replay_entry e out id)

replay_entry-Distinct :
    (e : Entry) (out : List Entry) → Distinct out → Distinct (replay_entry e out)
unfolding replay_entry
replay_entry-Distinct e [] d = (refl, tt)
replay_entry-Distinct e (x ∷ out) d =
    ground (arith, d.0, d.1, replay_entry-Distinct e out d.1, find-replay_entry e out x.id)

pub replay-Distinct : (out es : List Entry) → Distinct out → Distinct (replay out es)
unfolding replay
replay-Distinct out [] d = d
replay-Distinct out (e ∷ es) d =
    replay-Distinct (replay_entry e out) es (replay_entry-Distinct e out d)

pub find-live :
    (out : List Entry) (id : RecordId) → Distinct out → find (live out) id ≡ alive (find out id)
unfolding live
find-live [] id d = refl
find-live (e ∷ out) id d = ground (arith, find-live out id d.1, d.0)

pub live-Distinct : (out : List Entry) → Distinct out → Distinct (live out)
unfolding live
live-Distinct [] d = tt
live-Distinct (e ∷ out) d = ground (arith, live-Distinct out d.1, find-live out e.id d.1, d.0)

pub alive-alive : (o : Option Entry) → alive (alive o) ≡ alive o
alive-alive none = refl
alive-alive (some e) = ground arith

-- An entry, or what was there before.
abbrev pub or_before : Option Entry → Option Entry → Option Entry
or_before none o = o
or_before (some e) o = some e

-- Entries of distinct records say of each record what they hold of it.
pub latest-Distinct :
    (out : List Entry) (id : RecordId) (o : Option Entry)
    → Distinct out
    → latest out id o ≡ or_before (find out id) o
latest-Distinct [] id o d = refl
latest-Distinct (e ∷ out) id o d =
    latest-Distinct out id (if e.id == id then some e else o) d.1 ∙ ground (arith, d.0)

-- A list of entries decides what a record's entry is, or says nothing of the record.
latest_cases :
    (es : List Entry) (id : RecordId)
    → ((e : Entry) × ((o : Option Entry) → latest es id o ≡ some e))
      ⊎ ((o : Option Entry) → latest es id o ≡ o)
latest_cases [] id = inr (λ o. refl)
latest_cases (e ∷ es) id = elim (latest_cases es id) [
  | inl (f, decides) ↦ inl (f, λ o. decides _)
  | inr passes ↦ elim (Bool-cases (e.id == id)) [
    | inl h ↦ inl (e, λ o. rw h (passes (some e)))
    | inr h ↦ inr (λ o. rw h (passes o))
  ]
]

-- Over a base without the removals the same entries say the same of what is alive.
pub alive-latest-alive :
    (es : List Entry) (id : RecordId) (o : Option Entry)
    → alive (latest es id (alive (latest es id o))) ≡ alive (latest es id o)
alive-latest-alive es id o = elim (latest_cases es id) [
  | inl (e, decides) ↦ rw (decides (alive (latest es id o)), decides o) refl
  | inr passes ↦ rw (passes (alive (latest es id o)), passes o) (alive-alive o)
]

pub latest-append :
    (es fs : List Entry) (id : RecordId) (o : Option Entry)
    → latest (es ++ fs) id o ≡ latest fs id (latest es id o)
latest-append [] fs id o = refl
latest-append (e ∷ es) fs id o = latest-append es fs id (if e.id == id then some e else o)

-- What was dead before says nothing behind later entries either.
pub alive-latest :
    (es : List Entry) (id : RecordId) (o : Option Entry)
    → alive (latest es id (alive o)) ≡ alive (latest es id o)
alive-latest es id o = elim (latest_cases es id) [
  | inl (e, decides) ↦ rw (decides (alive o), decides o) refl
  | inr passes ↦ rw (passes (alive o), passes o) (alive-alive o)
]
