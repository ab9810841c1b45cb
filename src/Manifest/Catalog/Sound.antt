-- ===== src/Manifest/Catalog/Sound.antt =====
-- The invariant of a catalog, and the list of its entries, from which it is rebuilt.
use sennit.Prelude.{
  true, false, Option, none, some, List, [], ◌∷◌, ◌++◌, ◌≡◌, refl, ◌∙◌, sym, arith, if◌then◌else◌,
  append-nil, append_assoc, ◌==◌, Bool-cases, inl, inr, ◌||◌, Option-cases,
}
use sennit.Prelude.Keys.{number_key, contains}
use sennit.Record.{RecordId}
use sennit.Manifest.{Entry}
use sennit.Manifest.Catalog.{Catalog, empty, current, known, put_entry, put_entries}
use sennit.Manifest.Catalog.Fold.{latest, current-put_entry, current-put_entries}

abbrev pub Distinct : List RecordId → Type 0
Distinct [] = Unit
Distinct (i ∷ is) = (contains is i ≡ false) × Distinct is

-- The order names exactly the records that have an entry, each once, and each entry is its record's.
pub record IsSound (c : Catalog) : Type 0 where
  pub named : (id : RecordId) → contains c.order id ≡ known (current c id)
  pub own : (id : RecordId) (e : Entry) → current c id ≡ some e → e.id ≡ id
  pub distinct : Distinct c.order

contains-append_one :
    (is : List RecordId) (x id : RecordId)
    → contains (is ++ x ∷ []) id ≡ (contains is id || (x == id))
contains-append_one [] x id = ground arith
contains-append_one (i ∷ is) x id = ground (arith, contains-append_one is x id)

Distinct-append_one :
    (is : List RecordId) (x : RecordId)
    → Distinct is
    → contains is x ≡ false
    → Distinct (is ++ x ∷ [])
Distinct-append_one [] x d h = (refl, tt)
Distinct-append_one (i ∷ is) x d h = (
  rw (contains-append_one is x i) (ground (arith, d.0)),
  Distinct-append_one is x d.1 (ground arith),
)

pub empty-IsSound : IsSound empty
empty-IsSound = record { named = λ id. refl; own = λ id e h. absurd (cc h); distinct = tt }

pub put_entry-IsSound : (c : Catalog) (e : Entry) → IsSound c → IsSound (put_entry c e)
put_entry-IsSound c e s = record {
  named = λ id. rw (current-put_entry c e id) (
      unfold put_entry in
      elim (Bool-cases (known (current c e.id))) [
        | inl h ↦ rw h (ground (arith, s.named id, h))
        | inr h ↦ rw h (contains-append_one c.order e.id id ∙ ground (arith, s.named id))
      ]);
  own = λ id f h. ground (arith, current-put_entry c e id, s.own id f);
  distinct =
      unfold put_entry in
      elim (Bool-cases (known (current c e.id))) [
        | inl h ↦ rw h s.distinct
        | inr h ↦ rw h (Distinct-append_one c.order e.id s.distinct (s.named e.id ∙ h))
      ];
}

pub put_entries-IsSound : (c : Catalog) (es : List Entry) → IsSound c → IsSound (put_entries c es)
unfolding put_entries
put_entries-IsSound c [] s = s
put_entries-IsSound c (e ∷ es) s = put_entries-IsSound (put_entry c e) es (put_entry-IsSound c e s)

-- The entries of the records of a list, in its order.
unfoldable pub held : Catalog → List RecordId → List Entry
held c [] = []
held c (i ∷ is) = let rest = held c is in elim (current c i) [ none ↦ rest | some e ↦ e ∷ rest ]

pub held-none :
    (c : Catalog) (i : RecordId) (is : List RecordId)
    → current c i ≡ none
    → held c (i ∷ is) ≡ held c is
unfolding held
held-none c i is h = ground (arith, h)

pub held-some :
    (c : Catalog) (i : RecordId) (is : List RecordId) (e : Entry)
    → current c i ≡ some e
    → held c (i ∷ is) ≡ e ∷ held c is
unfolding held
held-some c i is e h = ground (arith, h)

-- Two catalogs that no lookup and no listing tells apart.
pub record SameCatalog (a b : Catalog) : Type 0 where
  pub currents : (id : RecordId) → current a id ≡ current b id
  pub orders : a.order ≡ b.order

latest-held :
    (c : Catalog) (is : List RecordId) (id : RecordId) (o : Option Entry)
    → IsSound c
    → ((i : RecordId) → contains is i ≡ true → known (current c i) ≡ true)
    → latest (held c is) id o ≡ (if contains is id then current c id else o)
latest-held c [] id o s all = unfold held in refl
latest-held c (i ∷ is) id o s all = elim (Option-cases (current c i)) [
  | inl h ↦ absurd (ground (arith, all i))
  | inr (e, h) ↦ rw (held-some c i is e h) (
      latest-held c is id _ s (λ j hj. all j (ground (arith, hj))) ∙ ground (arith, s.own i e h, h))
]

order-held :
    (b c : Catalog) (is : List RecordId)
    → IsSound c
    → Distinct is
    → ((i : RecordId) → contains is i ≡ true → known (current c i) ≡ true)
    → ((i : RecordId) → contains is i ≡ true → known (current b i) ≡ false)
    → (put_entries b (held c is)).order ≡ b.order ++ is
unfolding put_entries
order-held b c [] s d all new = unfold held in sym (append-nil b.order)
order-held b c (i ∷ is) s d all new = elim (Option-cases (current c i)) [
  | inl h ↦ absurd (ground (arith, all i))
  | inr (e, h) ↦
      let own = s.own i e h in
      rw (held-some c i is e h) (
        order-held (put_entry b e) c is s d.1 (λ j hj. all j (ground (arith, hj)))
          (λ j hj. rw (current-put_entry b e j) (ground (arith, hj, d.0, own, new j)))
        ∙ (unfold put_entry in
            rw own (rw (new i (ground arith)) (append_assoc b.order (i ∷ []) is))))
]

-- A catalog is rebuilt from one entry for each of its records.
pub put_entries-held :
    (c : Catalog) → IsSound c → SameCatalog (put_entries empty (held c c.order)) c
put_entries-held c s = record {
  currents = λ id.
      current-put_entries empty (held c c.order) id
      ∙ latest-held c c.order id none s all
      ∙ ground (arith, s.named id);
  orders = order-held empty c c.order s s.distinct all (λ i h. refl);
}
  where
    all : (i : RecordId) → contains c.order i ≡ true → known (current c i) ≡ true
    all i h = sym (s.named i) ∙ h
