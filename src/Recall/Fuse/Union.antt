-- ===== src/Recall/Fuse/Union.antt =====
-- Who is among the candidates: whatever either pass returned, each record once.
use sennit.Prelude.{
  ℕ, suc, ◌≡◌, refl, ◌∙◌, ap, sym, true, false, ◌||◌, List, [], ◌∷◌, ◌++◌, map, arith,
  if◌then◌else◌, ◌==◌, Bool-cases, inl, inr,
}
use sennit.Prelude.Keys.{number_key, contains}
use sennit.Record.{RecordId}
use sennit.Recall.{Float32, Candidate}
use sennit.Recall.Fuse.{
  Match, contribution, of_matches, contribute, add_lexical, add_all, scored, fuse,
}

module _ {S : Type 0} where
  abbrev pub ids_of : List (Candidate S) → List RecordId
  ids_of cs = map (λ (c : Candidate S). c.id) cs

  abbrev pub match_ids : List (Match S) → List RecordId
  match_ids ms = map (λ (m : Match S). m.id) ms

-- How often a record stands in a list.
abbrev pub times : List RecordId → ℕ → ℕ
times [] j = 0
times (id ∷ ids) j = if id == j then suc (times ids j) else times ids j

-- The records of a second ranking that a first one does not have, in its order, each once.
unfoldable pub join : List RecordId → List RecordId → List RecordId
join ids [] = ids
join ids (id ∷ more) = join (if contains ids id then ids else ids ++ id ∷ []) more

contains-snoc :
    (ids : List RecordId) (id j : RecordId)
    → contains (ids ++ id ∷ []) j ≡ contains ids j || (id == j)
contains-snoc [] id j = ground arith
contains-snoc (x ∷ ids) id j = ground (arith, contains-snoc ids id j)

==_to : (a b : ℕ) → (a == b) ≡ true → a ≡ b
==_to a b h = ground (arith, h)

times-snoc :
    (ids : List RecordId) (id j : RecordId)
    → times (ids ++ id ∷ []) j ≡ (if id == j then suc (times ids j) else times ids j)
times-snoc [] id j = refl
times-snoc (x ∷ ids) id j = ground (arith, times-snoc ids id j)

times-absent : (ids : List RecordId) (j : RecordId) → contains ids j ≡ false → times ids j ≡ 0
times-absent [] j h = refl
times-absent (x ∷ ids) j h = ground (arith, h, times-absent ids j)

pub contains-join :
    (ids more : List RecordId) (j : RecordId)
    → contains (join ids more) j ≡ contains ids j || contains more j
unfolding join
contains-join ids [] j = ground arith
contains-join ids (id ∷ more) j = ground (
  arith,
  contains-join (if contains ids id then ids else ids ++ id ∷ []) more j,
  contains-snoc ids id j,
)

-- A joined list has the first one's records as often as it has them, and the others once.
times-join :
    (ids more : List RecordId) (j : RecordId)
    → times (join ids more) j
      ≡ (if contains ids j then times ids j else if contains more j then 1 else 0)
unfolding join
times-join ids [] j = ground (arith, times-absent ids j)
times-join ids (id ∷ more) j = elim (Bool-cases (contains ids id)) [
  | inl e ↦ elim (Bool-cases (id == j)) [
    | inl q ↦
        let here : contains ids j ≡ true = ap (contains ids) (sym (==_to id j q)) ∙ e in
        rw (e, if◌then◌else◌) (times-join ids more j ∙ ground (arith, here))
    | inr q ↦ rw (e, if◌then◌else◌) (times-join ids more j ∙ ground (arith, q))
  ]
  | inr e ↦ elim (Bool-cases (id == j)) [
    | inl q ↦
        let none_here : contains ids j ≡ false = ap (contains ids) (sym (==_to id j q)) ∙ e in
        rw (e, if◌then◌else◌)
          (times-join (ids ++ id ∷ []) more j
            ∙ ground (
              arith,
              q,
              none_here,
              contains-snoc ids id j,
              times-snoc ids id j,
              times-absent ids j,
            ))
    | inr q ↦
        rw (e, if◌then◌else◌)
          (times-join (ids ++ id ∷ []) more j
            ∙ ground (arith, q, contains-snoc ids id j, times-snoc ids id j))
  ]
]

module _ {S : Type 0} (f : Float32 S) where
  id-contribute : (c : S) (x : Candidate S) → (contribute f c x).id ≡ x.id
  id-contribute c x = ground arith

  ids-add_lexical :
      (id : RecordId) (c : S) (xs : List (Candidate S))
      → ids_of (add_lexical f id c xs)
        ≡ (if contains (ids_of xs) id then ids_of xs else ids_of xs ++ id ∷ [])
  unfolding add_lexical
  ids-add_lexical id c [] = refl
  ids-add_lexical id c (x ∷ xs) = ground (arith, ids-add_lexical id c xs, id-contribute c x)

  ids-add_all :
      (weight : S) (rank : ℕ) (ids : List RecordId) (xs : List (Candidate S))
      → ids_of (add_all f weight rank ids xs) ≡ join (ids_of xs) ids
  unfolding add_all join
  ids-add_all weight rank [] xs = refl
  ids-add_all weight rank (id ∷ ids) xs =
      ids-add_all weight (suc rank) ids (add_lexical f id (contribution f weight rank) xs)
      ∙ ap (λ l. join l ids) (ids-add_lexical id (contribution f weight rank) xs)

  ids-of_matches : (i : ℕ) (ms : List (Match S)) → ids_of (of_matches f i ms) ≡ match_ids ms
  unfolding of_matches
  ids-of_matches i [] = refl
  ids-of_matches i (m ∷ ms) = ap (◌∷◌ m.id) (ids-of_matches (suc i) ms)

  ids-scored : (xs : List (Candidate S)) → ids_of (scored f xs) ≡ ids_of xs
  unfolding scored
  ids-scored [] = refl
  ids-scored (x ∷ xs) = ap (◌∷◌ x.id) (unfold scored in ids-scored xs)

  -- The records of the candidates are those of the vector pass, one for each of its matches and in their
  -- order, and then those that only the lexical pass found, in its order and each once: whatever either
  -- pass returned is there, and nothing else is. Every record has a candidate as often as the vector
  -- pass has matches of it, and one where only the lexical pass has it.
  pub fuse_lem :
      (ms : List (Match S)) (lexical : List RecordId) (weight : S)
      → (ids_of (fuse f ms lexical weight) ≡ join (match_ids ms) lexical)
        × ((j : RecordId)
            → contains (ids_of (fuse f ms lexical weight)) j
              ≡ contains (match_ids ms) j || contains lexical j)
        × ((j : RecordId)
            → times (ids_of (fuse f ms lexical weight)) j ≡ (
                if contains (match_ids ms) j
                then times (match_ids ms) j
                else if contains lexical j
                then 1
                else 0))
  unfolding fuse
  fuse_lem ms lexical weight =
      let all : ids_of (fuse f ms lexical weight) ≡ join (match_ids ms) lexical =
        ids-scored (add_all f weight 0 lexical (of_matches f 0 ms))
        ∙ ids-add_all weight 0 lexical (of_matches f 0 ms)
        ∙ ap (λ l. join l lexical) (ids-of_matches 0 ms) in
      (
        all,
        (λ j. ap (λ l. contains l j) all ∙ contains-join (match_ids ms) lexical j),
        (λ j. ap (λ l. times l j) all ∙ times-join (match_ids ms) lexical j),
      )
