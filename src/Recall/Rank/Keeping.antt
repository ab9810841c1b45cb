-- ===== src/Recall/Rank/Keeping.antt =====
-- What the ranking keeps and in which order, and that a filter takes nothing away.
use Prim.Native.Nat.{min}
use sennit.Prelude.{
  ℕ, ◌+◌, ◌-◌, ◌<◌, ◌≤◌, ◌⊎◌, String, Bool, true, false, ◌||◌, Option, none, some, List, [], ◌∷◌,
  ◌++◌, length, take, drop, if◌then◌else◌, ◌≡◌, refl, sym, ap, ◌∙◌, subst, arith, length-take,
  take-append-drop, take_all, All, All-take, Bool-cases, inl, inr,
}
use sennit.Prelude.Counts.{SameItems, All-none, number, number_all, number-map}
use sennit.Prelude.Sorting.{sort_by, sort_by-SameItems, sort_by-OrderedBy, OrderedBy, IsStrictOrder}
use sennit.Record.{RecordId}
use sennit.Recall.{Float32, Filter, Weights, Meta, Candidate, Request}
use sennit.Recall.Rank.{
  Described, Dropped, boost_by, is_superseded, is_out_of_scope, keep, count_dropped, before, rank,
}
use sennit.Recall.Fuse.Union.{ids_of}

module _ {S : Type 0} (f : Float32 S) (normalize : String → String) where
  before-IsStrictOrder : IsStrictOrder (before f normalize)
  unfolding before
  before-IsStrictOrder = record {
    asymmetric = λ x y h. ground (arith, h);
    splits = λ x y z h g. ground (arith, h, g);
  }

  -- Every candidate is counted once.
  length-keep :
      (req : Request S) (known : Described) (cs : List (Candidate S))
      → length (keep f normalize req known cs)
          + (count_dropped f normalize req known cs).superseded
          + (count_dropped f normalize req known cs).out_of_scope
        ≡ length cs
  unfolding keep count_dropped
  length-keep req known [] = refl
  length-keep req known (c ∷ cs) = ground (arith, length-keep req known cs)

  id-boost_by :
      (req : Request S) (c : Candidate S) (m : Option Meta)
      → (boost_by f normalize req c m).id ≡ c.id
  id-boost_by req c none = refl
  id-boost_by req c (some meta) = ground arith

  -- Whether one of the two tests drops a candidate.
  abbrev pub is_dropped : Request S → Described → Candidate S → Bool
  is_dropped req known c =
      is_superseded f normalize req known c || is_out_of_scope f normalize req known c

  boost_by-is_dropped :
      (req : Request S) (known : Described) (c : Candidate S) (m : Option Meta)
      → is_dropped req known (boost_by f normalize req c m) ≡ is_dropped req known c
  unfolding is_superseded is_out_of_scope
  boost_by-is_dropped req known c m = rw (id-boost_by req c m) refl

  none_dropped :
      (req : Request S) (known : Described) (cs : List (Candidate S))
      → number (is_dropped req known) (keep f normalize req known cs) ≡ 0
  unfolding keep
  none_dropped req known [] = refl
  none_dropped req known (c ∷ cs) = elim (Bool-cases (is_superseded f normalize req known c)) [
    | inl e ↦ rw (e, if◌then◌else◌) (none_dropped req known cs)
    | inr e ↦ elim (Bool-cases (is_out_of_scope f normalize req known c)) [
      | inl g ↦ rw (e, g, if◌then◌else◌) (none_dropped req known cs)
      | inr g ↦
          rw (e, g, if◌then◌else◌)
            (ground (
              arith,
              boost_by-is_dropped req known c (known.meta c.id),
              e,
              g,
              none_dropped req known cs,
            ))
    ]
  ]

  ids-keep :
      (req : Request S) (filter : Filter) (w : Weights S) (known : Described)
      (cs : List (Candidate S))
      → ids_of (keep f normalize (record req { filter = filter; weights = w }) known cs)
        ≡ ids_of (keep f normalize req known cs)
  unfolding keep is_superseded is_out_of_scope
  ids-keep req filter w known [] = refl
  ids-keep req filter w known (c ∷ cs) = ground (
    arith,
    ids-keep req filter w known cs,
    id-boost_by req c (known.meta c.id),
    id-boost_by (record req { filter = filter; weights = w }) c (known.meta c.id),
  )

  dropped-filter :
      (req : Request S) (filter : Filter) (w : Weights S) (known : Described)
      (cs : List (Candidate S))
      → count_dropped f normalize (record req { filter = filter; weights = w }) known cs
        ≡ count_dropped f normalize req known cs
  unfolding count_dropped is_superseded is_out_of_scope
  dropped-filter req filter w known [] = refl
  dropped-filter req filter w known (c ∷ cs) = rw (dropped-filter req filter w known cs) refl

  -- A candidate that may stand behind another: it scores less, or as much with no smaller identifier.
  abbrev pub IsBehind : Candidate S → Candidate S → Type 0
  IsBehind x y =
      (f.place y.score < f.place x.score) ⊎ ((f.place y.score ≡ f.place x.score) × (x.id ≤ y.id))

  abbrev pub IsRanked : List (Candidate S) → Type 0
  IsRanked [] = Unit {0}
  IsRanked (x ∷ cs) = All (IsBehind x) cs × IsRanked cs

  not_before : (x y : Candidate S) → before f normalize y x ≡ false → IsBehind x y
  unfolding before
  not_before x y h = ground (arith, h)

  IsBehind-All :
      (x : Candidate S) (cs : List (Candidate S))
      → All (λ y. before f normalize y x ≡ false) cs
      → All (IsBehind x) cs
  IsBehind-All x [] h = tt
  IsBehind-All x (y ∷ cs) h = (not_before x y h.0, IsBehind-All x cs h.1)

  OrderedBy-IsRanked : (cs : List (Candidate S)) → OrderedBy (before f normalize) cs → IsRanked cs
  OrderedBy-IsRanked [] h = tt
  OrderedBy-IsRanked (x ∷ cs) h =
      (IsBehind-All x cs (All-none (λ y. before f normalize y x) cs h.0), OrderedBy-IsRanked cs h.1)

  abbrev kept : List (Candidate S) → Described → Request S → List (Candidate S)
  kept cs known req = keep f normalize req known cs

  -- The ranking returns as many candidates as the limit allows, of all those that it did not count as
  -- dropped; none of them is superseded, unless these are asked for, or out of the scope. With the
  -- ones that it leaves out they are the kept candidates, each as often, in the order of their scores
  -- and, where these are equal, of their identifiers: none left out comes before one returned.
  pub rank_lem :
      (cs : List (Candidate S)) (known : Described) (req : Request S) (k : ℕ)
      → (length (rank f normalize cs known req k).0
          ≡ min k (
              length cs
              - (rank f normalize cs known req k).1.superseded
              - (rank f normalize cs known req k).1.out_of_scope))
        × All (λ c. is_dropped req known c ≡ false) (rank f normalize cs known req k).0
        × ((lost : List (Candidate S)) × SameItems
              ((rank f normalize cs known req k).0 ++ lost)
              (keep f normalize req known cs)
            × IsRanked ((rank f normalize cs known req k).0 ++ lost))
  unfolding rank
  rank_lem cs known req k =
      let sorted = sort_by (before f normalize) (kept cs known req) in
      let same : SameItems sorted (kept cs known req) =
        sort_by-SameItems (before f normalize) (kept cs known req) in
      let joined : take k sorted ++ drop k sorted ≡ sorted = take-append-drop k sorted in
      (
        omega (
          arith,
          length-take k sorted,
          number_all sorted,
          number_all (kept cs known req),
          same (λ c. true),
          length-keep req known cs,
        ),
        All-take (λ c. is_dropped req known c ≡ false) k sorted
            (All-none (is_dropped req known) sorted
              (same (is_dropped req known) ∙ none_dropped req known cs)),
        (
          drop k sorted,
          subst (λ l. SameItems l (kept cs known req)) (sym joined) same,
          subst IsRanked (sym joined) (
              OrderedBy-IsRanked sorted
                (sort_by-OrderedBy (before f normalize) before-IsStrictOrder (kept cs known req))),
        ),
      )

  rank-dropped :
      (cs : List (Candidate S)) (known : Described) (req : Request S) (filter : Filter)
      (w : Weights S) (k : ℕ)
      → (rank f normalize cs known (record req { filter = filter; weights = w }) k).1
        ≡ (rank f normalize cs known req k).1
  unfolding rank
  rank-dropped cs known req filter w k = dropped-filter req filter w known cs

  -- A limit of the whole pool cuts nothing.
  whole_pool :
      (cs : List (Candidate S)) (known : Described) (req : Request S) (p : RecordId → Bool)
      → number p (ids_of (rank f normalize cs known req (length cs)).0)
        ≡ number p (ids_of (keep f normalize req known cs))
  unfolding rank
  whole_pool cs known req p =
      let sorted = sort_by (before f normalize) (kept cs known req) in
      let same : SameItems sorted (kept cs known req) =
        sort_by-SameItems (before f normalize) (kept cs known req) in
      rw
        (take_all (length cs) sorted (
          omega (
            arith,
            number_all sorted,
            number_all (kept cs known req),
            same (λ c. true),
            length-keep req known cs,
          )))
        (number-map (λ (c : Candidate S). c.id) p sorted
          ∙ same (λ (c : Candidate S). p c.id)
          ∙ sym (number-map (λ (c : Candidate S). c.id) p (kept cs known req)))

  -- A filter, of any weights, takes nothing away. The ranking with it returns as many candidates as
  -- the ranking with another filter, and drops as many for either reason; and where the limit is the
  -- whole pool, it returns the same records, each as often.
  pub rank-filter :
      (cs : List (Candidate S)) (known : Described) (req : Request S) (filter : Filter)
      (w : Weights S) (k : ℕ)
      → (length (rank f normalize cs known (record req { filter = filter; weights = w }) k).0
          ≡ length (rank f normalize cs known req k).0)
        × ((rank f normalize cs known (record req { filter = filter; weights = w }) k).1
            ≡ (rank f normalize cs known req k).1)
        × SameItems
            (ids_of
              (rank f normalize cs known
                (record req { filter = filter; weights = w })
                (length cs)).0)
            (ids_of (rank f normalize cs known req (length cs)).0)
  rank-filter cs known req filter w k =
      let req' = record req { filter = filter; weights = w } in
      let drops : (rank f normalize cs known req' k).1 ≡ (rank f normalize cs known req k).1 =
        rank-dropped cs known req filter w k in
      (
        (rank_lem cs known req' k).0
            ∙ ap (λ (d : Dropped). min k (length cs - d.superseded - d.out_of_scope)) drops
            ∙ sym (rank_lem cs known req k).0,
        drops,
        (λ p.
            whole_pool cs known req' p
            ∙ ap (number p) (ids-keep req filter w known cs)
            ∙ sym (whole_pool cs known req p)),
      )
