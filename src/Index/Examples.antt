-- ===== src/Index/Examples.antt =====
-- A concrete index and a heap of the plainest kind, and the theorems at concrete inputs.
use sennit.Prelude.{
  ℕ, suc, ◌+◌, ◌*◌, ◌≡◌, refl, sym, subst, Option, none, some, List, [], ◌∷◌, ◌++◌, ok, take, ltb,
  ◌==◌, Bool-cases, inl, inr, if◌then◌else◌, arith,
}
use sennit.Prelude.Keys.{number_key}
use sennit.Prelude.Counts.{SameItems, sort_desc}
use sennit.Record.{RecordId}
use sennit.Index.{Index, new_index, len, has, place, add, remove, move_last, drop_last}
use sennit.Index.Laws.{IsWellFormed, place-IsWellFormed, vector_of, add_lem, remove_lem}
use sennit.Index.Search.{Match, MinHeap, NoneBelow, Least, scored, search, consider, drain}
use sennit.Index.Search.Drain.{scores}
use sennit.Index.Search.Nearest.{search-eq-sorted}

-- The least of a match and the matches of a list, with the others.
abbrev extract : Match → List Match → Match × List Match
extract m [] = (m, [])
extract m (x ∷ l) =
    let below = extract x l in
    let kept = extract m l in
    if ltb x.score m.score then (below.0, m ∷ below.1) else (kept.0, x ∷ kept.1)

abbrev least_of : List Match → Option Match
least_of [] = none
least_of (m ∷ l) = some (extract m l).0

abbrev others : List Match → List Match
others [] = []
others (m ∷ l) = (extract m l).1

items-extract : (m : Match) (l : List Match) → SameItems ((extract m l).0 ∷ (extract m l).1) (m ∷ l)
items-extract m [] p = refl
items-extract m (x ∷ l) p = ground (arith, items-extract x l p, items-extract m l p)

extract_least : (m : Match) (l : List Match) → NoneBelow (extract m l).0.score (m ∷ l)
extract_least m [] = ground arith
extract_least m (x ∷ l) = elim (Bool-cases (ltb x.score m.score)) [
  | inl e ↦
      let q : (extract m (x ∷ l)).0 ≡ (extract x l).0 = rw (e, if◌then◌else◌) refl in
      subst (λ (b : Match). NoneBelow b.score (m ∷ x ∷ l)) (sym q)
        (ground (arith, e, extract_least x l))
  | inr e ↦
      let q : (extract m (x ∷ l)).0 ≡ (extract m l).0 = rw (e, if◌then◌else◌) refl in
      subst (λ (b : Match). NoneBelow b.score (m ∷ x ∷ l)) (sym q)
        (ground (arith, e, extract_least m l))
]

least_of-Least : (h : List Match) → Least (least_of h) h
least_of-Least [] = refl
least_of-Least (m ∷ l) = extract_least m l

items-others : (m : Match) (h : List Match) → least_of h ≡ some m → SameItems (m ∷ others h) h
items-others m [] e p = absurd (ground arith)
items-others m (x ∷ l) e p = ground (arith, e, items-extract x l p)

abbrev list_heap : MinHeap (List Match)
list_heap = record {
  items = λ h. h;
  empty = [];
  push = ◌∷◌;
  first = least_of;
  fix_first = λ x h. x ∷ others h;
  rest = others;
  items_empty = refl;
  items-push = λ m h p. refl;
  first_least = least_of-Least;
  items-fix_first = λ m x h e p. omega (arith, items-others m h e p);
  items-rest = items-others;
}

abbrev no_index : Index
no_index = record { dim = 2; model = "m"; ids = []; vectors = []; at_position = [] }

new_index_lem : new_index "m" 2 ≡ no_index
unfolding new_index
new_index_lem = refl

no_index-IsWellFormed : IsWellFormed no_index
no_index-IsWellFormed = record {
  rows = refl;
  found = λ id n h. absurd (ground arith);
  placed = λ id n h. absurd (ground arith);
  widths = λ n v h. absurd (ground arith);
}

abbrev pub one_index : Index
one_index = place 7 (1 ∷ 2 ∷ []) no_index

pub one_index-IsWellFormed : IsWellFormed one_index
one_index-IsWellFormed = place-IsWellFormed no_index no_index-IsWellFormed 7 (1 ∷ 2 ∷ []) refl

abbrev three_index : Index
three_index = place 4 (5 ∷ 6 ∷ []) (place 9 (3 ∷ 4 ∷ []) one_index)

three_rows : three_index.vectors ≡ (1 ∷ 2 ∷ []) ∷ (3 ∷ 4 ∷ []) ∷ (5 ∷ 6 ∷ []) ∷ []
unfolding place
three_rows = refl

moved_rows : (remove 7 three_index).0.ids ≡ 4 ∷ 9 ∷ []
unfolding place remove move_last drop_last
moved_rows = refl

add_lem_example :
    (i' : Index) × (add 9 "m" (3 ∷ 4 ∷ []) no_index ≡ ok i')
    × IsWellFormed i'
    × ((j : RecordId)
        → vector_of i' j ≡ (if 9 == j then some (3 ∷ 4 ∷ []) else vector_of no_index j))
    × (len i' ≡ (if has 9 no_index then len no_index else suc (len no_index)))
add_lem_example = add_lem no_index 9 (3 ∷ 4 ∷ []) no_index-IsWellFormed refl

remove_lem_example :
    ((remove 7 one_index).1 ≡ has 7 one_index)
    × IsWellFormed (remove 7 one_index).0
    × ((j : RecordId)
        → vector_of (remove 7 one_index).0 j ≡ (if 7 == j then none else vector_of one_index j))
    × (len one_index ≡ (
        if has 7 one_index then suc (len (remove 7 one_index).0) else len (remove 7 one_index).0))
remove_lem_example = remove_lem one_index 7 one_index-IsWellFormed

abbrev dot : List ℕ → List ℕ → ℕ
dot (a ∷ xs) (b ∷ ys) = a * b + dot xs ys
dot [] ys = 0
dot (a ∷ xs) [] = 0

abbrev pair_index : Index
pair_index = record {
  dim = 2;
  model = "m";
  ids = 7 ∷ 9 ∷ 4 ∷ [];
  vectors = (1 ∷ 2 ∷ []) ∷ (5 ∷ 6 ∷ []) ∷ (3 ∷ 4 ∷ []) ∷ [];
  at_position = [];
}

nearest_two :
    search list_heap dot (1 ∷ 1 ∷ []) 2 pair_index
    ≡ ok (record { id = 9; score = 11 } ∷ record { id = 4; score = 7 } ∷ [])
unfolding search consider drain scored
nearest_two = refl

search-eq-sorted_example :
    (out : List Match) × (search list_heap dot (1 ∷ 1 ∷ []) 2 pair_index ≡ ok out)
    × (scores out
        ≡ take 2 (sort_desc (scores (scored (dot (1 ∷ 1 ∷ [])) pair_index.ids pair_index.vectors))))
    × ((lost : List Match) × SameItems
          (out ++ lost)
          (scored (dot (1 ∷ 1 ∷ [])) pair_index.ids pair_index.vectors))
search-eq-sorted_example = search-eq-sorted list_heap dot (1 ∷ 1 ∷ []) 2 pair_index refl
