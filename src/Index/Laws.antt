-- ===== src/Index/Laws.antt =====
-- The index as a map from records to vectors.
use sennit.Prelude.{
  ℕ, suc, ◌-◌, ◌<◌, ◌≡◌, refl, ◌∙◌, true, Option, none, some, List, [], ◌∷◌, ok, length,
  length-append, length-take, ◌==◌, if◌then◌else◌, arith, eq_iff, ◌≢◌, ltb, Option-cases,
  Bool-cases, inl, inr,
}
use sennit.Prelude.Keys.{number_key}
use sennit.Prelude.Maps.{lookup, insert, lookup-insert, lookup-delete}
use sennit.Prelude.Places.{
  get_elem?, set, length-set, get_elem?-set, get_elem?-snoc, get_elem?-take, get_elem?-lt,
  get_elem?-some,
}
use sennit.Record.{RecordId}
use sennit.Index.{Index, len, has, place, add, move_last, drop_last, remove}

-- The map and the slice of ids say the same, and each id has a row of the index's width.
pub record IsWellFormed (i : Index) : Type 0 where
  pub rows : length i.vectors ≡ length i.ids
  pub found :
      (id : RecordId) (n : ℕ) → lookup i.at_position id ≡ some n → get_elem? i.ids n ≡ some id
  pub placed :
      (id : RecordId) (n : ℕ) → get_elem? i.ids n ≡ some id → lookup i.at_position id ≡ some n
  pub widths : (n : ℕ) (v : List ℕ) → get_elem? i.vectors n ≡ some v → length v ≡ i.dim

-- The vector that the index holds for a record.
abbrev pub row_of : Option ℕ → Index → Option (List ℕ)
row_of none i = none
row_of (some n) i = get_elem? i.vectors n

abbrev pub vector_of : Index → RecordId → Option (List ℕ)
vector_of i id = row_of (lookup i.at_position id) i

module _ (i : Index) (wf : IsWellFormed i) where
  in_range : (id : RecordId) (n : ℕ) → lookup i.at_position id ≡ some n → n < length i.ids
  in_range id n h = get_elem?-lt i.ids n id (wf.found id n h)

  pub place-IsWellFormed :
      (id : RecordId) (v : List ℕ) → length v ≡ i.dim → IsWellFormed (place id v i)
  unfolding place
  place-IsWellFormed id v w = elim (Option-cases (lookup i.at_position id)) [
    | inl e ↦
        rw (e, place)
          (record {
            rows =
                omega
                  (arith, length-append i.vectors (v ∷ []), length-append i.ids (id ∷ []), wf.rows);
            found = λ j n h. ground (
              arith,
              lookup-insert i.at_position id (length i.ids) j,
              get_elem?-snoc i.ids id n,
              wf.found j n,
              in_range j n,
            );
            placed = λ j n h. ground (
              arith,
              lookup-insert i.at_position id (length i.ids) j,
              get_elem?-snoc i.ids id n,
              wf.placed j n,
              e,
            );
            widths = λ n u h. ground (arith, get_elem?-snoc i.vectors v n, wf.widths n u, w);
          })
    | inr (p, e) ↦
        rw (e, place)
          (record {
            rows = omega (arith, length-set i.vectors p v, wf.rows);
            found = wf.found;
            placed = wf.placed;
            widths = λ n u h.
                ground (
                  arith,
                  get_elem?-set i.vectors p v n,
                  in_range id p e,
                  wf.rows,
                  wf.widths n u,
                  w,
                );
          })
  ]

  vector_of-place :
      (id : RecordId) (v : List ℕ) (j : RecordId)
      → vector_of (place id v i) j ≡ (if id == j then some v else vector_of i j)
  unfolding place
  vector_of-place id v j = elim (Option-cases (lookup i.at_position id)) [
    | inl e ↦ elim (Option-cases (lookup i.at_position j)) [
      | inl f ↦
          rw (e, place)
            (ground (
              arith,
              lookup-insert i.at_position id (length i.ids) j,
              get_elem?-snoc i.vectors v (length i.ids),
              wf.rows,
              e,
              f,
            ))
      | inr (m, f) ↦
          rw (e, place)
            (ground (
              arith,
              lookup-insert i.at_position id (length i.ids) j,
              get_elem?-snoc i.vectors v (length i.ids),
              get_elem?-snoc i.vectors v m,
              in_range j m f,
              wf.rows,
              e,
              f,
            ))
    ]
    | inr (p, e) ↦ elim (Option-cases (lookup i.at_position j)) [
      | inl f ↦ rw (e, place) (ground (arith, e, f))
      | inr (m, f) ↦
          rw (e, place)
            (ground (
              arith,
              get_elem?-set i.vectors p v m,
              in_range id p e,
              wf.rows,
              wf.found id p e,
              wf.found j m f,
              e,
              f,
            ))
    ]
  ]

-- What `remove` leaves of a record at `p`, whether its row was the last one or not: the last row, of
-- `moved`, stands at `p`, and `last` rows are left.
record Withdrawn (id : RecordId) (p last : ℕ) (moved : RecordId) (i i' : Index) : Type 0 where
  dims : i'.dim ≡ i.dim
  ids_length : length i'.ids ≡ last
  vectors_length : length i'.vectors ≡ last
  ids_at :
      (n : ℕ)
      → get_elem? i'.ids n
        ≡ (if ltb n last then (if p == n then some moved else get_elem? i.ids n) else none)
  vectors_at :
      (n : ℕ)
      → get_elem? i'.vectors n ≡ (
          if ltb n last
          then (if p == n then get_elem? i.vectors last else get_elem? i.vectors n)
          else none)
  positions :
      (j : RecordId)
      → lookup i'.at_position j
        ≡ (if id == j then none else if moved == j then some p else lookup i.at_position j)

module _ (i : Index) (wf : IsWellFormed i) (id : RecordId) (p last : ℕ) (moved : RecordId)
    (here : lookup i.at_position id ≡ some p) (many : length i.ids ≡ suc last)
    (end : get_elem? i.ids last ≡ some moved) where
  moved_at : lookup i.at_position moved ≡ some last
  moved_at = wf.placed moved last end

  module _ (i' : Index) (w : Withdrawn id p last moved i i') where
    Withdrawn-IsWellFormed : IsWellFormed i'
    Withdrawn-IsWellFormed = record {
      rows = omega (arith, w.ids_length, w.vectors_length);
      found = λ j n h. ground (
        arith,
        h,
        w.positions j,
        w.ids_at n,
        wf.found j n,
        moved_at,
        in_range i wf j n,
        in_range i wf id p here,
        wf.found id p here,
        many,
      );
      placed = λ j n h.
          ground (arith, h, w.positions j, w.ids_at n, wf.placed j n, moved_at, here, many);
      widths = λ n u h. ground (arith, h, w.vectors_at n, wf.widths n u, wf.widths last u, w.dims);
    }

    Withdrawn-vector_of :
        (j : RecordId) → vector_of i' j ≡ (if id == j then none else vector_of i j)
    Withdrawn-vector_of j = elim (Option-cases (lookup i.at_position j)) [
      | inl f ↦ ground (arith, w.positions j, moved_at, f, here)
      | inr (m, f) ↦ ground (
        arith,
        w.positions j,
        w.vectors_at p,
        w.vectors_at m,
        moved_at,
        f,
        here,
        in_range i wf j m f,
        in_range i wf id p here,
        wf.found id p here,
        wf.found j m f,
        end,
        many,
      )
    ]

  drop_last-Withdrawn : p ≡ last → Withdrawn id p last moved i (drop_last id last i)
  unfolding drop_last
  drop_last-Withdrawn q = record {
    dims = refl;
    ids_length = omega (arith, length-take last i.ids, many);
    vectors_length = omega (arith, length-take last i.vectors, wf.rows, many);
    ids_at = λ n. ground (arith, get_elem?-take last i.ids n, q);
    vectors_at = λ n. ground (arith, get_elem?-take last i.vectors n, q);
    positions = λ j. ground (arith, lookup-delete i.at_position id j, wf.found id p here, end, q);
  }

  move_last-Withdrawn :
      p ≢ last → Withdrawn id p last moved i (drop_last id last (move_last p last i))
  unfolding drop_last move_last
  move_last-Withdrawn q =
      let (v, e) = get_elem?-some i.vectors last (omega (arith, wf.rows, many)) in
      let within : p < length i.ids = in_range i wf id p here in
      rw (end, e, move_last)
        (record {
          dims = refl;
          ids_length =
              omega (arith, length-take last (set i.ids p moved), length-set i.ids p moved, many);
          vectors_length = omega (
            arith,
            length-take last (set i.vectors p v),
            length-set i.vectors p v,
            wf.rows,
            many,
          );
          ids_at = λ n.
              ground
                (arith, get_elem?-take last (set i.ids p moved) n, get_elem?-set i.ids p moved n);
          vectors_at = λ n. ground (
            arith,
            get_elem?-take last (set i.vectors p v) n,
            get_elem?-set i.vectors p v n,
            wf.rows,
            e,
          );
          positions = λ j. ground (
            arith,
            lookup-delete (insert i.at_position moved p) id j,
            lookup-insert i.at_position moved p j,
          );
        })

  remove-Withdrawn : ((remove id i).1 ≡ true) × Withdrawn id p last moved i (remove id i).0
  unfolding remove
  remove-Withdrawn =
      let back : length i.ids - 1 ≡ last = omega (arith, many) in
      elim (Bool-cases (p == last)) [
        | inl q ↦ rw (here, back, q, remove) (refl, drop_last-Withdrawn (ground (arith, q)))
        | inr q ↦ rw (here, back, q, remove) (refl, move_last-Withdrawn (ground (arith, q)))
      ]

-- Putting a vector of the index's model and width succeeds and keeps the index well formed; the record
-- then has this vector, every other record has the one it had, and the index is longer by one where
-- the record is new to it.
pub add_lem :
    (i : Index) (id : RecordId) (v : List ℕ)
    → IsWellFormed i
    → length v ≡ i.dim
    → (i' : Index) × (add id i.model v i ≡ ok i')
      × IsWellFormed i'
      × ((j : RecordId) → vector_of i' j ≡ (if id == j then some v else vector_of i j))
      × (len i' ≡ (if has id i then len i else suc (len i)))
unfolding add
add_lem i id v wf w = (
  place id v i,
  ground (arith, eq_iff i.model i.model, w),
  place-IsWellFormed i wf id v w,
  vector_of-place i wf id v,
  unfold len has place in ground (arith, length-append i.ids (id ∷ [])),
)

-- Withdrawing a record reports whether the index held it and keeps the index well formed; the record
-- then has no vector, every other record has the one it had, and the index is shorter by one where it
-- held the record.
pub remove_lem :
    (i : Index) (id : RecordId)
    → IsWellFormed i
    → ((remove id i).1 ≡ has id i)
      × IsWellFormed (remove id i).0
      × ((j : RecordId) → vector_of (remove id i).0 j ≡ (if id == j then none else vector_of i j))
      × (len i ≡ (if has id i then suc (len (remove id i).0) else len (remove id i).0))
unfolding remove has
remove_lem i id wf = elim (Option-cases (lookup i.at_position id)) [
  | inl e ↦ rw (e, remove, has) (refl, wf, (λ j. ground (arith, e)), refl)
  | inr (p, e) ↦
      let within : p < length i.ids = in_range i wf id p e in
      let last = length i.ids - 1 in
      let (moved, end) = get_elem?-some i.ids last (omega (arith, within)) in
      let many : length i.ids ≡ suc last = omega (arith, within) in
      let (said, w) = remove-Withdrawn i wf id p last moved e many end in
      (
        said ∙ rw (e, has) refl,
        Withdrawn-IsWellFormed i wf id p last moved e many end (remove id i).0 w,
        Withdrawn-vector_of i wf id p last moved e many end (remove id i).0 w,
        (let held : has id i ≡ true = rw (e, has) refl in
            rw (held, if◌then◌else◌) (unfold len in omega (arith, w.ids_length, many))),
      )
]
