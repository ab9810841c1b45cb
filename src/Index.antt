-- ===== src/Index.antt =====
-- index/index.go: the matrix of vectors that a search runs over. A `float32` is the number that
-- `math.Float32bits` gives, and the flat slice is the list of its rows, each `dim` wide: row `n` is
-- `vectors[n*dim : (n+1)*dim]`.
pub mod Laws
pub mod Search
pub mod Persist
pub mod Delta
pub mod Files
pub mod Examples
use sennit.Prelude.{
  ℕ, suc, ◌+◌, ◌-◌, ◌≡◌, String, Bool, true, false, not, Option, none, some, List, [], ◌∷◌, ◌++◌,
  Result, ok, err, length, take, ◌==◌, str_eq, if◌then◌else◌, All,
}
use sennit.Prelude.Keys.{number_key}
use sennit.Prelude.Maps.{lookup, insert, delete}
use sennit.Prelude.Places.{get_elem?, set}
use sennit.Record.{RecordId}

-- `type Index struct`; `at_position` is the field `at`.
pub record Index : Type 0 where
  pub dim : ℕ
  pub model : String
  pub ids : List RecordId
  pub vectors : List (List ℕ)
  pub at_position : List (RecordId × ℕ)

-- `foreign_model` is `ErrForeignModel`; `wrong_dimension` is the message on the vector's width.
pub data Fault : Type 0 where
  foreign_model wrong_dimension : Fault

-- `func New(model string, dim int) *Index`
unfoldable pub new_index : String → ℕ → Index
new_index model dim = record { dim = dim; model = model; ids = []; vectors = []; at_position = [] }

-- `func (i *Index) Len() int`
unfoldable pub len : Index → ℕ
len i = length i.ids

-- `func (i *Index) Has(id record.ID) bool`
unfoldable pub has : RecordId → Index → Bool
has id i = elim (lookup i.at_position id) [ none ↦ false | some position ↦ true ]

-- The part of `Add` that has the lock: the vector replaces the record's, or is put last.
unfoldable pub place : RecordId → List ℕ → Index → Index
place id vector i = elim (lookup i.at_position id) [
  | some position ↦ record i { vectors = set i.vectors position vector }
  | none ↦ record i {
    at_position = insert i.at_position id (length i.ids);
    ids = i.ids ++ id ∷ [];
    vectors = i.vectors ++ vector ∷ [];
  }
]

-- `func (i *Index) Add(id record.ID, model string, vector []float32) error`
unfoldable pub add : RecordId → String → List ℕ → Index → Result Fault Index
unfolding place
add id model vector i =
    if not (str_eq model i.model)
    then err foreign_model
    else if not (length vector == i.dim)
    then err wrong_dimension
    else ok (place id vector i)

-- The last record, moved into the gap at `position`. In an index that is well formed something stands
-- at `last`, in both slices (`Laws.IsWellFormed`).
unfoldable pub move_last : ℕ → ℕ → Index → Index
move_last position last i = elim (get_elem? i.ids last) [
  | none ↦ i
  | some moved ↦ elim (get_elem? i.vectors last) [
    | none ↦ i
    | some vector ↦ record i {
      ids = set i.ids position moved;
      at_position = insert i.at_position moved position;
      vectors = set i.vectors position vector;
    }
  ]
]

-- The end of `Remove`: the record goes from the map, and the last row from the slices.
unfoldable pub drop_last : RecordId → ℕ → Index → Index
drop_last id last i = record i {
  at_position = delete i.at_position id;
  ids = take last i.ids;
  vectors = take last i.vectors;
}

-- `func (i *Index) Remove(id record.ID) bool`
unfoldable pub remove : RecordId → Index → Index × Bool
unfolding move_last drop_last
remove id i = elim (lookup i.at_position id) [
  | none ↦ (i, false)
  | some position ↦
      let last = length i.ids - 1 in
      (drop_last id last (if position == last then i else move_last position last i), true)
]
