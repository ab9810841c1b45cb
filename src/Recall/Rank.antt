-- ===== src/Recall/Rank.antt =====
-- recall/filter.go and `rank` of recall/pipeline.go: what a candidate is worth, which candidates are
-- held back, and the order.
pub mod Keeping
use sennit.Prelude.{
  ℕ, zero, suc, ◌+◌, String, Bool, true, false, not, ◌&&◌, ◌||◌, Option, none, some, List, [], ◌∷◌,
  length, take, map, ltb, ◌==◌, str_eq, if◌then◌else◌,
}
use sennit.Prelude.Keys.{text_key, contains}
use sennit.Prelude.Sorting.{sort_by}
use sennit.Record.{RecordId, Kind}
use sennit.Recall.{Float32, greater, equal, ratio, Filter, Weights, Meta, Candidate, Request}

abbrev is_nil {ℓ} : {A : Type ℓ} → List A → Bool
is_nil [] = true
is_nil (x ∷ xs) = false

-- `func (f Filter) Empty() bool`
unfoldable pub is_empty : Filter → Bool
is_empty filter = is_nil filter.types && is_nil filter.tags

-- `type Described struct`: a map that a record may not be in, and a set.
pub record Described : Type 0 where
  pub meta : RecordId → Option Meta
  pub superseded : RecordId → Bool

-- `type dropped struct`
pub record Dropped : Type 0 where
  pub superseded : ℕ
  pub out_of_scope : ℕ

-- How many of the wanted tags are carried. `normalize` is `normalizeTag`, lower case without the space
-- around.
unfoldable pub matched : (String → String) → List String → List String → ℕ
matched normalize carried [] = 0
matched normalize carried (want ∷ wants) =
    let rest = matched normalize carried wants in
    if contains carried (normalize want) then suc rest else rest

-- `func inScope(scope []record.Kind, kind record.Kind, described bool) bool`
unfoldable pub in_scope : List Kind → Option Meta → Bool
in_scope scope none = false
in_scope scope (some meta) = contains scope meta.kind

module _ {S : Type 0} (f : Float32 S) (normalize : String → String) where
  -- `var DefaultWeights`
  abbrev pub default_weights : Weights S
  default_weights = record { tag = ratio f 2 1000; type_weight = ratio f 67 100000 }

  -- `func (w Weights) orDefault() Weights`
  unfoldable pub or_default : Weights S → Weights S
  or_default w =
      if equal f w.tag (f.of_nat 0) && equal f w.type_weight (f.of_nat 0)
      then default_weights
      else w

  -- The sum of `boost` over the tags.
  unfoldable pub tag_boost : Filter → Weights S → Meta → S
  unfolding matched
  tag_boost filter w meta =
      if is_nil filter.tags
      then f.of_nat 0
      else f.add (f.of_nat 0) (
          f.div (f.mul w.tag (f.of_nat (matched normalize (map normalize meta.tags) filter.tags)))
            (f.of_nat (length filter.tags)))

  -- `func (f Filter) boost(w Weights, meta Meta) float32`
  unfoldable pub boost : Filter → Weights S → Meta → S
  unfolding is_empty or_default tag_boost
  boost filter w meta =
      if is_empty filter
      then f.of_nat 0
      else if contains filter.types meta.type_name
      then f.add (tag_boost filter (or_default w) meta) (or_default w).type_weight
      else tag_boost filter (or_default w) meta

  abbrev pub boost_by : Request S → Candidate S → Option Meta → Candidate S
  boost_by req c none = c
  boost_by req c (some meta) =
      let b = boost req.filter (or_default req.weights) meta in
      if is_empty req.filter then c else record c { boost = b; score = f.add c.score b }

  -- The test of the loop of `rank`: what drops a candidate.
  unfoldable pub is_superseded : Request S → Described → Candidate S → Bool
  is_superseded req known c = not req.include_superseded && known.superseded c.id

  unfoldable pub is_out_of_scope : Request S → Described → Candidate S → Bool
  unfolding in_scope
  is_out_of_scope req known c = not (is_nil req.scope) && not (in_scope req.scope (known.meta c.id))

  -- The loop of `rank`: the candidates that are kept, with their boosts, and the counts.
  unfoldable pub keep : Request S → Described → List (Candidate S) → List (Candidate S)
  unfolding is_superseded is_out_of_scope boost
  keep req known [] = []
  keep req known (c ∷ cs) =
      let rest = keep req known cs in
      if is_superseded req known c
      then rest
      else if is_out_of_scope req known c
      then rest
      else boost_by req c (known.meta c.id) ∷ rest

  unfoldable pub count_dropped : Request S → Described → List (Candidate S) → Dropped
  unfolding is_superseded is_out_of_scope
  count_dropped req known [] = record { superseded = 0; out_of_scope = 0 }
  count_dropped req known (c ∷ cs) =
      let rest = count_dropped req known cs in
      if is_superseded req known c
      then record rest { superseded = suc rest.superseded }
      else if is_out_of_scope req known c
      then record rest { out_of_scope = suc rest.out_of_scope }
      else rest

  -- The order of the sort: the higher score first, and of two equal ones the smaller identifier.
  unfoldable pub before : Candidate S → Candidate S → Bool
  before a b = if equal f a.score b.score then ltb a.id b.id else greater f a.score b.score

  -- `func rank(fused []candidate, known Described, req Request, k int) ([]candidate, dropped)`
  unfoldable pub rank :
      List (Candidate S) → Described → Request S → ℕ → List (Candidate S) × Dropped
  unfolding keep count_dropped before sort_by
  rank fused known req k =
      (take k (sort_by before (keep req known fused)), count_dropped req known fused)
