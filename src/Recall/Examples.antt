-- ===== src/Recall/Examples.antt =====
-- Scores as numbers of millionths, a concrete pool, and the theorems at concrete inputs.
use Prim.Native.Nat.{min}
use sennit.Prelude.{
  if◌then◌else◌, ℕ, ◌+◌, ◌-◌, ◌*◌, ◌/◌, ◌≡◌, refl, String, false, ◌||◌, some, List, [], ◌∷◌, ◌++◌,
  length, ◌==◌, All,
}
use sennit.Prelude.Keys.{number_key, contains}
use sennit.Prelude.Counts.{SameItems}
use sennit.Record.{RecordId}
use sennit.Recall.{Float32, Filter, Weights, Candidate, Request}
use sennit.Recall.Fuse.{Match, fuse, scored, add_all, add_lexical, of_matches, contribution}
use sennit.Recall.Fuse.Union.{ids_of, match_ids, times, join, fuse_lem}
use sennit.Recall.Rank.{Described, rank, keep}
use sennit.Recall.Rank.Keeping.{is_dropped, IsRanked, rank_lem, rank-filter}

abbrev millionths : Float32 ℕ
millionths = record {
  of_nat = λ n. n * 1000000;
  add = ◌+◌;
  mul = λ a b. a * b / 1000000;
  div = λ a b. a * 1000000 / b;
  place = λ a. a;
}

abbrev as_typed : String → String
as_typed s = s

abbrev two_matches : List (Match ℕ)
two_matches = record { id = 3; score = 900000 } ∷ record { id = 5; score = 800000 } ∷ []

-- Record 5 was found by both passes, record 8 by the words alone.
abbrev pool : List (Candidate ℕ)
pool = fuse millionths two_matches (5 ∷ 8 ∷ []) 30000

abbrev known : Described
known = record {
  meta = λ id. some (record { kind = "memory"; type_name = "fact"; tags = "go" ∷ [] });
  superseded = λ id. id == 3;
}

abbrev no_filter : Filter
no_filter = record { types = []; tags = [] }

abbrev facts : Filter
facts = record { types = "fact" ∷ []; tags = "rust" ∷ [] }

abbrev no_weights : Weights ℕ
no_weights = record { tag = 0; type_weight = 0 }

abbrev request : Request ℕ
request = record {
  query = "which language";
  limit = 2;
  scope = "memory" ∷ [];
  filter = no_filter;
  weights = no_weights;
  lexical_weight = 0;
  include_superseded = false;
  candidates = 0;
}

three_candidates : ids_of pool ≡ 3 ∷ 5 ∷ 8 ∷ []
unfolding fuse scored add_all add_lexical of_matches contribution
three_candidates = refl

fuse_lem_example :
    (ids_of pool ≡ join (match_ids two_matches) (5 ∷ 8 ∷ []))
    × ((j : RecordId)
        → contains (ids_of pool) j ≡ contains (match_ids two_matches) j || contains (5 ∷ 8 ∷ []) j)
    × ((j : RecordId)
        → times (ids_of pool) j ≡ (
            if contains (match_ids two_matches) j
            then times (match_ids two_matches) j
            else if contains (5 ∷ 8 ∷ []) j
            then 1
            else 0))
fuse_lem_example = fuse_lem millionths two_matches (5 ∷ 8 ∷ []) 30000

rank_lem_example :
    (length (rank millionths as_typed pool known request 2).0
      ≡ min 2 (
          length pool
          - (rank millionths as_typed pool known request 2).1.superseded
          - (rank millionths as_typed pool known request 2).1.out_of_scope))
    × All
        (λ c. is_dropped millionths as_typed request known c ≡ false)
        (rank millionths as_typed pool known request 2).0
    × ((lost : List (Candidate ℕ)) × SameItems
          ((rank millionths as_typed pool known request 2).0 ++ lost)
          (keep millionths as_typed request known pool)
        × IsRanked millionths as_typed ((rank millionths as_typed pool known request 2).0 ++ lost))
rank_lem_example = rank_lem millionths as_typed pool known request 2

rank-filter_example :
    (length
        (rank millionths as_typed pool known
          (record request { filter = facts; weights = no_weights })
          2).0
      ≡ length (rank millionths as_typed pool known request 2).0)
    × ((rank millionths as_typed pool known
          (record request { filter = facts; weights = no_weights })
          2).1
        ≡ (rank millionths as_typed pool known request 2).1)
    × SameItems
        (ids_of
          (rank millionths as_typed pool known
            (record request { filter = facts; weights = no_weights })
            (length pool)).0)
        (ids_of (rank millionths as_typed pool known request (length pool)).0)
rank-filter_example = rank-filter millionths as_typed pool known request facts no_weights 2
