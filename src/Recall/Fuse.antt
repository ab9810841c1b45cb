-- ===== src/Recall/Fuse.antt =====
-- recall/fuse.go: the vector ranking and the lexical ranking made into one.
pub mod Union
use sennit.Prelude.{
  ℕ, zero, suc, ◌+◌, Bool, Option, none, some, List, [], ◌∷◌, ◌++◌, map, if◌then◌else◌, ◌==◌,
}
use sennit.Prelude.Keys.{number_key, contains}
use sennit.Record.{RecordId}
use sennit.Recall.{Float32, greater, ratio, Candidate}

-- `index.Match`, with the score as the search computed it.
pub record Match (S : Type 0) : Type 0 where
  pub id : RecordId
  pub score : S

module _ {S : Type 0} (f : Float32 S) where
  -- `const RRFk = 60.0`
  abbrev pub rrf_k : S
  rrf_k = f.of_nat 60

  -- `weight / (RRFk + float32(rank+1))`
  unfoldable pub contribution : S → ℕ → S
  contribution weight rank = f.div weight (f.add rrf_k (f.of_nat (suc rank)))

  -- The first loop, from the match at `i` on. A match of a record that was there before is a candidate
  -- of its own, as it is in the source.
  unfoldable pub of_matches : ℕ → List (Match S) → List (Candidate S)
  unfolding contribution
  of_matches i [] = []
  of_matches i (match ∷ matches) =
      record {
        id = match.id;
        score = f.of_nat 0;
        similarity = match.score;
        fused = contribution (f.of_nat 1) i;
        lexical = f.of_nat 0;
        boost = f.of_nat 0;
      }
      ∷ of_matches (suc i) matches

  abbrev pub lexical_only : RecordId → S → Candidate S
  lexical_only id c = record {
    id = id;
    score = f.of_nat 0;
    similarity = f.of_nat 0;
    fused = c;
    lexical = c;
    boost = f.of_nat 0;
  }

  -- A record that has its lexical rank keeps it.
  abbrev pub contribute : S → Candidate S → Candidate S
  contribute c x =
      if greater f x.lexical (f.of_nat 0)
      then x
      else record x { lexical = c; fused = f.add x.fused c }

  -- One round of the second loop: `at` finds the last candidate of the record.
  unfoldable pub add_lexical : RecordId → S → List (Candidate S) → List (Candidate S)
  add_lexical id c [] = lexical_only id c ∷ []
  add_lexical id c (x ∷ xs) =
      let rest = add_lexical id c xs in
      if contains (map (λ (y : Candidate S). y.id) xs) id
      then x ∷ rest
      else if x.id == id
      then contribute c x ∷ xs
      else x ∷ rest

  unfoldable pub add_all : S → ℕ → List RecordId → List (Candidate S) → List (Candidate S)
  unfolding add_lexical contribution
  add_all weight rank [] fused = fused
  add_all weight rank (id ∷ ids) fused =
      add_all weight (suc rank) ids (add_lexical id (contribution weight rank) fused)

  -- The last loop.
  unfoldable pub scored : List (Candidate S) → List (Candidate S)
  scored cs = map (λ (c : Candidate S). record c { score = c.fused }) cs

  -- `func fuse(matches []index.Match, lexical []record.ID, weight float32) []candidate`
  unfoldable pub fuse : List (Match S) → List RecordId → S → List (Candidate S)
  unfolding of_matches add_all scored
  fuse matches lexical weight = scored (add_all weight 0 lexical (of_matches 0 matches))
