-- ===== src/Recall/Pipeline.antt =====
-- recall/pipeline.go and recall/hit.go: a recall, from the query's text to the records.
pub mod Answers
use sennit.Prelude.{
  ℕ, zero, suc, ◌+◌, String, Bool, true, false, not, ◌&&◌, ◌||◌, Option, none, some, List, [], ◌∷◌,
  length, map, Result, ok, err, ◌>>=◌, ltb, ◌==◌, str_eq, if◌then◌else◌,
}
use sennit.Record.{RecordId}
use sennit.Recall.{Float32, greater, equal, ratio, Candidate, Request}
use sennit.Recall.Fuse.{Match, fuse}
use sennit.Recall.Fuse.Union.{ids_of}
use sennit.Recall.Rank.{Described, Dropped, rank}

-- What a recall fails with: the query is empty, or one of the parts that it calls failed.
pub data Fault : Type 0 where
  empty_query embed_failed search_failed lexical_failed describe_failed fetch_failed : Fault

-- `type Pipeline struct`: the parts that a recall calls. `F` is what a body is fetched as.
pub record Pipeline (S : Type 0) (F : Type 0) : Type 0 where
  pub embed_one : String → Result Fault (List ℕ)
  pub index_len : ℕ
  pub search : List ℕ → ℕ → Result Fault (List (Match S))
  pub fetch : RecordId → Result Fault F
  pub catalog : Option (List RecordId → Result Fault Described)
  pub lexical : Option (String → ℕ → Result Fault (List RecordId))

-- `type Hit struct`, without the times.
pub record Hit (S : Type 0) (F : Type 0) : Type 0 where
  pub found : F
  pub score : S
  pub similarity : S
  pub lexical : S
  pub boost : S

-- `type Result struct`, without the times.
pub record Recalled (S : Type 0) (F : Type 0) : Type 0 where
  pub hits : List (Hit S F)
  pub searched : ℕ
  pub considered : ℕ
  pub lexical_hits : ℕ
  pub superseded_hidden : ℕ
  pub scope_excluded : ℕ

-- `DefaultLimit` and `DefaultCandidates`
abbrev pub default_limit : ℕ
default_limit = 5

abbrev pub default_candidates : ℕ
default_candidates = 100

module _ {S : Type 0} (f : Float32 S) where
  -- How many records are returned, and how many are scored: at least as many.
  unfoldable pub limit_of : Request S → ℕ
  limit_of req = if req.limit == 0 then default_limit else req.limit

  unfoldable pub pool_of : Request S → ℕ
  unfolding limit_of
  pool_of req =
      let pool = if req.candidates == 0 then default_candidates else req.candidates in
      if ltb pool (limit_of req) then limit_of req else pool

  -- `func lexicalWeight(req Request) float32`
  unfoldable pub lexical_weight : Request S → S
  lexical_weight req =
      if equal f req.lexical_weight (f.of_nat 0)
      then ratio f 3 100
      else if greater f (f.of_nat 0) req.lexical_weight
      then f.of_nat 0
      else req.lexical_weight

  module _ {F : Type 0} (normalize : String → String) (p : Pipeline S F) where
    -- `func (p *Pipeline) searchLexical(query string, k int, weight float32) ([]record.ID, error)`
    unfoldable pub search_lexical : String → ℕ → S → Result Fault (List RecordId)
    search_lexical query k weight = elim p.lexical [
      | none ↦ ok []
      | some pass ↦ if equal f weight (f.of_nat 0) then ok [] else pass query k
    ]

    abbrev pub nothing_known : Described
    nothing_known = record { meta = λ id. none; superseded = λ id. false }

    -- `func (p *Pipeline) describe(fused []candidate) (Described, error)`
    unfoldable pub describe : List (Candidate S) → Result Fault Described
    describe [] = ok nothing_known
    describe (c ∷ cs) = elim p.catalog [
      | none ↦ ok nothing_known
      | some ask ↦ ask (ids_of (c ∷ cs))
    ]

    abbrev pub hit_of : Candidate S → F → Hit S F
    hit_of c found = record {
      found = found;
      score = c.score;
      similarity = c.similarity;
      lexical = c.lexical;
      boost = c.boost;
    }

    -- The last loop of `Run`.
    unfoldable pub fetch_all : List (Candidate S) → Result Fault (List (Hit S F))
    fetch_all [] = ok []
    fetch_all (c ∷ cs) =
        p.fetch c.id >>= λ found. fetch_all cs >>= λ hits. ok (hit_of c found ∷ hits)

    -- The part of `Run` that knows the candidates and what the catalog says of them.
    unfoldable pub answer :
        Request S → ℕ → List (Candidate S) → Described → Result Fault (Recalled S F)
    unfolding rank fetch_all limit_of
    answer req lexical_hits fused known =
        let ranked = rank f normalize fused known req (limit_of req) in
        fetch_all ranked.0 >>= λ hits. ok (record {
          hits = hits;
          searched = p.index_len;
          considered = length fused;
          lexical_hits = lexical_hits;
          superseded_hidden = ranked.1.superseded;
          scope_excluded = ranked.1.out_of_scope;
        })

    -- `func (p *Pipeline) Run(ctx context.Context, req Request) (Result, error)`
    unfoldable pub run : Request S → Result Fault (Recalled S F)
    unfolding pool_of lexical_weight search_lexical describe fuse answer
    run req =
        let weight = lexical_weight req in
        if str_eq req.query ""
        then err empty_query
        else (p.embed_one req.query >>= λ query. p.search query (pool_of req) >>= λ matches.
            search_lexical req.query (pool_of req) weight >>= λ lexical.
            describe (fuse f matches lexical weight) >>= λ known.
            answer req (length lexical) (fuse f matches lexical weight) known)
