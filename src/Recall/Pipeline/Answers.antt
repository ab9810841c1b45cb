-- ===== src/Recall/Pipeline/Answers.antt =====
-- What a recall answers where the parts that it calls answer.
use Prim.Native.Nat.{min}
use sennit.Prelude.{
  ℕ, ◌-◌, ◌≤◌, ◌≡◌, refl, ap, ◌∙◌, String, false, List, [], ◌∷◌, length, map, ok, str_eq,
  length-map, arith,
}
use sennit.Record.{RecordId}
use sennit.Recall.{Float32, Candidate, Request}
use sennit.Recall.Fuse.{Match, fuse}
use sennit.Recall.Fuse.Union.{ids_of}
use sennit.Recall.Rank.{Described, rank}
use sennit.Recall.Rank.Keeping.{rank_lem}
use sennit.Recall.Pipeline.{
  Pipeline, Hit, Recalled, limit_of, pool_of, lexical_weight, search_lexical, describe, hit_of,
  fetch_all, answer, run,
}

module _ {S : Type 0} (f : Float32 S) {F : Type 0} (normalize : String → String) (p : Pipeline S F)
    (body : RecordId → F) (fetches : (id : RecordId) → p.fetch id ≡ ok (body id)) where
  fetch_all-ok :
      (cs : List (Candidate S))
      → fetch_all f normalize p cs
        ≡ ok (map (λ (c : Candidate S). hit_of f normalize p c (body c.id)) cs)
  unfolding fetch_all
  fetch_all-ok [] = refl
  fetch_all-ok (c ∷ cs) = rw (fetches c.id, fetch_all-ok cs) refl

  pool_le : (req : Request S) → limit_of f req ≤ pool_of f req
  unfolding limit_of pool_of
  pool_le req = ground arith

  -- Where every part answers, a recall of a query that is not empty answers. It scores a pool of at
  -- least as many candidates as it returns; it returns the bodies of the candidates in the order of
  -- their ranking, as many as the limit allows of all those that it does not report as hidden or out
  -- of the scope; and it counts the fused candidates.
  pub run_lem :
      (req : Request S) (query : List ℕ) (ms : List (Match S)) (lexical : List RecordId)
      (known : Described)
      → str_eq req.query "" ≡ false
      → p.embed_one req.query ≡ ok query
      → p.search query (pool_of f req) ≡ ok ms
      → search_lexical f normalize p req.query (pool_of f req) (lexical_weight f req) ≡ ok lexical
      → describe f normalize p (fuse f ms lexical (lexical_weight f req)) ≡ ok known
      → (r : Recalled S F) × (run f normalize p req ≡ ok r)
        × (limit_of f req ≤ pool_of f req)
        × (r.considered ≡ length (fuse f ms lexical (lexical_weight f req)))
        × (map (λ (h : Hit S F). h.found) r.hits
            ≡ map body (
                ids_of
                  (rank f normalize
                    (fuse f ms lexical (lexical_weight f req))
                    known
                    req
                    (limit_of f req)).0))
        × (length r.hits
            ≡ min (limit_of f req) (r.considered - r.superseded_hidden - r.scope_excluded))
  run_lem req query ms lexical known q e s l d =
      let fused = fuse f ms lexical (lexical_weight f req) in
      let ranked = rank f normalize fused known req (limit_of f req) in
      let hits = map (λ (c : Candidate S). hit_of f normalize p c (body c.id)) ranked.0 in
      let result : Recalled S F = record {
        hits = hits;
        searched = p.index_len;
        considered = length fused;
        lexical_hits = length lexical;
        superseded_hidden = ranked.1.superseded;
        scope_excluded = ranked.1.out_of_scope;
      } in
      (
        result,
        (unfold run answer in rw (q, e, s, l, d, fetch_all-ok ranked.0) refl),
        pool_le req,
        refl,
        bodies ranked.0,
        length-map (λ (c : Candidate S). hit_of f normalize p c (body c.id)) ranked.0
            ∙ (rank_lem f normalize fused known req (limit_of f req)).0,
      )
    where
      bodies :
          (cs : List (Candidate S))
          → map
              (λ (h : Hit S F). h.found)
              (map (λ (c : Candidate S). hit_of f normalize p c (body c.id)) cs)
            ≡ map body (ids_of cs)
      bodies [] = refl
      bodies (c ∷ cs) = ap (◌∷◌ (body c.id)) (bodies cs)
