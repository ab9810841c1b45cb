-- ===== src/Index/Search/Nearest.antt =====
-- The answer of a search: the best of the index, first to last, as sorting everything would give.
use sennit.Prelude.{
  ℕ, zero, suc, ◌+◌, ◌≤◌, ◌<◌, ◌≡◌, refl, ◌∙◌, ap, sym, Bool, true, List, [], ◌++◌, ok, length,
  take, ltb, arith, Bool-cases, inl, inr, length-map, take-append, take_all, append-nil,
}
use sennit.Prelude.Counts.{
  SameItems, number, number-append, number_all, number-map, Descending, Descending-unique,
  sort_desc, sort_desc-SameItems, sort_desc-Descending, Descending-append,
}
use sennit.Index.{Index}
use sennit.Index.Search.{Match, NoneBelow, NoneAbove, MinHeap, consider_all, drain, scored, search}
use sennit.Index.Search.Best.{Kept, empty-Kept, consider_all-Kept}
use sennit.Index.Search.Drain.{scores, drain_lem}

-- Counting scores is counting matches.
number-scores :
    (p : ℕ → Bool) (l : List Match) → number p (scores l) ≡ number (λ (m : Match). p m.score) l
number-scores p l = number-map (λ (m : Match). m.score) p l

-- Sorting the kept and the lost is sorting everything.
ranked :
    (out lost all : List Match) (floor : ℕ)
    → ((p : Match → Bool) → number p out + number p lost ≡ number p all)
    → NoneBelow floor out
    → NoneAbove floor lost
    → Descending (scores out)
    → scores out ++ sort_desc (scores lost) ≡ sort_desc (scores all)
ranked out lost all floor same above below d =
    Descending-unique (scores out ++ sort_desc (scores lost)) (sort_desc (scores all))
      (Descending-append floor (scores out) (sort_desc (scores lost)) d
        (sort_desc-Descending (scores lost)) (number-scores (λ x. ltb x floor) out ∙ above)
        (sort_desc-SameItems (scores lost) (ltb floor) ∙ number-scores (ltb floor) lost ∙ below))
      (sort_desc-Descending (scores all))
      (λ p. omega (
        arith,
        number-append p (scores out) (sort_desc (scores lost)),
        sort_desc-SameItems (scores lost) p,
        sort_desc-SameItems (scores all) p,
        number-scores p out,
        number-scores p lost,
        number-scores p all,
        same (λ (m : Match). p m.score),
      ))

-- The first `k`, where the list is as long or nothing follows it.
take_ranked :
    (k : ℕ) (out lost : List Match)
    → length out ≤ k
    → (length out < k → lost ≡ [])
    → take k (scores out ++ sort_desc (scores lost)) ≡ scores out
take_ranked k out lost le full = elim (Bool-cases (ltb (length out) k)) [
  | inl e ↦
      let nothing : lost ≡ [] = full (ground (arith, e)) in
      rw nothing (
        unfold sort_desc in
        rw append-nil
          (take_all k (scores out) (omega (arith, le, length-map (λ (m : Match). m.score) out))))
  | inr e ↦
      take-append k (scores out) (sort_desc (scores lost))
        (length-map (λ (m : Match). m.score) out ∙ ground (arith, e, le))
]

module _ {H : Type 0} (heap : MinHeap H) (dot : List ℕ → List ℕ → ℕ) where
  search-ok :
      (query : List ℕ) (k : ℕ) (i : Index)
      → length query ≡ i.dim
      → 0 < k
      → search heap dot query k i ≡ (
          let best = consider_all heap k (scored (dot query) i.ids i.vectors) heap.empty in
          ok (drain heap (length (heap.items best)) best []))
  unfolding search
  search-ok query k i w positive = ground (arith, w, positive)

  -- A search of a query of the index's width answers, whatever the heap and the score. The scores of
  -- the answer are the first `k` of the sorted scores of the whole index, the highest first; and the
  -- answer, with the matches that it leaves out, is what the index holds, each as often.
  pub search-eq-sorted :
      (query : List ℕ) (k : ℕ) (i : Index)
      → length query ≡ i.dim
      → (out : List Match) × (search heap dot query k i ≡ ok out)
        × (scores out ≡ take k (sort_desc (scores (scored (dot query) i.ids i.vectors))))
        × ((lost : List Match) × SameItems (out ++ lost) (scored (dot query) i.ids i.vectors))
  search-eq-sorted query zero i w = (
    [],
    (unfold search in ground (arith, w)),
    refl,
    (scored (dot query) i.ids i.vectors, λ p. refl),
  )
  search-eq-sorted query (suc k) i w =
      let all = scored (dot query) i.ids i.vectors in
      let best = consider_all heap (suc k) all heap.empty in
      let kept : Kept heap (suc k) best all =
        consider_all-Kept heap (suc k) all heap.empty [] (omega arith) (empty-Kept heap (suc k)) in
      let out = drain heap (length (heap.items best)) best [] in
      let (d, same) = drain_lem heap (length (heap.items best)) best [] refl (λ s h. refl) tt in
      let size : length out ≡ length (heap.items best) =
        omega (arith, same (λ m. true), number_all out, number_all (heap.items best)) in
      let parts : (p : Match → Bool) → number p out + number p kept.lost ≡ number p all =
        λ p. omega (arith, same p, kept.items p) in
      (
        out,
        search-ok query (suc k) i w (omega arith),
        sym (
              take_ranked (suc k) out kept.lost (omega (arith, size, kept.bounded))
                (λ lt. kept.full (omega (arith, size, lt))))
            ∙ ap (take (suc k)) (
                ranked out kept.lost all kept.floor parts
                  (omega (arith, same (λ (m : Match). ltb m.score kept.floor), kept.above))
                  kept.below d),
        (kept.lost, λ p. omega (arith, parts p, number-append p out kept.lost)),
      )
