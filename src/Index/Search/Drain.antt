-- ===== src/Index/Search/Drain.antt =====
-- The last loop of the search: popping the heap empty gives the best first.
use sennit.Prelude.{
  ℕ, zero, suc, ◌+◌, ◌≤◌, ◌<◌, ◌≡◌, refl, sym, Bool, true, some, List, [], ◌∷◌, map, length, ltb,
  ◌==◌, if◌then◌else◌, arith, Option-cases, Bool-cases, inl, inr, subst,
}
use sennit.Prelude.Counts.{number, number_all, number_mono, number-map, Descending}
use sennit.Index.Search.{Match, NoneBelow, NoneAbove, Least, MinHeap, drain}

pub length-zero : {A : Type 0} (l : List A) → length l ≡ 0 → l ≡ []
length-zero [] h = refl
length-zero (x ∷ xs) h = absurd (omega arith)

abbrev pub scores : List Match → List ℕ
scores l = map (λ (m : Match). m.score) l

module _ {H : Type 0} (heap : MinHeap H) where
  size-rest :
      (m : Match) (h : H)
      → heap.first h ≡ some m
      → length (heap.items h) ≡ suc (length (heap.items (heap.rest h)))
  size-rest m h e = omega (
    arith,
    number_all (heap.items (heap.rest h)),
    number_all (heap.items h),
    heap.items-rest m h e (λ z. true),
  )

  -- No element that has been popped scores more than one that has not.
  abbrev pub Popped : H → List Match → Type 0
  Popped best out =
      (s : ℕ) → 0 < number (λ (m : Match). m.score == s) (heap.items best) → NoneAbove s out

  Popped-step :
      (m : Match) (best : H) (out : List Match)
      → heap.first best ≡ some m
      → Popped best out
      → NoneAbove m.score out × Popped (heap.rest best) (m ∷ out)
  Popped-step m best out e h =
      let least : NoneBelow m.score (heap.items best) =
        subst (λ o. Least o (heap.items best)) e (heap.first_least best) in
      (
        h m.score (ground (arith, heap.items-rest m best e (λ (x : Match). x.score == m.score))),
        (λ s here.
            let low : number (λ (x : Match). x.score == s) (heap.items best)
                ≡ (if m.score == s then 1 else 0)
                  + number (λ (x : Match). x.score == s) (heap.items (heap.rest best)) =
              sym (heap.items-rest m best e (λ (x : Match). x.score == s)) in
            let above : NoneAbove s out = h s (ground (arith, low, here)) in
            elim (Bool-cases (ltb s m.score)) [
              | inl q ↦
                  let mono : number (λ (x : Match). x.score == s) (heap.items best)
                      ≤ number (λ (x : Match). ltb x.score m.score) (heap.items best) =
                    number_mono _ _ (heap.items best) (λ x r. ground (arith, q, r)) in
                  absurd (ground (arith, mono, least, low, here))
              | inr q ↦ ground (arith, q, above)
            ]),
      )

  pub drain_lem :
      (n : ℕ) (best : H) (out : List Match)
      → length (heap.items best) ≡ n
      → Popped best out
      → Descending (scores out)
      → Descending (scores (drain heap n best out))
        × ((p : Match → Bool)
            → number p (drain heap n best out) ≡ number p (heap.items best) + number p out)
  unfolding drain
  drain_lem zero best out len popped d = (
    d,
    λ p.
        (let nothing : heap.items best ≡ [] = length-zero (heap.items best) len in
          rw nothing (omega arith)),
  )
  drain_lem (suc n) best out len popped d = elim (Option-cases (heap.first best)) [
    | inl e ↦
        let nothing : heap.items best ≡ [] =
          subst (λ o. Least o (heap.items best)) e (heap.first_least best) in
        absurd (ground (arith, len, nothing))
    | inr (m, e) ↦
        let (above, popped') = Popped-step m best out e popped in
        let (d', same) =
          drain_lem n (heap.rest best) (m ∷ out) (omega (arith, len, size-rest m best e)) popped'
            (rw (number-map (λ (x : Match). x.score) (ltb m.score) out) (above, d)) in
        rw (e, drain) (d', λ p. omega (arith, same p, heap.items-rest m best e p))
  ]
