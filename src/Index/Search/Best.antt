-- ===== src/Index/Search/Best.antt =====
-- The loop over the index: what the bounded heap keeps, and what it loses.
use sennit.Prelude.{
  ℕ, suc, ◌+◌, ◌≤◌, ◌<◌, ◌≡◌, refl, Bool, true, some, List, [], ◌∷◌, ◌++◌, length, ltb, arith,
  Option-cases, Bool-cases, inl, inr, subst, append-nil, append_assoc,
}
use sennit.Prelude.Counts.{number, number-append, number_all, number_mono, number_none}
use sennit.Index.Search.{Match, NoneBelow, NoneAbove, Least, MinHeap, consider, consider_all}

module _ {H : Type 0} (heap : MinHeap H) (k : ℕ) where
  -- What the loop keeps of the matches it has seen: those that it lost score no more than those that
  -- it kept, and it loses none before it has kept `k`.
  pub record Kept (best : H) (seen : List Match) : Type 0 where
    pub lost : List Match
    pub floor : ℕ
    pub items : (p : Match → Bool) → number p (heap.items best) + number p lost ≡ number p seen
    pub above : NoneBelow floor (heap.items best)
    pub below : NoneAbove floor lost
    pub bounded : length (heap.items best) ≤ k
    pub full : length (heap.items best) < k → lost ≡ []

  size-push :
      (m : Match) (h : H) → length (heap.items (heap.push m h)) ≡ suc (length (heap.items h))
  size-push m h = omega (
    arith,
    number_all (heap.items (heap.push m h)),
    number_all (heap.items h),
    heap.items-push m h (λ x. true),
  )

  size-fix_first :
      (m x : Match) (h : H)
      → heap.first h ≡ some m
      → length (heap.items (heap.fix_first x h)) ≡ length (heap.items h)
  size-fix_first m x h e = omega (
    arith,
    number_all (heap.items (heap.fix_first x h)),
    number_all (heap.items h),
    heap.items-fix_first m x h e (λ z. true),
  )

  module _ (m : Match) (best : H) (seen : List Match) (h : Kept best seen) where
    Kept-push : length (heap.items best) < k → Kept (heap.push m best) (seen ++ m ∷ [])
    Kept-push room = record {
      lost = [];
      floor = 0;
      items = λ p.
          ground (
            arith,
            h.items p,
            h.full room,
            heap.items-push m best p,
            number-append p seen (m ∷ []),
          );
      above = number_none _ (heap.items (heap.push m best)) (λ x. ground arith);
      below = refl;
      bounded = omega (arith, size-push m best);
      full = λ more. refl;
    }

    module _ (least : Match) (e : heap.first best ≡ some least)
        (no_room : k ≤ length (heap.items best)) where
      least_below : NoneBelow least.score (heap.items best)
      least_below = subst (λ o. Least o (heap.items best)) e (heap.first_least best)

      -- The floor is not above the least of the kept, which is one of them.
      floor_le : h.floor ≤ least.score
      floor_le =
          ground (arith, h.above, heap.items-rest least best e (λ (x : Match). ltb x.score h.floor))

      below_least : NoneAbove least.score h.lost
      below_least =
          let mono : number (λ (x : Match). ltb least.score x.score) h.lost
              ≤ number (λ (x : Match). ltb h.floor x.score) h.lost =
            number_mono _ _ h.lost (λ x q. ground (arith, q, floor_le)) in
          omega (arith, mono, h.below)

      Kept-skip : m.score ≤ least.score → Kept best (seen ++ m ∷ [])
      Kept-skip le = record {
        lost = m ∷ h.lost;
        floor = least.score;
        items = λ p. omega (arith, h.items p, number-append p seen (m ∷ []));
        above = least_below;
        below = ground (arith, below_least, le);
        bounded = h.bounded;
        full = λ more. absurd (omega (arith, more, no_room));
      }

      Kept-fix_first : least.score < m.score → Kept (heap.fix_first m best) (seen ++ m ∷ [])
      Kept-fix_first lt = record {
        lost = least ∷ h.lost;
        floor = least.score;
        items = λ p. ground (
          arith,
          h.items p,
          number-append p seen (m ∷ []),
          heap.items-fix_first least m best e p,
        );
        above = ground (
          arith,
          least_below,
          lt,
          heap.items-fix_first least m best e (λ (x : Match). ltb x.score least.score),
        );
        below = ground (arith, below_least);
        bounded = omega (arith, h.bounded, size-fix_first least m best e);
        full = λ more. absurd (omega (arith, more, no_room, size-fix_first least m best e));
      }

    consider-Kept : 0 < k → Kept (consider heap k m best) (seen ++ m ∷ [])
    unfolding consider
    consider-Kept positive = elim (Bool-cases (ltb (length (heap.items best)) k)) [
      | inl e ↦ rw (e, consider) (Kept-push (ground (arith, e)))
      | inr e ↦ elim (Option-cases (heap.first best)) [
        | inl f ↦
            let nothing : heap.items best ≡ [] =
              subst (λ o. Least o (heap.items best)) f (heap.first_least best) in
            absurd (ground (arith, e, nothing, positive))
        | inr (least, f) ↦ elim (Bool-cases (ltb least.score m.score)) [
          | inl g ↦
              rw (e, f, g, consider)
                (Kept-fix_first least f (ground (arith, e)) (ground (arith, g)))
          | inr g ↦
              rw (e, f, g, consider) (Kept-skip least f (ground (arith, e)) (ground (arith, g)))
        ]
      ]
    ]

  pub consider_all-Kept :
      (ms : List Match) (best : H) (seen : List Match)
      → 0 < k
      → Kept best seen
      → Kept (consider_all heap k ms best) (seen ++ ms)
  unfolding consider_all
  consider_all-Kept [] best seen positive h = rw (append-nil seen) h
  consider_all-Kept (m ∷ ms) best seen positive h =
      subst (λ l. Kept (consider_all heap k ms (consider heap k m best)) l)
        (append_assoc seen (m ∷ []) ms)
        (consider_all-Kept ms (consider heap k m best) (seen ++ m ∷ []) positive
          (consider-Kept m best seen h positive))

  pub empty-Kept : Kept heap.empty []
  empty-Kept = record {
    lost = [];
    floor = 0;
    items = λ p. rw heap.items_empty refl;
    above = rw heap.items_empty refl;
    below = refl;
    bounded = rw heap.items_empty (omega arith);
    full = λ more. refl;
  }
