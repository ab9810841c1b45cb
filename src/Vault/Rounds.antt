-- ===== src/Vault/Rounds.antt =====
-- The rounds of a change of an edge: it lands on the head as it is, and a round in which nobody comes
-- between is enough.
use sennit.Prelude.{
  ℕ, zero, suc, ◌-◌, ◌≤◌, ◌≡◌, sym, ap, subst, true, false, Option, Result, ok, err, if◌then◌else◌,
  arith, ◌⊎◌, inl, inr, Bool-cases,
}
use sennit.Prelude.Keys.{number_key}
use sennit.Record.{RecordId}
use sennit.Sessions.{Table, stale_head}
use sennit.Transcript.Session.{Session}
use sennit.Vault.Heads.{
  Codec, Fault, heads_refused, Round, head_revisions, is_stale, revise_once, revise_loop,
  revise_edges,
}
use sennit.Vault.Edges.{
  ReadsBack, IsStored, Keeps, IsQuiet, IsGone, MovesOn, IsEdge, Landed, Turn, revise_once-Turn,
}

module _ (codec : Codec) (reads : ReadsBack codec) (id : RecordId) where
  -- What several rounds come to: the change is made where they succeed; where they do not, the head is
  -- not there, or each of them was refused because the head had moved on.
  abbrev pub Ends :
      (Session → Option Session)
      → ℕ
      → (ℕ → Round)
      → Table
      → Table × Result Fault (Unit {0})
      → Type 0
  Ends change left rounds t (u, ok a) = Landed codec id change left rounds t u
  Ends change left rounds t (u, err e) =
      IsGone (err e)
      ⊎ ((e ≡ heads_refused stale_head) × ((k : ℕ) → k ≤ left → IsQuiet id (rounds k) → ⊥))

  module _ (change : Session → Option Session) (edge : IsEdge codec reads change) where
    -- The other writers of all rounds.
    abbrev pub OthersKeep : (ℕ → Round) → Type 0
    OthersKeep rounds =
        (n : ℕ)
        → Keeps codec reads id (rounds n).before
          × Keeps codec reads id (rounds n).between
          × MovesOn id (rounds n).between

    Turn-Ends :
        (left : ℕ) (rounds : ℕ → Round) (t : Table) (out : Table × Result Fault (Unit {0}))
        → Turn codec reads id change (rounds 0) t out
        → is_stale out.1 ≡ false
        → Ends change left rounds t out
    Turn-Ends left rounds t (u, ok a) (inl (_, made)) fresh = (0, omega arith, made)
    Turn-Ends left rounds t (u, ok a) (inr (inl (inl g))) fresh = absurd (ground (arith, g))
    Turn-Ends left rounds t (u, ok a) (inr (inl (inr g))) fresh = absurd (ground (arith, g))
    Turn-Ends left rounds t (u, ok a) (inr (inr (e, stored, moved))) fresh =
        absurd (ground (arith, e))
    Turn-Ends left rounds t (u, err x) (inl (e, made)) fresh = absurd (ground (arith, e))
    Turn-Ends left rounds t (u, err x) (inr (inl gone)) fresh = inl gone
    Turn-Ends left rounds t (u, err x) (inr (inr (e, stored, moved))) fresh =
        absurd (ground (arith, ap (λ out. is_stale out.1) e, fresh))

    Turn-moved :
        (r : Round) (t : Table) (out : Table × Result Fault (Unit {0}))
        → Turn codec reads id change r t out
        → is_stale out.1 ≡ true
        → (out ≡ (r.between (r.before t), err (heads_refused stale_head)))
          × IsStored codec reads id (r.between (r.before t))
          × (IsQuiet id r → ⊥)
    Turn-moved r t out (inl (a, made)) stale = absurd (ground (arith, a, stale))
    Turn-moved r t out (inr (inl (inl g))) stale = absurd (ground (arith, g, stale))
    Turn-moved r t out (inr (inl (inr g))) stale = absurd (ground (arith, g, stale))
    Turn-moved r t out (inr (inr all)) stale = all

    Turn-last :
        (rounds : ℕ → Round) (t : Table) (out : Table × Result Fault (Unit {0}))
        → Turn codec reads id change (rounds 0) t out
        → is_stale out.1 ≡ true
        → Ends change 0 rounds t out
    Turn-last rounds t (u, ok a) turn stale = absurd (ground (arith, stale))
    Turn-last rounds t (u, err x) turn stale =
        inr (ground (arith, ap (λ o. o.1) (Turn-moved (rounds 0) t (u, err x) turn stale).0), never)
      where
        never : (k : ℕ) → k ≤ 0 → IsQuiet id (rounds k) → ⊥
        never zero l quiet = (Turn-moved (rounds 0) t (u, err x) turn stale).2 quiet
        never (suc k) l quiet = absurd (omega (arith, l))

    Ends-later :
        (left : ℕ) (rounds : ℕ → Round) (t : Table) (out : Table × Result Fault (Unit {0}))
        → (IsQuiet id (rounds 0) → ⊥)
        → Ends change left (λ n. rounds (suc n)) ((rounds 0).between ((rounds 0).before t)) out
        → Ends change (suc left) rounds t out
    Ends-later left rounds t (u, ok a) moved (k, l, made) = (suc k, omega (arith, l), made)
    Ends-later left rounds t (u, err x) moved (inl gone) = inl gone
    Ends-later left rounds t (u, err x) moved (inr (told, never)) = inr (told, later)
      where
        later : (k : ℕ) → k ≤ suc left → IsQuiet id (rounds k) → ⊥
        later zero l quiet = moved quiet
        later (suc k) l quiet = never k (omega (arith, l)) quiet

    revise_loop-Ends :
        (left : ℕ) (rounds : ℕ → Round) (t : Table)
        → IsStored codec reads id t
        → OthersKeep rounds
        → Ends change left rounds t (revise_loop codec change id rounds left t)
    unfolding revise_loop
    revise_loop-Ends zero rounds t h keeps =
        let out = revise_once codec change id (rounds 0) t in
        let turn =
          revise_once-Turn codec reads id change edge (rounds 0) t h (keeps 0).0 (keeps 0).1
            (keeps 0).2 in
        elim (Bool-cases (is_stale out.1)) [
          | inl e ↦ Turn-last rounds t out turn e
          | inr e ↦ Turn-Ends 0 rounds t out turn e
        ]
    revise_loop-Ends (suc left) rounds t h keeps =
        let out = revise_once codec change id (rounds 0) t in
        let turn =
          revise_once-Turn codec reads id change edge (rounds 0) t h (keeps 0).0 (keeps 0).1
            (keeps 0).2 in
        elim (Bool-cases (is_stale out.1)) [
          | inl e ↦
              let (refused, stored, moved) = Turn-moved (rounds 0) t out turn e in
              let again : (u : Table) → Table × Result Fault (Unit {0}) =
                revise_loop codec change id (λ n. rounds (suc n)) left in
              let same : revise_loop codec change id rounds (suc left) t
                  ≡ again ((rounds 0).between ((rounds 0).before t)) =
                rw (e, revise_loop, if◌then◌else◌) (ap (λ o. again o.0) refused) in
              subst (Ends change (suc left) rounds t) (sym same) (
                Ends-later left rounds t _ moved (
                  revise_loop-Ends left (λ n. rounds (suc n))
                    ((rounds 0).between ((rounds 0).before t)) stored (λ n. keeps (suc n))))
          | inr e ↦ rw (e, revise_loop, if◌then◌else◌) (Turn-Ends (suc left) rounds t out turn e)
        ]

    -- Changing an edge: see `adopt_child_lem`.
    pub revise_edges-Ends :
        (rounds : ℕ → Round) (t : Table)
        → IsStored codec reads id t
        → OthersKeep rounds
        → Ends change (head_revisions - 1) rounds t (revise_edges codec change id rounds t)
    unfolding revise_edges
    revise_edges-Ends rounds t h keeps = revise_loop-Ends (head_revisions - 1) rounds t h keeps
