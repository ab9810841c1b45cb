-- ===== src/Vault/Edges.antt =====
-- The edges of a head, changed while other writers move it on: one round of the change.
use sennit.Prelude.{
  ℕ, zero, suc, ◌<◌, ◌≤◌, ◌≡◌, refl, ◌∙◌, sym, ap, true, false, Option, none, some, List, Result,
  ok, err, ◌==◌, arith, ◌⊎◌, inl, inr, Bool-cases, Option-cases,
}
use sennit.Prelude.Keys.{number_key}
use sennit.Record.{RecordId}
use sennit.Sessions.{
  SessionRow, Table, stale_head, not_found, put_session_head, not_written, get_session_head,
  find_head,
}
use sennit.Sessions.Versions.{rewritten, put_session_head_lem}
use sennit.Transcript.Session.{Session}
use sennit.Vault.Heads.{
  Codec, Fault, no_such_session, heads_refused, head_row, put_fault, Round, read_head, put_head,
  revise_head, revise_once, with_children,
}

-- What is read back is what was written, for the heads that the format can hold: whether it can does
-- not depend on the numbers and the ids in a head.
pub record ReadsBack (codec : Codec) : Type 1 where
  pub Storable : Session → Type 0
  pub reads : (s : Session) → Storable s → codec.unmarshal (codec.marshal s) ≡ some s
  pub revises :
      (s : Session) (version updated : ℕ)
      → Storable s
      → Storable (record s { version = version; updated = updated })
  pub relates :
      (s : Session) (children : List RecordId) → Storable s → Storable (with_children children s)

-- The row of a conversation agrees with the head that it holds.
abbrev pub IsStored : (codec : Codec) → ReadsBack codec → RecordId → Table → Type 0
IsStored codec reads id t =
    (r : SessionRow)
    → find_head id t ≡ some r
    → (s : Session) × (codec.unmarshal r.head ≡ some s)
      × (s.id ≡ id)
      × (s.version ≡ r.version)
      × (0 < r.version)
      × reads.Storable s

-- The other writers keep the row in agreement with its head.
abbrev pub Keeps : (codec : Codec) → ReadsBack codec → RecordId → (Table → Table) → Type 0
Keeps codec reads id act = (t : Table) → IsStored codec reads id t → IsStored codec reads id (act t)

-- Nobody moves the head on between the read and the write of a round.
abbrev pub IsQuiet : RecordId → Round → Type 0
IsQuiet id r = (t : Table) → find_head id (r.between t) ≡ find_head id t

abbrev pub IsGone : Result Fault (Unit {0}) → Type 0
IsGone answer = (answer ≡ err no_such_session) ⊎ (answer ≡ err (heads_refused not_found))

-- A writer that changes the head moves its version on.
abbrev pub MovesOn : RecordId → (Table → Table) → Type 0
MovesOn id act =
    (t : Table) (r r' : SessionRow)
    → find_head id t ≡ some r
    → find_head id (act t) ≡ some r'
    → (r'.version == r.version) ≡ true
    → r' ≡ r

-- A change leaves the id and the version to the caller, and a head that the format can hold.
abbrev pub IsEdge : (codec : Codec) → ReadsBack codec → (Session → Option Session) → Type 0
IsEdge codec reads change =
    (s s' : Session)
    → change s ≡ some s'
    → (s'.id ≡ s.id) × (s'.version ≡ s.version) × (reads.Storable s → reads.Storable s')

-- The table that a round begins with, where the rounds before it were refused.
abbrev pub at_round : (ℕ → Round) → ℕ → Table → Table
at_round rounds zero t = t
at_round rounds (suc n) t =
    at_round (λ i. rounds (suc i)) n ((rounds 0).between ((rounds 0).before t))

-- A round that begins with `t` has made the change: the head that it read says it already, and nothing is
-- written; or the change was made to the head as the device held it when it was written.
abbrev pub Made : Codec → RecordId → (Session → Option Session) → Round → Table → Table → Type 0
Made codec id change r t u =
    ((s : Session) × (u ≡ r.before t) × (read_head codec id u ≡ ok s) × (change s ≡ none))
    ⊎ ((s : Session) × (s' : Session) × (read_head codec id (r.between (r.before t)) ≡ ok s)
        × (change s ≡ some s')
        × (read_head codec id u ≡ ok (record s' { version = suc s'.version; updated = r.now })))

-- One of the rounds has made the change, those before it refused.
abbrev pub Landed :
    Codec → RecordId → (Session → Option Session) → ℕ → (ℕ → Round) → Table → Table → Type 0
Landed codec id change left rounds t u =
    (k : ℕ) × (k ≤ left) × Made codec id change (rounds k) (at_round rounds k t) u

module _ (codec : Codec) (reads : ReadsBack codec) (id : RecordId) where
  -- What a round comes to.
  abbrev pub Turn :
      (Session → Option Session) → Round → Table → Table × Result Fault (Unit {0}) → Type 0
  Turn change r t out =
      ((out.1 ≡ ok tt) × Made codec id change r t out.0)
      ⊎ (IsGone out.1
          ⊎ ((out ≡ (r.between (r.before t), err (heads_refused stale_head)))
              × IsStored codec reads id (r.between (r.before t))
              × (IsQuiet id r → ⊥)))

  read_found :
      (t : Table) (r : SessionRow) (s : Session)
      → find_head id t ≡ some r
      → codec.unmarshal r.head ≡ some s
      → read_head codec id t ≡ ok s
  unfolding read_head get_session_head
  read_found t r s e u = rw (e, read_head, get_session_head, u) refl

  read_none :
      (t : Table) → find_head id t ≡ none → read_head codec id t ≡ err (heads_refused not_found)
  unfolding read_head get_session_head
  read_none t e = rw (e, read_head, get_session_head) refl

  -- The write of a head that was read at a version, by what it finds.
  put_head-accepted :
      (s : Session) (from : ℕ) (t : Table) (r : SessionRow)
      → reads.Storable s
      → s.id ≡ id
      → 0 < from
      → find_head id t ≡ some r
      → (r.version == from) ≡ true
      → ((put_head codec s from t).1 ≡ ok tt)
        × (read_head codec id (put_head codec s from t).0 ≡ ok s)
  unfolding put_head head_row
  put_head-accepted s from t r storable same p e v =
      let row = head_row s (codec.marshal s) in
      let here : find_head s.id t ≡ some r = ap (λ i. find_head i t) same ∙ e in
      let law = put_session_head_lem row from t in
      let answers : (put_session_head row from t).1 ≡ ok tt = ground (arith, law.0, here, v, p) in
      let found : find_head id (put_session_head row from t).0 ≡ some (rewritten row (some r)) =
        ground (arith, law.1 id, here, v, p, same) in
      (
        ap put_fault answers,
        read_found (put_session_head row from t).0 (rewritten row (some r)) s found
            (reads.reads s storable),
      )

  put_head-refused :
      (s : Session) (from : ℕ) (t : Table) (r : SessionRow)
      → s.id ≡ id
      → 0 < from
      → find_head id t ≡ some r
      → (r.version == from) ≡ false
      → put_head codec s from t ≡ (t, err (heads_refused stale_head))
  unfolding put_head head_row
  put_head-refused s from t r same p e v =
      let row = head_row s (codec.marshal s) in
      let here : find_head s.id t ≡ some r = ap (λ i. find_head i t) same ∙ e in
      let refuses : put_session_head row from t ≡ (t, err stale_head) =
        unfold put_session_head not_written in ground (arith, here, v, p) in
      ap (λ out. (out.0, put_fault out.1)) refuses

  put_head-gone :
      (s : Session) (from : ℕ) (t : Table)
      → s.id ≡ id
      → 0 < from
      → find_head id t ≡ none
      → (put_head codec s from t).1 ≡ err no_such_session
  unfolding put_head head_row
  put_head-gone s from t same p e =
      let row = head_row s (codec.marshal s) in
      let here : find_head s.id t ≡ none = ap (λ i. find_head i t) same ∙ e in
      let answers : (put_session_head row from t).1 ≡ err not_found =
        ground (arith, (put_session_head_lem row from t).0, here, p) in
      ap put_fault answers

  same_row :
      (t u : Table)
      → find_head id u ≡ find_head id t
      → IsStored codec reads id t
      → IsStored codec reads id u
  same_row t u e h r f = h r (sym e ∙ f)

  module _ (change : Session → Option Session) (edge : IsEdge codec reads change) where
    revise-Turn :
        (r : Round) (t : Table) (row : SessionRow) (s s' : Session)
        → IsStored codec reads id (r.between (r.before t))
        → MovesOn id r.between
        → find_head id (r.before t) ≡ some row
        → codec.unmarshal row.head ≡ some s
        → s.id ≡ id
        → s.version ≡ row.version
        → 0 < row.version
        → reads.Storable s
        → change s ≡ some s'
        → Turn change r t (revise_head codec r.now s' (r.between (r.before t)))
    unfolding revise_head
    revise-Turn r t row s s' stored on f parsed same v p fit made =
        let w = r.between (r.before t) in
        let (kept_id, kept_version, storable) = edge s s' made in
        let there : s'.id ≡ id = kept_id ∙ same in
        let from : s'.version ≡ row.version = kept_version ∙ v in
        let next : Session = record s' { version = suc s'.version; updated = r.now } in
        let fits : reads.Storable next = reads.revises s' (suc s'.version) r.now (storable fit) in
        let behind : 0 < s'.version = omega (arith, from, p) in
        elim (Option-cases (find_head id w)) [
          | inl e ↦ inr (inl (inl (put_head-gone next s'.version w there behind e)))
          | inr (row', e) ↦ elim (Bool-cases (row'.version == s'.version)) [
            | inl q ↦
                let (answers, reads_it) =
                  put_head-accepted next s'.version w row' fits there behind e q in
                let equal : row' ≡ row = on (r.before t) row row' f e (ground (arith, q, from)) in
                let held : codec.unmarshal row'.head ≡ some s =
                  ap (λ (x : SessionRow). codec.unmarshal x.head) equal ∙ parsed in
                inl (answers, inr (s, s', read_found w row' s e held, made, reads_it))
            | inr q ↦ inr (
                inr (
                  put_head-refused next s'.version w row' there behind e q,
                  stored,
                  λ quiet. absurd (
                      let same_row : some row' ≡ some row = sym e ∙ quiet (r.before t) ∙ f in
                      ground (arith, same_row, q, from)),
                ))
          ]
        ]

    pub revise_once-Turn :
        (r : Round) (t : Table)
        → IsStored codec reads id t
        → Keeps codec reads id r.before
        → Keeps codec reads id r.between
        → MovesOn id r.between
        → Turn change r t (revise_once codec change id r t)
    unfolding revise_once
    revise_once-Turn r t h keeps_before keeps_between on =
        let stored = keeps_before t h in
        elim (Option-cases (find_head id (r.before t))) [
          | inl e ↦ rw (read_none (r.before t) e, revise_once) (inr (inl (inr refl)))
          | inr (row, e) ↦
              let (s, u, same, v, p, fit) = stored row e in
              let found = read_found (r.before t) row s e u in
              elim (Option-cases (change s)) [
                | inl c ↦ rw (found, c, revise_once) (inl (refl, inl (s, refl, found, c)))
                | inr (s', c) ↦
                    rw (found, c, revise_once)
                      (revise-Turn r t row s s' (keeps_between (r.before t) stored) on e u same v p
                        fit c)
              ]
        ]
