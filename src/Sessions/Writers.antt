-- ===== src/Sessions/Writers.antt =====
-- Several writers of one vault: whatever they do to the heads, no turn is lost between a read and the
-- write that it leads to.
use sennit.Prelude.{
  ℕ, suc, ◌<◌, Bool, true, false, ◌&&◌, Option, none, some, Result, ok, err, ◌==◌, if◌then◌else◌,
  ◌≡◌, refl, ◌∙◌, sym, ap, arith, ◌⊎◌, inl, inr, Bool-cases, Option-cases,
}
use sennit.Record.{RecordId}
use sennit.Sessions.{
  SessionRow, Table, Fault, stale_head, not_found, find_head, is_held, is_at, put_session_head,
  forget_session_head_at, forget_session_head,
}
use sennit.Sessions.Versions.{
  accepted, rewritten, put_session_head_lem, forget_session_head_at_lem,
  find_head-forget_session_head,
}

-- What any writer may do to the heads: one that is not there is created, by a save or by a rebuild of the
-- vault; one is written at the version behind the one that was read; one is dropped.
pub data Step : Table → Table → Type 0 where
  create : (s : SessionRow) (t : Table) → Step t (put_session_head s 0 t).0
  write :
      (s : SessionRow) (expect : ℕ) (t : Table)
      → 0 < expect
      → s.version ≡ suc expect
      → Step t (put_session_head s expect t).0
  forget : (j : RecordId) (t : Table) → Step t (forget_session_head j t)
  forget_at :
      (j : RecordId) (version : ℕ) (t : Table) → Step t (forget_session_head_at j version t).0

pub data Reach : Table → Table → Type 0 where
  stay : (t : Table) → Reach t t
  next : {t u v : Table} → Reach t u → Step u v → Reach t v

-- A step that creates the head of a session where there is none.
abbrev pub Creates : RecordId → {t u : Table} → Step t u → Type 0
Creates id (create s t) = (s.id ≡ id) × (find_head id t ≡ none)
Creates id (write s expect t p v) = ⊥
Creates id (forget j t) = ⊥
Creates id (forget_at j version t) = ⊥

-- Somewhere on the way the head of a session was created anew.
abbrev pub Recreated : RecordId → {t u : Table} → Reach t u → Type 0
Recreated id (stay t) = ⊥
Recreated id (next reach step) = Recreated id reach ⊎ Creates id step

-- How a head that was read can have changed: not at all, to a later version, or it has gone.
abbrev pub Since : SessionRow → Option SessionRow → Type 0
Since r none = Unit {0}
Since r (some r') = (r' ≡ r) ⊎ (r.version < r'.version)

-- A step from any state takes a head to itself, to a later version or away, and brings none.
abbrev Moves : Option SessionRow → Option SessionRow → Type 0
Moves none o = o ≡ none
Moves (some r) o = Since r o

Moves-same : (o o' : Option SessionRow) → o' ≡ o → Moves o o'
Moves-same none o' e = e
Moves-same (some r) o' e = rw e (inl refl)

Moves-gone : (o o' : Option SessionRow) → o' ≡ none → Moves o o'
Moves-gone none o' e = e
Moves-gone (some r) o' e = rw e tt

Moves-written :
    (s : SessionRow) (expect : ℕ) (o o' : Option SessionRow)
    → 0 < expect
    → s.version ≡ suc expect
    → o' ≡ (if accepted expect o then some (rewritten s o) else o)
    → Moves o o'
Moves-written s expect none o' p v e = e ∙ ground (arith, p)
Moves-written s expect (some r) o' p v e = elim (Bool-cases (accepted expect (some r))) [
  | inl a ↦
      let e' : o' ≡ some (rewritten s (some r)) = e ∙ ground (arith, a) in
      rw e' (inr (ground (arith, a, v, p)))
  | inr a ↦ Moves-same (some r) o' (e ∙ ground (arith, a))
]

Moves-dropped : (o o' : Option SessionRow) (b : Bool) → o' ≡ (if b then none else o) → Moves o o'
Moves-dropped o o' true e = Moves-gone o o' e
Moves-dropped o o' false e = Moves-same o o' e

-- What the write answers, by what it finds.
abbrev outcome : ℕ → Option SessionRow → Result Fault (Unit {0})
outcome expect o =
    if accepted expect o
    then ok tt
    else if expect == 0
    then err stale_head
    else if is_held o
    then err stale_head
    else err not_found

accepted_ok :
    (expect : ℕ) (o : Option SessionRow) → outcome expect o ≡ ok tt → accepted expect o ≡ true
accepted_ok expect o h = ground (arith, h)

step-Moves :
    (id : RecordId) {t u : Table} (step : Step t u)
    → Creates id step ⊎ Moves (find_head id t) (find_head id u)
step-Moves id (create s t) = elim (Bool-cases (s.id == id)) [
  | inr q ↦
      inr (Moves-same (find_head id t) _ ((put_session_head_lem s 0 t).1 id ∙ ground (arith, q)))
  | inl q ↦ elim (Option-cases (find_head id t)) [
    | inl e ↦ inl (ground (arith, q), e)
    | inr (r, e) ↦
        let same : s.id ≡ id = ground (arith, q) in
        let here : find_head s.id t ≡ some r = ap (λ i. find_head i t) same ∙ e in
        inr
          (Moves-same (find_head id t) _ ((put_session_head_lem s 0 t).1 id ∙ ground (arith, here)))
  ]
]
step-Moves id (write s expect t p v) = elim (Bool-cases (s.id == id)) [
  | inl q ↦
      let same : s.id ≡ id = ground (arith, q) in
      let here : find_head s.id t ≡ find_head id t = ap (λ i. find_head i t) same in
      inr (
        Moves-written s expect (find_head id t) (find_head id (put_session_head s expect t).0) p v
          ((put_session_head_lem s expect t).1 id ∙ rw here (ground (arith, q))))
  | inr q ↦
      inr
        (Moves-same (find_head id t) _ ((put_session_head_lem s expect t).1 id ∙ ground (arith, q)))
]
step-Moves id (forget j t) = inr (
    Moves-dropped (find_head id t) (find_head id (forget_session_head j t)) (j == id)
      (find_head-forget_session_head j t id))
step-Moves id (forget_at j version t) = inr (
    Moves-dropped (find_head id t) (find_head id (forget_session_head_at j version t).0)
      (is_at version (find_head j t) && (j == id)) ((forget_session_head_at_lem j version t).1 id))

Since-Moves : (r : SessionRow) (o o' : Option SessionRow) → Since r o → Moves o o' → Since r o'
Since-Moves r none o' h m = rw m tt
Since-Moves r (some r') none h m = tt
Since-Moves r (some r') (some r'') (inl e) (inl e') = inl (e' ∙ e)
Since-Moves r (some r') (some r'') (inl e) (inr lt) = inr (ground (arith, e, lt))
Since-Moves r (some r') (some r'') (inr lt) (inl e') = inr (ground (arith, e', lt))
Since-Moves r (some r') (some r'') (inr lt) (inr lt') = inr (omega (arith, lt, lt'))

Reach-Since :
    (id : RecordId) {t t' : Table} (r : SessionRow) (reach : Reach t t')
    → find_head id t ≡ some r
    → Recreated id reach ⊎ Since r (find_head id t')
Reach-Since id r (stay t) h = inr (rw h (inl refl))
Reach-Since id r (next {t} {u} {v} reach step) h = elim (Reach-Since id r reach h) [
  | inl before ↦ inl (inl before)
  | inr since ↦ elim (step-Moves id step) [
    | inl created ↦ inl (inr created)
    | inr moves ↦ inr (Since-Moves r (find_head id u) (find_head id v) since moves)
  ]
]

unchanged :
    (r : SessionRow) (o : Option SessionRow)
    → Since r o
    → 0 < r.version
    → accepted r.version o ≡ true
    → o ≡ some r
unchanged r none h p a = absurd (ground (arith, p, a))
unchanged r (some r') (inl e) p a = ap some e
unchanged r (some r') (inr lt) p a = absurd (ground (arith, p, a, lt))

-- A write of a session's head is accepted only where nobody has written it, or dropped it, since the
-- writer read it: if a head was read at a version above 0, then however many steps of any writers and in
-- whatever order followed, a write at that version that succeeds finds the very head that was read;
-- unless the head was dropped on the way and then created anew, as a rebuild of the vault may do, which
-- starts its versions again.
pub no_lost_update :
    (id : RecordId) (t t' : Table) (r s : SessionRow) (reach : Reach t t')
    → find_head id t ≡ some r
    → 0 < r.version
    → s.id ≡ id
    → (put_session_head s r.version t').1 ≡ ok tt
    → Recreated id reach ⊎ (find_head id t' ≡ some r)
no_lost_update id t t' r s reach h p same done = elim (Reach-Since id r reach h) [
  | inl recreated ↦ inl recreated
  | inr since ↦
      let here : find_head s.id t' ≡ find_head id t' = ap (λ i. find_head i t') same in
      inr (
        unchanged r (find_head id t') since p (
          accepted_ok r.version (find_head id t') (
            sym (ap (outcome r.version) here)
            ∙ sym (put_session_head_lem s r.version t').0
            ∙ done)))
]
