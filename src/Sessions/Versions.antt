-- ===== src/Sessions/Versions.antt =====
-- The version check of a session's head: no update is lost, and none brings a forgotten head back.
use sennit.Prelude.{
  ℕ, Bool, true, not, ◌&&◌, Option, none, some, [], ◌∷◌, ◌++◌, ok, err, ◌==◌, if◌then◌else◌, ◌≡◌,
  refl, ◌∙◌, sym, ap, arith, inl, inr, Bool-cases, Option-cases,
}
use sennit.Record.{RecordId}
use sennit.Sessions.{
  SessionRow, Table, stale_head, not_found, find_head, is_held, is_at, insert_head, update_head,
  not_written, put_session_head, forget_session_head, forget_session_head_at,
}

find_head-snoc :
    (t : Table) (s : SessionRow) (id : RecordId)
    → find_head id (t ++ s ∷ [])
      ≡ (if is_held (find_head id t) then find_head id t else if s.id == id then some s else none)
unfolding find_head
find_head-snoc [] s id = ground arith
find_head-snoc (r ∷ t) s id = ground (arith, find_head-snoc t s id)

-- What an update leaves of a row.
abbrev pub updated_row : SessionRow → ℕ → Option SessionRow → Option SessionRow
updated_row s expect none = none
updated_row s expect (some r) =
    if r.id == s.id && (r.version == expect)
    then some (record s { created = r.created })
    else some r

find_head-update_head :
    (s : SessionRow) (expect : ℕ) (t : Table) (id : RecordId)
    → find_head id (update_head s expect t) ≡ updated_row s expect (find_head id t)
unfolding find_head update_head
find_head-update_head s expect [] id = refl
find_head-update_head s expect (r ∷ t) id = ground (arith, find_head-update_head s expect t id)

pub find_head-forget_session_head :
    (id : RecordId) (t : Table) (j : RecordId)
    → find_head j (forget_session_head id t) ≡ (if id == j then none else find_head j t)
unfolding find_head forget_session_head
find_head-forget_session_head id [] j = ground arith
find_head-forget_session_head id (r ∷ t) j = ground (arith, find_head-forget_session_head id t j)

-- Whether a write is accepted: a creation of a head that is not there, or a replacement of one that is
-- still at the version that the writer read.
abbrev pub accepted : ℕ → Option SessionRow → Bool
accepted expect o = if expect == 0 then not (is_held o) else is_at expect o

-- What an accepted write leaves: the creation time stays.
abbrev pub rewritten : SessionRow → Option SessionRow → SessionRow
rewritten s none = s
rewritten s (some r) = record s { created = r.created }

pub find_head-id :
    (id : RecordId) (t : Table) (r : SessionRow) → find_head id t ≡ some r → r.id ≡ id
unfolding find_head
find_head-id id [] r h = absurd (ground arith)
find_head-id id (x ∷ t) r h = elim (Bool-cases (x.id == id)) [
  | inl e ↦ ground (arith, h, e)
  | inr e ↦ find_head-id id t r (ground (arith, h, e))
]

found_inserted :
    (s : SessionRow) (t : Table) (id : RecordId)
    → find_head s.id t ≡ none
    → find_head id (t ++ s ∷ []) ≡ (if s.id == id then some s else find_head id t)
found_inserted s t id e = elim (Bool-cases (s.id == id)) [
  | inl q ↦
      let same : s.id ≡ id = ground (arith, q) in
      let none_here : find_head id t ≡ none = ap (λ i. find_head i t) (sym same) ∙ e in
      ground (arith, e, q, none_here, find_head-snoc t s id)
  | inr q ↦ ground (arith, e, q, find_head-snoc t s id)
]

found_updated :
    (s : SessionRow) (expect : ℕ) (t : Table) (id : RecordId) (r : SessionRow)
    → find_head s.id t ≡ some r
    → (r.version == expect) ≡ true
    → find_head id (update_head s expect t)
      ≡ (if s.id == id then some (record s { created = r.created }) else find_head id t)
found_updated s expect t id r e v = elim (Bool-cases (s.id == id)) [
  | inl q ↦
      let same : s.id ≡ id = ground (arith, q) in
      let here : find_head id t ≡ some r = ap (λ i. find_head i t) (sym same) ∙ e in
      ground (arith, find_head-id s.id t r e, q, v, here, find_head-update_head s expect t id)
  | inr q ↦ elim (Option-cases (find_head id t)) [
    | inl g ↦ ground (arith, q, g, find_head-update_head s expect t id)
    | inr (r', g) ↦
        ground (arith, q, g, find_head-id id t r' g, find_head-update_head s expect t id)
  ]
]

-- What a write that was accepted leaves to be found, and what one that was refused does.
found_written :
    (s : SessionRow) (expect : ℕ) (t : Table) (id : RecordId)
    → find_head id (put_session_head s expect t).0 ≡ (
        if accepted expect (find_head s.id t) && (s.id == id)
        then some (rewritten s (find_head s.id t))
        else find_head id t)
unfolding put_session_head insert_head
found_written s expect t id = elim (Bool-cases (expect == 0)) [
  | inl z ↦ elim (Option-cases (find_head s.id t)) [
    | inl e ↦ rw (z, e, if◌then◌else◌) (found_inserted s t id e)
    | inr (r, e) ↦ rw (z, e, if◌then◌else◌) refl
  ]
  | inr z ↦ elim (Option-cases (find_head s.id t)) [
    | inl e ↦ rw (z, e, if◌then◌else◌) refl
    | inr (r, e) ↦ elim (Bool-cases (r.version == expect)) [
      | inl v ↦ rw (z, e, v, if◌then◌else◌) (found_updated s expect t id r e v)
      | inr v ↦ rw (z, e, v, if◌then◌else◌) refl
    ]
  ]
]

-- A write of a head is accepted exactly where it creates one that is not there, or replaces one that
-- is still at the version that the writer read. It is refused as not found where a replacement finds
-- no head, and otherwise as stale. An accepted write leaves the new head, with its creation time kept;
-- a refused one leaves every head as it was, and no write touches another session.
pub put_session_head_lem :
    (s : SessionRow) (expect : ℕ) (t : Table)
    → ((put_session_head s expect t).1 ≡ (
        if accepted expect (find_head s.id t)
        then ok tt
        else if expect == 0
        then err stale_head
        else if is_held (find_head s.id t)
        then err stale_head
        else err not_found))
      × ((id : RecordId)
          → find_head id (put_session_head s expect t).0 ≡ (
              if accepted expect (find_head s.id t) && (s.id == id)
              then some (rewritten s (find_head s.id t))
              else find_head id t))
put_session_head_lem s expect t =
    (unfold put_session_head not_written in ground arith, found_written s expect t)

-- Dropping a head at a version drops it exactly where it is still at that version, is refused as stale
-- where it has moved on, and is no error where it is gone; no other head is touched.
pub forget_session_head_at_lem :
    (id : RecordId) (version : ℕ) (t : Table)
    → ((forget_session_head_at id version t).1 ≡ (
        if is_held (find_head id t) && not (is_at version (find_head id t))
        then err stale_head
        else ok tt))
      × ((j : RecordId)
          → find_head j (forget_session_head_at id version t).0
            ≡ (if is_at version (find_head id t) && (id == j) then none else find_head j t))
unfolding forget_session_head_at
forget_session_head_at_lem id version t = elim (Bool-cases (is_at version (find_head id t))) [
  | inl e ↦
      rw (e, if◌then◌else◌)
        (ground arith, λ j. ground (arith, find_head-forget_session_head id t j))
  | inr e ↦ rw (e, if◌then◌else◌) (ground arith, λ j. ground arith)
]
