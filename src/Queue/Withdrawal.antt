-- ===== src/Queue/Withdrawal.antt =====
-- Taking records back out of the queue: a record leaves unless a flush holds it, and several leave
-- together or not at all.
use sennit.Prelude.{
  ℕ, ◌≡◌, refl, ◌∙◌, ap, sym, Bool, true, false, not, ◌&&◌, ◌||◌, Option, none, some, List, [], ◌∷◌,
  ◌==◌, if◌then◌else◌, arith, Bool-cases, ◌⊎◌, inl, inr, ==_iff, ok, err,
}
use sennit.Prelude.Keys.{number_key, contains}
use sennit.Record.{RecordId}
use sennit.Queue.{
  Row, Queue, claimed, is_free, drop_queued, find, withdraw_queued, any_held, remove_each,
  withdraw_queued_all,
}
use sennit.Queue.Order.{find-drop}

-- Whether a live claim holds a row.
abbrev pub held : ℕ → ℕ → Option Row → Bool
held stale now none = false
held stale now (some r) = not (is_free stale now r.claim)

abbrev pub queued : Option Row → Bool
queued none = false
queued (some r) = true

true-ne-false : true ≡ false → ⊥
true-ne-false h = cc

absent_same :
    (id other : RecordId) (q : Queue)
    → find id q ≡ none
    → find other q ≡ (if id == other then none else find other q)
absent_same id other q e = elim (Bool-cases (id == other)) [
  | inl h ↦ rw h (ap (λ (i : RecordId). find i q) (sym ((==_iff id other).0 h)) ∙ e)
  | inr h ↦ rw h refl
]

drop_absent : (id : RecordId) (q : Queue) → find id q ≡ none → drop_queued (id ∷ []) q ≡ q
unfolding drop_queued
drop_absent id [] h = refl
drop_absent id (r ∷ q) h = elim (Bool-cases (r.id == id)) [
  | inl e ↦ absurd (ground (arith, h, e))
  | inr e ↦ ground (arith, h, e, drop_absent id q, ==_iff id r.id, ==_iff r.id id)
]

-- Withdrawing one record, on every branch. Where a live claim holds it the answer is a refusal and the
-- queue is untouched; otherwise the answer says whether it was queued, it is out of the queue, and
-- every other row is as it was.
pub withdraw_queued_lem :
    (id : RecordId) (stale now : ℕ) (q : Queue)
    → ((withdraw_queued id stale now q).1
        ≡ (if held stale now (find id q) then err claimed else ok (queued (find id q))))
      × ((withdraw_queued id stale now q).0
          ≡ (if held stale now (find id q) then q else drop_queued (id ∷ []) q))
      × ((other : RecordId)
          → find other (withdraw_queued id stale now q).0
            ≡ (if held stale now (find id q) || not (id == other) then find other q else none))
unfolding withdraw_queued
withdraw_queued_lem id stale now q = go (find id q) refl
  where
    go :
        (o : Option Row)
        → find id q ≡ o
        → ((withdraw_queued id stale now q).1
            ≡ (if held stale now (find id q) then err claimed else ok (queued (find id q))))
          × ((withdraw_queued id stale now q).0
              ≡ (if held stale now (find id q) then q else drop_queued (id ∷ []) q))
          × ((other : RecordId)
              → find other (withdraw_queued id stale now q).0
                ≡ (if held stale now (find id q) || not (id == other) then find other q else none))
    go none e = (
      ground (arith, e),
      ground (arith, e, drop_absent id q e),
      λ other. ground (arith, e, absent_same id other q e),
    )
    go (some r) e = (
      ground (arith, e),
      ground (arith, e),
      λ other. ground (arith, e, find-drop (id ∷ []) q other),
    )

find-remove_each :
    (is : List RecordId) (q : Queue) (id : RecordId)
    → find id (remove_each is q).0 ≡ (if contains is id then none else find id q)
unfolding remove_each
find-remove_each [] q id = refl
find-remove_each (i ∷ is) q id =
    find-remove_each is (drop_queued (i ∷ []) q) id ∙ ground (arith, find-drop (i ∷ []) q id)

-- The records that were noted are those of the list that were queued.
contains-remove_each :
    (is : List RecordId) (q : Queue) (id : RecordId)
    → contains (remove_each is q).1 id ≡ (contains is id && queued (find id q))
unfolding remove_each
contains-remove_each [] q id = refl
contains-remove_each (i ∷ is) q id = elim (Bool-cases (i == id)) [
  | inl e ↦
      let same : i ≡ id = (==_iff i id).0 e in
      ground (
        arith,
        contains-remove_each is (drop_queued (i ∷ []) q) id,
        find-drop (i ∷ []) q id,
        ap (λ (j : RecordId). find j q) same,
      )
  | inr e ↦
      ground (arith, contains-remove_each is (drop_queued (i ∷ []) q) id, find-drop (i ∷ []) q id)
]

-- Whether a live claim holds one of the records.
pub any_held_lem :
    (stale now : ℕ) (is : List RecordId) (q : Queue) (id : RecordId)
    → contains is id ≡ true
    → held stale now (find id q) ≡ true
    → any_held stale now is q ≡ true
unfolding any_held
any_held_lem stale now [] q id h k = cc
any_held_lem stale now (i ∷ is) q id h k = elim (Bool-cases (i == id)) [
  | inl e ↦
      let same : i ≡ id = (==_iff i id).0 e in
      ground (arith, k, ap (λ (j : RecordId). find j q) same)
  | inr e ↦ ground (arith, any_held_lem stale now is q id (ground arith) k)
]

pub any_held-holder :
    (stale now : ℕ) (is : List RecordId) (q : Queue)
    → any_held stale now is q ≡ true
    → (id : RecordId) × (contains is id ≡ true) × (held stale now (find id q) ≡ true)
unfolding any_held
any_held-holder stale now [] q h = absurd (cc)
any_held-holder stale now (i ∷ is) q h = elim (Bool-cases (held stale now (find i q))) [
  | inl k ↦ (i, ground arith, k)
  | inr k ↦
      let (id, c, d) = any_held-holder stale now is q (ground arith) in (id, ground (arith, c), d)
]

-- Withdrawing several records is all or nothing. It is refused, with the queue untouched, only where a
-- live claim holds one of them, and always where one does. Otherwise every one of them is out of the
-- queue, every other row is as it was, and the answer names exactly those that were queued.
pub withdraw_queued_all_lem :
    (chosen : List RecordId) (stale now : ℕ) (q : Queue)
    → (((id : RecordId) × (contains chosen id ≡ true) × (held stale now (find id q) ≡ true))
        × (withdraw_queued_all chosen stale now q ≡ (q, err claimed)))
      ⊎ (((id : RecordId) → (contains chosen id && held stale now (find id q)) ≡ false)
          × ((gone : List RecordId) × ((withdraw_queued_all chosen stale now q).1 ≡ ok gone)
              × ((id : RecordId) → contains gone id ≡ (contains chosen id && queued (find id q))))
          × ((id : RecordId)
              → find id (withdraw_queued_all chosen stale now q).0
                ≡ (if contains chosen id then none else find id q)))
unfolding withdraw_queued_all
withdraw_queued_all_lem chosen stale now q = elim (Bool-cases (any_held stale now chosen q)) [
  | inl h ↦ inl (any_held-holder stale now chosen q h, rw h refl)
  | inr h ↦ inr (
    (λ id. elim (Bool-cases (contains chosen id && held stale now (find id q))) [
      | inl k ↦ absurd (
          true-ne-false
            (sym (any_held_lem stale now chosen q id (ground (arith, k)) (ground (arith, k))) ∙ h))
      | inr k ↦ k
    ]),
    ((remove_each chosen q).1, rw h refl, contains-remove_each chosen q),
    rw h (find-remove_each chosen q),
  )
]
