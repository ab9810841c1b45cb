-- ===== src/Reclaim/Empty.antt =====
-- An orphan holds nothing: the slabs that are found, and those that are released for it.
use sennit.Prelude.{
  ℕ, ◌≡◌, refl, ◌∙◌, ap, sym, String, Bool, true, false, not, ◌&&◌, ◌||◌, List, [], ◌∷◌, Result, ok,
  err, length, arith, str_eq, eq_iff, Bool-cases, ◌⊎◌, inl, inr, ltb,
}
use sennit.Prelude.Keys.{text_key, contains}
use sennit.Slabs.{tracked_slabs}
use sennit.Reclaim.Plan.{StoredObject}
use sennit.Reclaim.Keeping.{contains-put_key}
use sennit.Reclaim.Device.{Fault, Network, Device, and_then}
use sennit.Reclaim.Orphans.{
  Orphan, occupied_slabs, check_occupancy, known_slabs, list_orphans, orphans, orphan_ids,
}

-- Whether an object of the account sits on a slab.
abbrev pub holds_object : List StoredObject → String → Bool
holds_object [] slab = false
holds_object (o ∷ os) slab = str_eq o.slab slab || holds_object os slab

contains-occupied_slabs :
    (os : List StoredObject) (slab : String)
    → contains (occupied_slabs os) slab ≡ (holds_object os slab && not (str_eq slab ""))
unfolding occupied_slabs
contains-occupied_slabs [] slab = refl
contains-occupied_slabs (o ∷ os) slab = elim (Bool-cases (str_eq o.slab slab)) [
  | inl e ↦
      let same : o.slab ≡ slab = (eq_iff o.slab slab).0 e in
      let blank : str_eq o.slab "" ≡ str_eq slab "" = ap (λ s. str_eq s "") same in
      ground (
        arith,
        e,
        blank,
        contains-put_key o.slab (occupied_slabs os) slab,
        contains-occupied_slabs os slab,
      )
  | inr e ↦
      ground (
        arith,
        e,
        contains-put_key o.slab (occupied_slabs os) slab,
        contains-occupied_slabs os slab,
      )
]

contains-list_orphans :
    (occupied known pinned : List String) (slab : String)
    → contains (orphan_ids (list_orphans occupied known pinned)) slab
      ≡ (contains pinned slab && not (contains occupied slab))
unfolding list_orphans orphan_ids
contains-list_orphans occupied known [] slab = refl
contains-list_orphans occupied known (p ∷ ps) slab = elim (Bool-cases (str_eq p slab)) [
  | inl e ↦
      let same : p ≡ slab = (eq_iff p slab).0 e in
      ground (arith, contains-list_orphans occupied known ps slab, ap (contains occupied) same)
  | inr e ↦ ground (arith, contains-list_orphans occupied known ps slab)
]

fault-ne-ok {ℓ} : {A : Type ℓ} {e : Fault} {a : A} → ◌≡◌ {A = Result Fault A} (err e) (ok a) → ⊥
fault-ne-ok h = cc

ok_same {ℓ} : {A : Type ℓ} {a b : A} → ◌≡◌ {A = Result Fault A} (ok a) (ok b) → a ≡ b
ok_same h = cc

and_then-eq-ok {ℓ κ} :
    {A : Type ℓ} {B : Type κ} (d : Device) (r : Result Fault A)
    (next : Device → A → Device × Result Fault B) (b : B)
    → (and_then (d, r) next).1 ≡ ok b
    → (a : A) × (r ≡ ok a) × ((next d a).1 ≡ ok b)
and_then-eq-ok d (err e) next b h = absurd (fault-ne-ok h)
and_then-eq-ok d (ok a) next b h = (a, refl, h)

passed :
    (pinned occupied : ℕ) (release_all : Bool)
    → check_occupancy pinned occupied release_all ≡ ok tt
    → (pinned ≡ 0) ⊎ ((ltb 0 occupied || release_all) ≡ true)
unfolding check_occupancy
passed pinned occupied release_all h = elim (Bool-cases (ltb 0 occupied || release_all)) [
  | inl e ↦ inr e
  | inr e ↦ inl (ground (arith, h, e))
]

-- A search for orphans that answers has asked the network what is pinned and what the account holds, and
-- finds exactly the slabs that are pinned and hold no object; where the account holds nothing on any
-- slab though some are pinned, it answers only for a caller that asks for everything to be released.
pub orphans_lem :
    (n : Network) (release_all : Bool) (d : Device) (found : List Orphan)
    → (orphans n release_all d).1 ≡ ok found
    → (pinned : List String) × (walk : (List StoredObject × List String)) × (n.on_pinned d.calls
        ≡ ok pinned)
      × (n.on_walk d.calls ≡ ok walk)
      × ((slab : String)
          → contains (orphan_ids found) slab
            ≡ (contains pinned slab && not (holds_object walk.0 slab && not (str_eq slab ""))))
      × ((length pinned ≡ 0) ⊎ ((ltb 0 (length (occupied_slabs walk.0)) || release_all) ≡ true))
unfolding orphans check_occupancy
orphans_lem n release_all d found h =
    let (pinned, p, h1) = and_then-eq-ok d (n.on_pinned d.calls) _ found h in
    let (walk, w, h2) = and_then-eq-ok d (n.on_walk d.calls) _ found h1 in
    let (_, c, h3) =
      and_then-eq-ok d
        (check_occupancy (length pinned) (length (occupied_slabs walk.0)) release_all) _ found h2 in
    let known : List String = known_slabs (tracked_slabs d.ledger) in
    let same : list_orphans (occupied_slabs walk.0) known pinned ≡ found = ok_same h3 in
    (
      pinned,
      walk,
      p,
      w,
      (λ slab.
          ap (λ f. contains (orphan_ids f) slab) (sym same)
          ∙ contains-list_orphans (occupied_slabs walk.0) known pinned slab
          ∙ ap (λ b. contains pinned slab && not b) (contains-occupied_slabs walk.0 slab)),
      passed (length pinned) (length (occupied_slabs walk.0)) release_all c,
    )
