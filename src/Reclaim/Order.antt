-- ===== src/Reclaim/Order.antt =====
-- The calls of a sweep: the objects first, then the slabs; nothing that the keep-set names, and nothing
-- of another device.
use sennit.Prelude.{
  ℕ, zero, suc, ◌≡◌, refl, ◌∙◌, ap, sym, String, true, false, List, [], ◌∷◌, ◌++◌, take, Result, ok,
  err, arith, Result-cases, ◌⊎◌, inl, inr, All, length, append_assoc, append-nil, eq_iff,
}
use sennit.Prelude.Keys.{text_key, contains}
use sennit.Slabs.{TrackedSlab, tracked_slabs}
use sennit.Reclaim.Plan.{StoredObject, Plan, Live, check, plan_sweep}
use sennit.Reclaim.Keeping.{is_ours, plan_sweep_lem}
use sennit.Reclaim.Device.{
  Fault, Call, delete_objects, unpin_slab, Network, Device, and_then, call, delete, forget, unpin,
  unpin_each,
}
use sennit.Reclaim.Sweep.{carry_out, sweep_walked, sweep}

abbrev pub unpins : List String → List Call
unpins [] = []
unpins (s ∷ ss) = unpin_slab s ∷ unpins ss

-- The calls of the loop are for the first slabs of its list.
pub unpin_each-calls :
    (n : Network) (ss : List String) (d : Device)
    → (k : ℕ) × ((unpin_each n ss d).0.calls ≡ d.calls ++ unpins (take k ss))
unfolding unpin_each unpin forget
unpin_each-calls n [] d = (0, sym (append-nil d.calls))
unpin_each-calls n (s ∷ ss) d = elim (Result-cases (n.on_unpin s)) [
  | inl (_, e) ↦
      let d' : Device = forget s (call (unpin_slab s) d) in
      let (k, h) = unpin_each-calls n ss d' in
      (
        suc k,
        rw (e, unpin_each) (h ∙ append_assoc d.calls (unpin_slab s ∷ []) (unpins (take k ss))),
      )
  | inr (_, e) ↦ (1, rw (e, unpin_each) refl)
]

-- The calls of a plan that is carried out: one that deletes the dead objects, and behind it the unpins of
-- the first of the slabs.
carry_out-calls :
    (n : Network) (plan : Plan) (d : Device)
    → (k : ℕ) × ((carry_out n plan d).0.calls
        ≡ d.calls ++ delete_objects plan.dead_objects ∷ unpins (take k plan.releasable_slabs))
unfolding carry_out delete
carry_out-calls n plan d = elim (Result-cases (n.on_delete plan.dead_objects)) [
  | inl (_, e) ↦
      let (k, h) =
        unpin_each-calls n plan.releasable_slabs (call (delete_objects plan.dead_objects) d) in
      (
        k,
        rw (e, carry_out)
            (h
              ∙ append_assoc d.calls (delete_objects plan.dead_objects ∷ [])
                  (unpins (take k plan.releasable_slabs))),
      )
  | inr (_, e) ↦ (0, rw (e, carry_out) refl)
]

carry_out-fresh :
    (n : Network) (plan : Plan) (d : Device)
    → d.calls ≡ []
    → (k : ℕ) × ((carry_out n plan d).0.calls
        ≡ delete_objects plan.dead_objects ∷ unpins (take k plan.releasable_slabs))
carry_out-fresh n plan d h =
    let (k, e) = carry_out-calls n plan d in
    (
      k,
      e
          ∙ ap
              (λ cs. cs ++ delete_objects plan.dead_objects ∷ unpins (take k plan.releasable_slabs))
              h,
    )

-- Asking for the account last leaves the device as it is.
pub account-last {ℓ} :
    {A : Type ℓ} (n : Network) (o : Device × Result Fault (Unit {0})) (report : ℕ → A)
    → (and_then o
        (λ d' _. and_then (d', n.on_account d'.calls) (λ d'' after. (d'', ok (report after))))).0
      ≡ o.0
account-last n (d, err e) report = refl
account-last n (d, ok _) report = elim (Result-cases (n.on_account d.calls)) [
  | inl (_, e) ↦ rw e refl
  | inr (_, e) ↦ rw e refl
]

-- What follows a step that makes no call leaves the calls as they are.
sweep_walked-calls :
    (n : Network) (live : Live) (before : ℕ) (walk : List StoredObject × List String) (d : Device)
    → (sweep_walked n live before walk d).0
      ≡ (carry_out n (plan_sweep live (tracked_slabs d.ledger) walk.0) d).0
unfolding sweep_walked
sweep_walked-calls n live before walk d =
    account-last n (carry_out n (plan_sweep live (tracked_slabs d.ledger) walk.0) d) _

-- A sweep that has made no call yet calls nothing, or its keep-set has passed the check against the ledger
-- and it deletes the plan's dead objects in one call and behind that unpins the first of the plan's slabs,
-- one by one, the plan being the one of the objects that the network listed: objects first, then slabs,
-- wherever it stops.
pub sweep_order :
    (n : Network) (live : Live) (d : Device)
    → d.calls ≡ []
    → ((sweep n live d).0 ≡ d)
      ⊎ ((check live (length (tracked_slabs d.ledger)) ≡ ok tt)
          × ((walk : (List StoredObject × List String)) × (n.on_walk [] ≡ ok walk)
              × (k : ℕ) × ((sweep n live d).0.calls
                  ≡ delete_objects (plan_sweep live (tracked_slabs d.ledger) walk.0).dead_objects
                    ∷ unpins (
                        take k
                          (plan_sweep live (tracked_slabs d.ledger) walk.0).releasable_slabs))))
unfolding sweep
sweep_order n live d h = elim (Result-cases (check live (length (tracked_slabs d.ledger)))) [
  | inr (_, e) ↦ inl (rw (e, sweep) refl)
  | inl (_, e) ↦ elim (Result-cases (n.on_account d.calls)) [
    | inr (_, a) ↦ inl (rw (e, a, sweep) refl)
    | inl (before, a) ↦ elim (Result-cases (n.on_walk d.calls)) [
      | inr (_, w) ↦ inl (rw (e, a, w, sweep) refl)
      | inl (walk, w) ↦
          let plan = plan_sweep live (tracked_slabs d.ledger) walk.0 in
          let (k, cs) = carry_out-fresh n plan d h in
          let same : (sweep n live d).0 ≡ (carry_out n plan d).0 =
            rw (e, a, w, sweep) (sweep_walked-calls n live before walk d) in
          inr (e, (walk, (ap n.on_walk (sym h) ∙ w), k, ap (λ (x : Device). x.calls) same ∙ cs))
    ]
  ]
]

-- A call that destroys nothing which the keep-set names, and nothing of another device.
abbrev pub Spares : Live → List TrackedSlab → Call → Type 0
Spares live tracked (delete_objects refs) = All (λ ref. contains live.objects ref ≡ false) refs
Spares live tracked (unpin_slab s) = (contains live.slabs s ≡ false) × (is_ours tracked s ≡ true)

All-contains :
    (P : String → Type 0) (xs : List String)
    → ((x : String) → contains xs x ≡ true → P x)
    → All P xs
All-contains P [] f = tt
All-contains P (x ∷ xs) f =
    (f x (ground (arith, eq_iff x x)), All-contains P xs (λ y h. f y (ground (arith, h))))

Spares-unpins :
    (live : Live) (tracked : List TrackedSlab) (k : ℕ) (ss : List String)
    → All (λ s. (contains live.slabs s ≡ false) × (is_ours tracked s ≡ true)) ss
    → All (Spares live tracked) (unpins (take k ss))
Spares-unpins live tracked zero ss h = tt
Spares-unpins live tracked (suc k) [] h = tt
Spares-unpins live tracked (suc k) (s ∷ ss) h = (h.0, Spares-unpins live tracked k ss h.1)

-- Whatever the network answers, a sweep that has made no call yet deletes no object that the keep-set
-- names, and unpins only slabs that the ledger lets this device release and the keep-set does not name.
pub sweep-Spares :
    (n : Network) (live : Live) (d : Device)
    → d.calls ≡ []
    → All (Spares live (tracked_slabs d.ledger)) (sweep n live d).0.calls
sweep-Spares n live d h = elim (sweep_order n live d h) [
  | inl e ↦ rw (e, h) tt
  | inr (_, (walk, _, k, e)) ↦
      let tracked : List TrackedSlab = tracked_slabs d.ledger in
      let plan : Plan = plan_sweep live tracked walk.0 in
      rw e (
        All-contains (λ ref. contains live.objects ref ≡ false) plan.dead_objects
            (λ x c. ground (arith, c, (plan_sweep_lem live tracked walk.0 x).0)),
        Spares-unpins live tracked k plan.releasable_slabs (
            All-contains _ plan.releasable_slabs (λ x c. (
              ground (arith, c, (plan_sweep_lem live tracked walk.0 x).1),
              ground (arith, c, (plan_sweep_lem live tracked walk.0 x).1),
            ))),
      )
]
