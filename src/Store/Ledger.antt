-- ===== src/Store/Ledger.antt =====
-- The order of a write: no slab is pinned that the ledger does not have.
use sennit.Prelude.{
  String, true, none, some, List, [], ◌∷◌, ◌++◌, ◌≡◌, refl, ap, sym, Result, ok, err, All, arith,
  Result-cases, Option-cases, inl, inr, eq_iff, subst,
}
use sennit.Prelude.Keys.{text_key, contains}
use sennit.Store.{
  Blob, Written, SlabsWritten, Placement, Uploaded, Flush, Fault, Call, upload, record_slabs,
  pin_slabs, pin_objects, Boundary, payloads, written_of, write_batch, put_batch, step, report,
  pin_batch_objects, pin_batch_slabs, record_batch, entry_of,
}

-- Every pin in a sequence of calls is of slabs that were recorded before it, in this sequence or in
-- `known`.
abbrev pub PinsRecorded : List String → List Call → Type 0
PinsRecorded known [] = Unit
PinsRecorded known (upload p ∷ cs) = PinsRecorded known cs
PinsRecorded known (record_slabs w ∷ cs) = PinsRecorded (w.slabs ++ known) cs
PinsRecorded known (pin_slabs u ∷ cs) =
    All (λ s. contains known s ≡ true) u.slabs × PinsRecorded known cs
PinsRecorded known (pin_objects u ∷ cs) =
    All (λ s. contains known s ≡ true) u.slabs × PinsRecorded known cs

-- What is recorded once a call has been made.
abbrev after : Call → List String → List String
after (record_slabs w) known = w.slabs ++ known
after c known = known

contains-cons :
    (x : String) (xs ss : List String)
    → All (λ s. contains xs s ≡ true) ss
    → All (λ s. contains (x ∷ xs) s ≡ true) ss
contains-cons x xs [] h = tt
contains-cons x xs (s ∷ ss) h = (ground (arith, h.0), contains-cons x xs ss h.1)

recorded_known : (ss known : List String) → All (λ s. contains (ss ++ known) s ≡ true) ss
recorded_known [] known = tt
recorded_known (s ∷ ss) known =
    (ground (arith, eq_iff s s), contains-cons s (ss ++ known) ss (recorded_known ss known))

-- A call that is no pin, or a pin of slabs that are recorded, keeps the order of what follows.
step-PinsRecorded {ℓ} :
    {A : Type ℓ} (known : List String) (c : Call) (r : Result Fault A)
    (next : A → List Call × Result Fault Flush)
    → ((cs : List Call) → PinsRecorded (after c known) cs → PinsRecorded known (c ∷ cs))
    → ((a : A) → r ≡ ok a → PinsRecorded (after c known) (next a).0)
    → PinsRecorded known (step c r next).0
step-PinsRecorded known c (err e) next add follow = add [] tt
step-PinsRecorded known c (ok a) next add follow = add (next a).0 (follow a refl)

-- Whatever the network and the ledger answer, a write pins only slabs that it has given to the ledger
-- before.
pub put_batch-PinsRecorded :
    (b : Boundary) (blobs : List Blob) → PinsRecorded [] (put_batch b blobs).0
unfolding put_batch
put_batch-PinsRecorded b [] = tt
put_batch-PinsRecorded b (x ∷ xs) = elim (Option-cases b.ledger) [
  | inl e ↦ rw (e, put_batch) tt
  | inr (ledger, e) ↦
      rw (e, put_batch)
        (unfold write_batch in
          step-PinsRecorded [] (upload (payloads (x ∷ xs))) (b.on_upload (payloads (x ∷ xs))) _
            (λ cs h. h)
            λ batch _.
              step-PinsRecorded [] (record_slabs (entry_of (x ∷ xs) batch))
                (ledger (entry_of (x ∷ xs) batch)) _ (λ cs h. h)
                λ _ _.
                  step-PinsRecorded (batch.slabs ++ []) (pin_slabs batch) (b.on_pin_slabs batch) _
                    (λ cs h. (recorded_known batch.slabs [], h))
                    λ _ _.
                      step-PinsRecorded (batch.slabs ++ []) (pin_objects batch)
                        (b.on_pin_objects batch) _ (λ cs h. (recorded_known batch.slabs [], h))
                        λ _ _. tt)
]

abbrev pub Matches : List Blob → List Placement → List Written → Type 0
Matches blobs [] [] = Unit
Matches (b ∷ bs) (p ∷ ps) (w ∷ ws) =
    ((w.cid ≡ b.cid) × (w.object_ref ≡ p.ref) × (w.slab_id ≡ p.slab) × (w.bytes ≡ p.bytes))
    × Matches bs ps ws
Matches blobs ps ws = ⊥

written_of-Matches :
    (blobs : List Blob) (ps : List Placement) (ws : List Written)
    → written_of blobs ps ≡ ok ws
    → Matches blobs ps ws
unfolding written_of
written_of-Matches [] [] [] h = tt
written_of-Matches [] [] (w ∷ ws) h = cc
written_of-Matches [] (p ∷ ps) ws h = absurd (cc)
written_of-Matches (b ∷ bs) [] [] h = tt
written_of-Matches (b ∷ bs) [] (w ∷ ws) h = cc
written_of-Matches (b ∷ bs) (p ∷ ps) ws h = elim (Result-cases (written_of bs ps)) [
  | inr (e, q) ↦ absurd (ground (arith, h, q))
  | inl (rest, q) ↦
      let here : Written = record {
        cid = b.cid;
        object_ref = p.ref;
        slab_id = p.slab;
        bytes = p.bytes;
      } in
      let eq : here ∷ rest ≡ ws = ground (arith, h, q) in
      subst (Matches (b ∷ bs) (p ∷ ps)) eq
        ((refl, refl, refl, refl), written_of-Matches bs ps rest q)
]

abbrev flush_of : List Written → Uploaded → Flush
flush_of ws batch = record { written = ws; slabs = batch.slabs }

fault-ne-flush : {e : Fault} {f : Flush} → ◌≡◌ {A = Result Fault Flush} (err e) (ok f) → ⊥
fault-ne-flush h = cc

step-eq-ok {ℓ} :
    {A : Type ℓ} (c : Call) (r : Result Fault A) (next : A → List Call × Result Fault Flush)
    (f : Flush)
    → (step c r next).1 ≡ ok f
    → (a : A) × (r ≡ ok a) × ((next a).1 ≡ ok f)
step-eq-ok c (err e) next f h = absurd (fault-ne-flush h)
step-eq-ok c (ok a) next f h = (a, refl, h)

-- A write of at least one blob that succeeds has uploaded the payloads, has recorded the upload's slabs
-- in the ledger, and has pinned them and their objects, each with success; it returns the upload's
-- slabs, and for each placement the content address of the blob at its index.
pub put_batch_ok :
    (b : Boundary) (x : Blob) (xs : List Blob) (f : Flush)
    → (put_batch b (x ∷ xs)).1 ≡ ok f
    → (ledger : (SlabsWritten → Result Fault (Unit {0}))) × (batch : Uploaded) × (b.ledger
        ≡ some ledger)
      × (b.on_upload (payloads (x ∷ xs)) ≡ ok batch)
      × (ledger (entry_of (x ∷ xs) batch) ≡ ok tt)
      × (b.on_pin_slabs batch ≡ ok tt)
      × (b.on_pin_objects batch ≡ ok tt)
      × Matches (x ∷ xs) batch.placements f.written
      × (f.slabs ≡ batch.slabs)
unfolding put_batch
put_batch_ok b x xs f h = elim (Option-cases b.ledger) [
  | inl e ↦ absurd (no_ledger_fails e)
  | inr (ledger, e) ↦
      let blobs : List Blob = x ∷ xs in
      let (batch, up, h1) =
        step-eq-ok (upload (payloads blobs)) (b.on_upload (payloads blobs))
          (record_batch b ledger blobs) f (written ledger e) in
      let (_, led, h2) =
        step-eq-ok (record_slabs (entry_of blobs batch)) (ledger (entry_of blobs batch))
          (pin_batch_slabs b blobs batch) f h1 in
      let (_, slabs, h3) =
        step-eq-ok (pin_slabs batch) (b.on_pin_slabs batch) (pin_batch_objects b blobs batch) f
          h2 in
      let (_, objects, h4) =
        step-eq-ok (pin_objects batch) (b.on_pin_objects batch) (report blobs batch) f h3 in
      let (ws, made, same) = reported batch h4 in
      (
        ledger,
        batch,
        e,
        up,
        led,
        slabs,
        objects,
        subst (Matches blobs batch.placements) (ap (λ (g : Flush). g.written) same)
            (written_of-Matches blobs batch.placements ws made),
        sym (ap (λ (g : Flush). g.slabs) same),
      )
]
  where
    no_ledger_fails : b.ledger ≡ none → ⊥
    no_ledger_fails e = ground (arith, h, e)

    written :
        (ledger : SlabsWritten → Result Fault (Unit {0}))
        → b.ledger ≡ some ledger
        → (write_batch b ledger (x ∷ xs)).1 ≡ ok f
    written ledger e = ground (arith, h, e)

    reported :
        (batch : Uploaded)
        → (report (x ∷ xs) batch tt).1 ≡ ok f
        → (ws : List Written) × (written_of (x ∷ xs) batch.placements ≡ ok ws)
          × (flush_of ws batch ≡ f)
    reported batch k = elim (Result-cases (written_of (x ∷ xs) batch.placements)) [
      | inl (ws, q) ↦ (ws, q, ground (arith, k, q))
      | inr (y, q) ↦ absurd (ground (arith, k, q))
    ]
