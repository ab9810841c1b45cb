-- ===== src/Manifest/Log/Compaction.antt =====
-- Folding the log into the snapshot: no lookup and no listing changes, nor does a crash between the
-- two steps change one.
use sennit.Prelude.{
  ℕ, zero, suc, ◌≡◌, refl, ◌∙◌, ap, sym, subst, Bool, true, false, not, ◌&&◌, some, List, [], ◌∷◌,
  Result, ok, err, length, All, Option-cases, Bool-cases, inl, inr, arith, if◌then◌else◌,
}
use sennit.Record.{RecordId}
use sennit.Manifest.{Entry}
use sennit.Manifest.Catalog.{Catalog, empty, current, known, put_entries}
use sennit.Manifest.Catalog.Fold.{
  latest, current-put_entries, latest-latest, All-known, order-put_entries-known,
}
use sennit.Manifest.Catalog.Sound.{
  IsSound, empty-IsSound, put_entries-IsSound, held, held-some, held-none, SameCatalog,
  put_entries-held,
}
use sennit.Manifest.Lines.{Format, Fault, write_failed, encode_entry}
use sennit.Manifest.Lines.Reading.{Written, Fits}
use sennit.Manifest.Log.{
  Log, Disk, takes_all, refused, write_pending, install_pending, replay, compact, install,
  empty_log, snapshot_lines, cut,
}
use sennit.Manifest.Log.Recovery.{Holds, replay-Holds, catalog_of, Written-append, Written-one}

pub catalog_of-IsSound : (f : Format) (ss es : List Entry) → IsSound (catalog_of f ss es)
catalog_of-IsSound f ss es =
    put_entries-IsSound (put_entries empty ss) es (put_entries-IsSound empty ss empty-IsSound)

-- Replaying a list of entries over a catalog that has them already changes nothing.
put_entries_twice :
    (base c : Catalog) (es : List Entry)
    → SameCatalog c (put_entries base es)
    → SameCatalog (put_entries c es) (put_entries base es)
put_entries_twice base c es same = record {
  currents = λ id.
      current-put_entries c es id
      ∙ ap (latest es id) (same.currents id ∙ current-put_entries base es id)
      ∙ latest-latest es id (current base id)
      ∙ sym (current-put_entries base es id);
  orders = order-put_entries-known c es (carry es (All-known base es)) ∙ same.orders;
}
  where
    carry :
        (fs : List Entry)
        → All (λ (e : Entry). known (current (put_entries base es) e.id) ≡ true) fs
        → All (λ (e : Entry). known (current c e.id) ≡ true) fs
    carry [] h = tt
    carry (e ∷ fs) h = (ap known (same.currents e.id) ∙ h.0, carry fs h.1)

-- Whether the disk takes the first writes.
abbrev pub all_take : (ℕ → Disk) → ℕ → Bool
all_take pending zero = true
all_take pending (suc n) = not (refused (pending 0)) && all_take (λ i. pending (suc i)) n

pub all_take-refused :
    (pending : ℕ → Disk) (n : ℕ)
    → all_take pending n ≡ false
    → (i : ℕ) × (refused (pending i) ≡ true)
all_take-refused pending zero h = absurd (ground (arith, h))
all_take-refused pending (suc n) h = elim (Bool-cases (refused (pending 0))) [
  | inl e ↦ (0, e)
  | inr e ↦
      let (i, r) = all_take-refused (λ i. pending (suc i)) n (ground (arith, h, e)) in (suc i, r)
]

module _ (f : Format) where
  snapshot_lines-Written :
      (nonce : ℕ → List ℕ) (es : List Entry)
      → All (λ (e : Entry). (n : List ℕ) → Fits f n e) es
      → Written f (snapshot_lines f nonce es) es
  unfolding snapshot_lines
  snapshot_lines-Written nonce [] h = refl
  snapshot_lines-Written nonce (e ∷ es) h =
      Written-append f (e ∷ []) es (encode_entry f (nonce 0) e)
        (snapshot_lines f (λ i. nonce (suc i)) es) (Written-one f (nonce 0) e (h.0 (nonce 0)))
        (snapshot_lines-Written (λ i. nonce (suc i)) es h.1)

  -- Every entry of the catalog fits a line, under any nonce.
  abbrev pub AllFit : Catalog → Type 0
  AllFit c = (id : RecordId) (e : Entry) → current c id ≡ some e → (n : List ℕ) → Fits f n e

  held-Fits :
      (c : Catalog) (is : List RecordId)
      → AllFit c
      → All (λ (e : Entry). (n : List ℕ) → Fits f n e) (held c is)
  held-Fits c [] h = unfold held in tt
  held-Fits c (i ∷ is) h = elim (Option-cases (current c i)) [
    | inl e ↦ rw (held-none c i is e) (held-Fits c is h)
    | inr (x, e) ↦ rw (held-some c i is x e) (h i x e, held-Fits c is h)
  ]

  write_pending_lem :
      (pending : ℕ → Disk) (nonce : ℕ → List ℕ) (es : List Entry)
      → write_pending f pending nonce es ≡ (
          if all_take pending (length es) then ok (snapshot_lines f nonce es) else err write_failed)
  unfolding write_pending snapshot_lines
  write_pending_lem pending nonce [] = refl
  write_pending_lem pending nonce (e ∷ es) =
      ground (arith, write_pending_lem (λ i. pending (suc i)) (λ i. nonce (suc i)) es)

  -- The entries that the snapshot gets.
  abbrev pub entries_of : List Entry → List Entry → List Entry
  entries_of ss es = held (catalog_of f ss es) (catalog_of f ss es).order

  compact-pending :
      (disk : Disk) (pending : ℕ → Disk) (nonce : ℕ → List ℕ) (ss es : List Entry) (l : Log)
      → Holds f ss es l
      → compact f disk pending nonce l
        ≡ install_pending f
            (record l { log_bytes = length l.file })
            (write_pending f pending nonce (entries_of ss es))
  unfolding compact
  compact-pending disk pending nonce ss es l h = rw (replay-Holds f disk ss es l h) refl

  -- Where the disk takes the new snapshot, it holds the catalog after a compaction, and the log nothing.
  pub compact-Holds :
      (disk : Disk) (pending : ℕ → Disk) (nonce : ℕ → List ℕ) (ss es : List Entry) (l : Log)
      → Holds f ss es l
      → AllFit (catalog_of f ss es)
      → all_take pending (length (entries_of ss es)) ≡ true
      → ((compact f disk pending nonce l).1 ≡ ok tt)
        × Holds f (entries_of ss es) [] (compact f disk pending nonce l).0
        × SameCatalog (catalog_of f (entries_of ss es) []) (catalog_of f ss es)
  compact-Holds disk pending nonce ss es l h fit taken =
      let entries = entries_of ss es in
      let written : Written f (snapshot_lines f nonce entries) entries =
        snapshot_lines-Written nonce entries (held-Fits (catalog_of f ss es) _ fit) in
      let lines : write_pending f pending nonce entries ≡ ok (snapshot_lines f nonce entries) =
        write_pending_lem pending nonce entries ∙ ground (arith, taken) in
      let whole : Log × Result Fault (Unit {0}) =
        install_pending f (record l { log_bytes = length l.file })
          (ok (snapshot_lines f nonce entries)) in
      let done : compact f disk pending nonce l ≡ whole =
        compact-pending disk pending nonce ss es l h
        ∙ ap (install_pending f (record l { log_bytes = length l.file })) lines in
      rw done (
        refl,
        (unfold install empty_log cut in record { snapshot = written; log = refl }),
        (unfold put_entries in put_entries-held (catalog_of f ss es) (catalog_of-IsSound f ss es)),
      )

  -- Where it does not, the compaction fails, and the files are as they were.
  pub compact_refused :
      (disk : Disk) (pending : ℕ → Disk) (nonce : ℕ → List ℕ) (ss es : List Entry) (l : Log)
      → Holds f ss es l
      → all_take pending (length (entries_of ss es)) ≡ false
      → compact f disk pending nonce l ≡ (record l { log_bytes = length l.file }, err write_failed)
  compact_refused disk pending nonce ss es l h taken =
      let fails : write_pending f pending nonce (entries_of ss es) ≡ err write_failed =
        write_pending_lem pending nonce (entries_of ss es) ∙ ground (arith, taken) in
      compact-pending disk pending nonce ss es l h
      ∙ ap (install_pending f (record l { log_bytes = length l.file })) fails

  -- On a disk that takes every write, the log reopens with this catalog, as far as a lookup or a listing
  -- can tell.
  abbrev pub ReopensAs : Log → Catalog → Type 0
  ReopensAs l c =
      (l' : Log) × (c' : Catalog) × (replay f takes_all l ≡ (l', ok c')) × SameCatalog c' c

  whole-ReopensAs :
      (ss es : List Entry) (c : Catalog) (l : Log)
      → Holds f ss es l
      → SameCatalog (catalog_of f ss es) c
      → ReopensAs l c
  whole-ReopensAs ss es c l h same = (
    record l { log_bytes = length l.file },
    catalog_of f ss es,
    replay-Holds f takes_all ss es l h,
    same,
  )

  -- Compacting files of whole lines, whose catalog has only entries that a line can hold, succeeds and
  -- leaves the log empty exactly where the disk takes every line of the new snapshot; where it refuses
  -- one, compacting fails as a write does and leaves the bytes of the log. In both cases the files reopen,
  -- on a disk that takes every write, with the catalog that was there; and so do the files that a crash
  -- leaves between the rename of a whole new snapshot and the emptying of the log.
  pub compact_lem :
      (disk : Disk) (pending : ℕ → Disk) (nonce : ℕ → List ℕ) (ss es : List Entry) (l : Log)
      → Holds f ss es l
      → AllFit (catalog_of f ss es)
      → ((compact f disk pending nonce l).1
          ≡ (if all_take pending (length (entries_of ss es)) then ok tt else err write_failed))
        × ((compact f disk pending nonce l).0.file
            ≡ (if all_take pending (length (entries_of ss es)) then [] else l.file))
        × ReopensAs (compact f disk pending nonce l).0 (catalog_of f ss es)
        × ReopensAs
            (install f (snapshot_lines f nonce (entries_of ss es)) (replay f disk l).0)
            (catalog_of f ss es)
  compact_lem disk pending nonce ss es l h fit =
      let c = catalog_of f ss es in
      let entries = entries_of ss es in
      let between = install f (snapshot_lines f nonce entries) (replay f disk l).0 in
      let counted : (replay f disk l).0 ≡ record l { log_bytes = length l.file } =
        ap (λ (p : Log × Result Fault Catalog). p.0) (replay-Holds f disk ss es l h) in
      let crashed : ReopensAs between c =
        whole-ReopensAs entries es c between
          (unfold install in
            record {
              snapshot = snapshot_lines-Written nonce entries (held-Fits c c.order fit);
              log = rw counted h.log;
            })
          (put_entries_twice (put_entries empty ss) (put_entries empty entries) es
            (put_entries-held c (catalog_of-IsSound f ss es))) in
      elim (Bool-cases (all_take pending (length entries))) [
        | inl e ↦
            let (done, holds, same) = compact-Holds disk pending nonce ss es l h fit e in
            (
              done ∙ ground (arith, e),
              holds.log ∙ ground (arith, e),
              whole-ReopensAs entries [] c (compact f disk pending nonce l).0 holds same,
              crashed,
            )
        | inr e ↦
            let fails = compact_refused disk pending nonce ss es l h e in
            let after : Log = record l { log_bytes = length l.file } in
            let reopens : ReopensAs after c =
              whole-ReopensAs ss es c after (record { snapshot = h.snapshot; log = h.log })
                (record { currents = λ id. refl; orders = refl }) in
            (
              ap (λ out. out.1) fails ∙ ground (arith, e),
              ap (λ out. out.0.file) fails ∙ ground (arith, e),
              subst (λ out. ReopensAs out.0 c) (sym fails) reopens,
              crashed,
            )
      ]
