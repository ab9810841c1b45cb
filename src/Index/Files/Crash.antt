-- ===== src/Index/Files/Crash.antt =====
-- What a crash costs: in the middle of an append, and between the two steps of a compaction.
use sennit.Prelude.{
  ℕ, Option, none, List, [], ◌∷◌, ◌++◌, ◌≡◌, refl, ◌∙◌, sym, ap, arith, if◌then◌else◌, ltb, ok,
  length, take, Bool-cases, inl, inr, append-nil, take-append, take_all, subst,
}
use sennit.Record.{RecordId}
use sennit.Index.Persist.{Entry, Sealer, encode_entry}
use sennit.Index.Delta.{next_record, read_entries, whole_records}
use sennit.Index.Delta.Reading.{framed, next_record-part}
use sennit.Index.Delta.Whole.{
  Written, Written-append, Opens, Fits, encode_entry-Fits, whole_records-Written,
}
use sennit.Index.Files.{Store, cut, open_store}
use sennit.Index.Files.Replaying.{alive, latest, latest-append, alive-latest}
use sennit.Index.Files.Appending.{Holds, held, held-Holds, Written-one, next_record-nil}

module _ (sealer : Sealer) where
  opened_delta :
      (base : Option (List ℕ)) (raw : List ℕ)
      → (open_store sealer base raw).delta ≡ take (whole_records sealer raw) raw
  unfolding open_store
  opened_delta base raw = elim (Bool-cases (ltb (whole_records sealer raw) (length raw))) [
    | inl e ↦ rw (e, if◌then◌else◌) (unfold cut in refl)
    | inr e ↦
        rw (e, if◌then◌else◌) (sym (take_all (whole_records sealer raw) raw (ground (arith, e))))
  ]

  opened_base : (base : Option (List ℕ)) (raw : List ℕ) → (open_store sealer base raw).base ≡ base
  unfolding open_store
  opened_base base raw = elim (Bool-cases (ltb (whole_records sealer raw) (length raw))) [
    | inl e ↦ rw (e, if◌then◌else◌) (unfold cut in refl)
    | inr e ↦ rw (e, if◌then◌else◌) refl
  ]

  -- Opening files of whole records, with a part of a record behind them, leaves the whole ones.
  opened-Holds :
      (base : Option (List ℕ)) (bytes part : List ℕ) (bs es : List Entry)
      → read_entries sealer base ≡ bs
      → Written sealer bytes es
      → next_record part ≡ none
      → Holds sealer (open_store sealer base (bytes ++ part)) bs es
  opened-Holds base bytes part bs es b w nothing = record {
    base = rw (opened_base base (bytes ++ part)) b;
    delta =
        rw
          (
            opened_delta base (bytes ++ part),
            whole_records-Written sealer es bytes part w nothing,
            take-append (length bytes) bytes part refl,
          )
          w;
  }

  -- The entries of the delta that a process leaves which stops after `n` bytes of a line.
  abbrev pub landed : ℕ → List ℕ → List Entry → Entry → List Entry
  landed n line es e = if ltb n (length line) then es else es ++ e ∷ []

  interrupted-Holds :
      (n : ℕ) (sealed : List ℕ) (e : Entry) (s : Store) (bs es : List Entry)
      → Holds sealer s bs es
      → Opens sealer sealed e
      → Holds sealer
          (open_store sealer s.base (s.delta ++ take n (framed sealed)))
          bs
          (landed n (framed sealed) es e)
  interrupted-Holds n sealed e s bs es h o = elim (Bool-cases (ltb n (length (framed sealed)))) [
    | inl q ↦
        rw (q, if◌then◌else◌)
          (opened-Holds s.base s.delta (take n (framed sealed)) bs es h.base h.delta
            (next_record-part sealed n o.short (ground (arith, q))))
    | inr q ↦
        rw
          (
            q,
            if◌then◌else◌,
            take_all n (framed sealed) (ground (arith, q)),
            sym (append-nil (s.delta ++ framed sealed)),
          )
          (opened-Holds s.base (s.delta ++ framed sealed) [] bs (es ++ e ∷ []) h.base
            (Written-append sealer es (e ∷ []) s.delta (framed sealed) h.delta
              (Written-one sealer sealed e o))
            next_record-nil)
  ]

  landed_lem :
      (n : ℕ) (line : List ℕ) (s : Store) (bs es : List Entry) (e : Entry) (id : RecordId)
      → Holds sealer s bs es
      → alive (latest (landed n line es e) id (latest bs id none)) ≡ (
          if ltb n (length line)
          then held sealer s id
          else alive (latest (e ∷ []) id (held sealer s id)))
  landed_lem n line s bs es e id h =
      let before = held-Holds sealer s bs es id h in
      elim (Bool-cases (ltb n (length line))) [
        | inl q ↦ rw (q, if◌then◌else◌) (sym before)
        | inr q ↦
            rw (q, if◌then◌else◌, before)
              (ap alive (latest-append es (e ∷ []) id (latest bs id none))
                ∙ sym (alive-latest (e ∷ []) id (latest es id (latest bs id none))))
      ]

  -- A process that stops while it appends to files of whole records, with any number of the bytes of
  -- the line on the disk, costs that entry at most: the store that is opened on what it left has files
  -- of whole records, and holds for every record what it held before, unless the whole line landed,
  -- when it holds the new entry as well.
  pub open_store_lem :
      (n : ℕ) (nonce : List ℕ) (e : Entry) (line : List ℕ) (s : Store) (bs es : List Entry)
      → Holds sealer s bs es
      → Fits sealer nonce e
      → encode_entry sealer nonce e ≡ ok line
      → Holds sealer (open_store sealer s.base (s.delta ++ take n line)) bs (landed n line es e)
        × ((id : RecordId)
            → held sealer (open_store sealer s.base (s.delta ++ take n line)) id ≡ (
                if ltb n (length line)
                then held sealer s id
                else alive (latest (e ∷ []) id (held sealer s id))))
  open_store_lem n nonce e line s bs es h fit enc =
      let (encodes, opens) = encode_entry-Fits sealer nonce e fit in
      let same : line ≡ framed fit.sealed = ground (arith, enc, encodes) in
      let holds : Holds sealer (open_store sealer s.base (s.delta ++ take n line)) bs
          (landed n line es e) =
        subst
          (λ l. Holds sealer (open_store sealer s.base (s.delta ++ take n l)) bs (landed n l es e))
          (sym same) (interrupted-Holds n fit.sealed e s bs es h opens) in
      (
        holds,
        (λ id.
            held-Holds sealer (open_store sealer s.base (s.delta ++ take n line)) bs
              (landed n line es e) id holds
            ∙ landed_lem n line s bs es e id h),
      )
