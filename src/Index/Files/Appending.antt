-- ===== src/Index/Files/Appending.antt =====
-- Appending to the delta: what the index then holds, whatever the disk does, and what a crash costs.
use sennit.Prelude.{
  ℕ, suc, ◌+◌, ◌≤◌, Bool, true, false, Option, none, some, List, [], ◌∷◌, ◌++◌, ◌≡◌, refl, ◌∙◌, sym,
  ap, arith, if◌then◌else◌, ◌==◌, ◌||◌, ltb, Result, ok, err, length, take, append-nil,
  append_assoc, length-append, take-append, subst,
}
use sennit.Record.{RecordId}
use sennit.Manifest.Log.{Disk, takes_all, takes_first, refused}
use sennit.Index.Persist.{Entry, Sealer, Fault, write_failed}
use sennit.Index.Delta.{next_record, read_entries, whole_records}
use sennit.Index.Delta.Reading.{framed}
use sennit.Index.Delta.Whole.{
  Written, Written-append, Opens, Fits, encode_entry-Fits, read_entries-Written,
  whole_records-Written,
}
use sennit.Index.Files.{
  Store, cut, is_tail, replay, settle, settle_at, settle_unless, write_line, append_loop, append,
  Next, then_next, hydrate,
}
use sennit.Index.Files.Replaying.{
  find, alive, latest, find-replay, replay-Distinct, find-live, latest-append, alive-latest,
}

pub next_record-nil : next_record [] ≡ none
unfolding next_record
next_record-nil = refl

module _ (sealer : Sealer) where
  -- What the two files hold: the entries read of the base, and a delta of whole records.
  pub record Holds (s : Store) (bs es : List Entry) : Type 0 where
    pub base : read_entries sealer s.base ≡ bs
    pub delta : Written sealer s.delta es

  -- The entry that the index holds for a record as it is loaded.
  abbrev pub held : Store → RecordId → Option Entry
  held s id = find (hydrate sealer s) id

  read_entries-nil : read_entries sealer (some []) ≡ []
  unfolding read_entries
  read_entries-nil = refl

  pub read_entries-delta :
      (bytes : List ℕ) (es : List Entry)
      → Written sealer bytes es
      → read_entries sealer (some bytes) ≡ es
  read_entries-delta bytes es w =
      ap (λ b. read_entries sealer (some b)) (sym (append-nil bytes))
      ∙ read_entries-Written sealer es bytes [] w
      ∙ ap (λ l. es ++ l) read_entries-nil
      ∙ append-nil es

  pub held-Holds :
      (s : Store) (bs es : List Entry) (id : RecordId)
      → Holds s bs es
      → held s id ≡ alive (latest es id (latest bs id none))
  unfolding hydrate
  held-Holds s bs es id h =
      rw (h.base, read_entries-delta s.delta es h.delta)
        (find-live (replay (replay [] bs) es) id
            (replay-Distinct (replay [] bs) es (replay-Distinct [] bs tt))
          ∙ ap alive (find-replay (replay [] bs) es id ∙ ap (latest es id) (find-replay [] bs id)))

  -- A delta of whole records is settled as it is.
  abbrev Settled : Store → List Entry → List Entry → Store × ℕ → Type 0
  Settled s bs es (s', end) = (end ≡ length s.delta) × (s'.delta ≡ s.delta) × Holds s' bs es

  whole :
      (s : Store) (bs es : List Entry)
      → Holds s bs es
      → whole_records sealer s.delta ≡ length s.delta
  whole s bs es h =
      ap (whole_records sealer) (sym (append-nil s.delta))
      ∙ whole_records-Written sealer es s.delta [] h.delta next_record-nil

  settle_unless-Settled :
      (b : Bool) (s : Store) (bs es : List Entry)
      → Holds s bs es
      → Settled s bs es (settle_unless sealer b s)
  settle_unless-Settled true s bs es h = (refl, refl, h)
  settle_unless-Settled false s bs es h =
      let full : ltb (length s.delta) (length s.delta) ≡ false = ground arith in
      rw (whole s bs es h) (
        unfold settle_at in
        rw (full, if◌then◌else◌) (refl, refl, record { base = h.base; delta = h.delta }))

  pub settle-Settled :
      (s : Store) (bs es : List Entry) → Holds s bs es → Settled s bs es (settle sealer s)
  unfolding settle
  settle-Settled s bs es h =
      settle_unless-Settled (is_tail sealer s.tail (length s.delta)) s bs es h

  -- Entries that all fit, each under its nonce.
  abbrev pub AllFit : (ℕ → List ℕ) → List Entry → Type 0
  AllFit nonce [] = Unit {0}
  AllFit nonce (e ∷ es) = Fits sealer (nonce 0) e × AllFit (λ i. nonce (suc i)) es

  pub Written-one :
      (sealed : List ℕ) (e : Entry)
      → Opens sealer sealed e
      → Written sealer (framed sealed) (e ∷ [])
  Written-one sealed e o = (sealed, [], sym (append-nil (framed sealed)), o, refl)

  -- What an append did: the first `n` entries reached the delta, all of them where it succeeds, and
  -- otherwise the disk refused the next one.
  pub record Appended (disk : ℕ → Disk) (bs es entries : List Entry)
      (done : Store × Result Fault (Unit {0})) : Type 0 where
    pub n : ℕ
    pub most : n ≤ length entries
    pub stopped : (n == length entries || refused (disk n)) ≡ true
    pub result : done.1 ≡ (if n == length entries then ok tt else err write_failed)
    pub holds : Holds done.0 bs (es ++ take n entries)

  after_first :
      (disk : ℕ → Disk) (e : Entry) (bs es entries : List Entry)
      (done : Store × Result Fault (Unit {0}))
      → Appended (λ i. disk (suc i)) bs (es ++ e ∷ []) entries done
      → Appended disk bs es (e ∷ entries) done
  after_first disk e bs es entries done a = record {
    n = suc a.n;
    most = omega (arith, a.most);
    stopped = ground (arith, a.stopped);
    result = ground (arith, a.result);
    holds = subst (λ l. Holds done.0 bs l) (append_assoc es (e ∷ []) (take a.n entries)) a.holds;
  }

  -- One round: the disk takes the line, and the loop goes on, or it does not, and the line comes off.
  round-Appended :
      (d : Disk) (disk : ℕ → Disk) (next : Next sealer) (sealed : List ℕ) (e : Entry)
      (entries : List Entry) (s : Store) (bs es : List Entry)
      → disk 0 ≡ d
      → Holds s bs es
      → Opens sealer sealed e
      → ((s' : Store)
          → Holds s' bs (es ++ e ∷ [])
          → Appended (λ i. disk (suc i)) bs (es ++ e ∷ []) entries (next s' (length s'.delta)))
      → Appended disk bs es
          (e ∷ entries)
          (then_next sealer next (write_line sealer d (framed sealed) (length s.delta) s))
  unfolding write_line cut
  round-Appended takes_all disk next sealed e entries s bs es q h o more =
      let s' : Store = record s {
        delta = s.delta ++ framed sealed;
        delta_bytes = s.delta_bytes + length (framed sealed);
        written = s.written + length (framed sealed);
        tail = some (length s.delta + length (framed sealed));
      } in
      after_first disk e bs es entries (next s' (length s.delta + length (framed sealed))) (
        subst (λ end. Appended (λ i. disk (suc i)) bs (es ++ e ∷ []) entries (next s' end))
          (length-append s.delta (framed sealed))
          (more s' (record {
            base = h.base;
            delta =
                Written-append sealer es (e ∷ []) s.delta (framed sealed) h.delta
                  (Written-one sealed e o);
          })))
  round-Appended (takes_first k) disk next sealed e entries s bs es q h o more = record {
    n = 0;
    most = omega arith;
    stopped = ground (arith, ap refused q);
    result = ground arith;
    holds = record {
      base = h.base;
      delta =
          rw (take-append (length s.delta) s.delta (take k (framed sealed)) refl, append-nil es)
            h.delta;
    };
  }

  append_loop-Appended :
      (disk : ℕ → Disk) (nonce : ℕ → List ℕ) (entries : List Entry) (s : Store) (bs es : List Entry)
      → Holds s bs es
      → AllFit nonce entries
      → Appended disk bs es entries (append_loop sealer disk nonce entries (length s.delta) s)
  unfolding append_loop
  append_loop-Appended disk nonce [] s bs es h fit = record {
    n = 0;
    most = omega arith;
    stopped = refl;
    result = refl;
    holds = record { base = h.base; delta = rw (append-nil es) h.delta };
  }
  append_loop-Appended disk nonce (e ∷ entries) s bs es h fit =
      let (encodes, opens) = encode_entry-Fits sealer (nonce 0) e fit.0 in
      rw encodes (
        round-Appended (disk 0) disk
          (λ s' end. append_loop sealer (λ i. disk (suc i)) (λ i. nonce (suc i)) entries end s')
          fit.0.sealed e entries s bs es refl h opens
          (λ s' h'.
            append_loop-Appended (λ i. disk (suc i)) (λ i. nonce (suc i)) entries s' bs
              (es ++ e ∷ []) h' fit.1))

  append-Appended :
      (disk : ℕ → Disk) (nonce : ℕ → List ℕ) (entries : List Entry) (s : Store) (bs es : List Entry)
      → Holds s bs es
      → AllFit nonce entries
      → Appended disk bs es entries (append sealer disk nonce entries s)
  unfolding append
  append-Appended disk nonce [] s bs es h fit = record {
    n = 0;
    most = omega arith;
    stopped = refl;
    result = refl;
    holds = record { base = h.base; delta = rw (append-nil es) h.delta };
  }
  append-Appended disk nonce (e ∷ entries) s bs es h fit =
      let settled = settle-Settled s bs es h in
      let s' = (settle sealer s).0 in
      let at_end : (settle sealer s).1 ≡ length s'.delta = settled.0 ∙ ap length (sym settled.1) in
      rw at_end (append_loop-Appended disk nonce (e ∷ entries) s' bs es settled.2 fit)

  pub append_lem :
      (disk : ℕ → Disk) (nonce : ℕ → List ℕ) (entries : List Entry) (s : Store) (bs es : List Entry)
      → Holds s bs es
      → AllFit nonce entries
      → (n : ℕ) × (n ≤ length entries)
        × ((n == length entries || refused (disk n)) ≡ true)
        × ((append sealer disk nonce entries s).1
            ≡ (if n == length entries then ok tt else err write_failed))
        × Holds (append sealer disk nonce entries s).0 bs (es ++ take n entries)
        × ((id : RecordId)
            → held (append sealer disk nonce entries s).0 id
              ≡ alive (latest (take n entries) id (held s id)))
  append_lem disk nonce entries s bs es h fit =
      let a = append-Appended disk nonce entries s bs es h fit in
      (
        a.n,
        a.most,
        a.stopped,
        a.result,
        a.holds,
        (λ id.
            held-Holds (append sealer disk nonce entries s).0 bs (es ++ take a.n entries) id a.holds
            ∙ ap alive (latest-append es (take a.n entries) id (latest bs id none))
            ∙ sym (alive-latest (take a.n entries) id (latest es id (latest bs id none)))
            ∙ ap (λ o. alive (latest (take a.n entries) id o)) (sym (held-Holds s bs es id h))),
      )
