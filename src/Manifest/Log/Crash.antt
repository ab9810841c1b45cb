-- ===== src/Manifest/Log/Crash.antt =====
-- What a crash in the middle of an append costs: the entry that was being appended at most, and never
-- the catalog.
use sennit.Prelude.{
  ℕ, ◌+◌, ◌<◌, ◌≡◌, refl, ◌∙◌, ap, sym, true, false, none, List, [], ◌∷◌, ◌++◌, append_assoc,
  append-nil, Result, ok, length, length-append, length-take, take, take-append, take-append_le,
  take_all, ltb, lt→ltb, if◌then◌else◌, All, All-take, arith, ◌⊎◌, inl, inr, subst,
}
use native.Mathlib.Decide.{dec_lt, ℕ_discrete}
use sennit.Manifest.{Entry}
use sennit.Manifest.Catalog.{empty, put_entry, put_entries}
use sennit.Manifest.Catalog.Fold.{put_entries-append}
use sennit.Manifest.Lines.{
  newline, max_line_bytes, is_empty, IsText, Format, Fault, encode_entry, read_entries,
}
use sennit.Manifest.Lines.Reading.{Written, Fits, read_entries_cut, read_entries_unfinished}
use sennit.Manifest.Log.{
  Log, Disk, takes_all, settle, interrupt, replay_log, replay, cut, drop_cut_off,
}
use sennit.Manifest.Log.Recovery.{
  Holds, Snapshot, Reopens, Holds-Reopens, Written-append, Written-one, read_snapshot_lem,
  catalog_of,
}
use sennit.Manifest.Log.Settling.{settle-Written, settle_finish}

module _ (f : Format) where
  -- What the first `n` bytes of a line are.
  line_prefix :
      (n : ℕ) (text : List ℕ)
      → ((n < length text) × (take n (text ++ newline ∷ []) ≡ take n text))
        ⊎ ((n ≡ length text) × (take n (text ++ newline ∷ []) ≡ text))
        ⊎ ((length text < n) × (take n (text ++ newline ∷ []) ≡ text ++ newline ∷ []))
  line_prefix n text = elim (dec_lt n (length text)) [
    | yes h ↦ inl (h, take-append_le n text (newline ∷ []) (omega arith))
    | no h ↦ elim (ℕ_discrete n (length text)) [
      | yes e ↦ inr (inl (e, take-append n text (newline ∷ []) (sym e)))
      | no e ↦ inr (
          inr (
            omega arith,
            take_all n (text ++ newline ∷ []) (omega (arith, length-append text (newline ∷ []))),
          ))
    ]
  ]

  -- A cut line is taken off.
  cut-Reopens :
      (ss es : List Entry) (bytes text : List ℕ) (l : Log)
      → Snapshot f l.snapshot ss
      → Written f bytes es
      → l.file ≡ bytes ++ text
      → All IsText text
      → is_empty text ≡ false
      → length text < max_line_bytes
      → f.decode_line text ≡ none
      → Reopens f l ss es
  cut-Reopens ss es bytes text l s w split t ne len none_ =
      let read : read_entries f l.file (put_entries empty ss)
          ≡ ok (record { catalog = catalog_of f ss es; end = length bytes; cut_off = true }) =
        ap (λ (b : List ℕ). read_entries f b (put_entries empty ss)) split
        ∙ read_entries_cut f es bytes text (put_entries empty ss) w t ne len none_ in
      let trimmed : take (length bytes) l.file ≡ bytes =
        ap (take (length bytes)) split ∙ take-append (length bytes) bytes text refl in
      let dropped : Log = record l { file = take (length bytes) l.file; dropped = l.dropped + 1 } in
      let w' : Written f dropped.file es = subst (λ b. Written f b es) (sym trimmed) w in
      (
        record dropped { log_bytes = length dropped.file },
        (unfold replay replay_log drop_cut_off cut in
            ground (
              arith,
              read_snapshot_lem f l.snapshot ss s,
              read,
              settle-Written f es takes_all dropped w',
            )),
        record { snapshot = s; log = w' },
      )

  -- A line that lacks nothing but its newline is kept, and given it.
  finish-Reopens :
      (ss es : List Entry) (bytes nonce : List ℕ) (e : Entry) (l : Log)
      → Snapshot f l.snapshot ss
      → Written f bytes es
      → l.file ≡ bytes ++ f.encode_text nonce e
      → Fits f nonce e
      → Reopens f l ss (es ++ e ∷ [])
  unfolding encode_entry
  finish-Reopens ss es bytes nonce e l s w split fits =
      let text = f.encode_text nonce e in
      let base = put_entries empty ss in
      let end = length bytes + length text in
      let whole : put_entries base (es ++ e ∷ []) ≡ put_entry (put_entries base es) e =
        put_entries-append base es (e ∷ []) ∙ (unfold put_entries in refl) in
      let read = read_entries_unfinished f es bytes nonce e base w fits in
      let finished : Log = record l {
        file = l.file ++ newline ∷ [];
        log_bytes = l.log_bytes + 1;
        written = l.written + 1;
      } in
      let settled : settle f takes_all l ≡ (finished, ok (length l.file + 1)) =
        settle_finish f es bytes text e l w (f.encode_text-IsText nonce e fits.storable)
          (f.encode_text-ne-nil nonce e fits.storable) fits.short
          (f.decode_line-encode_text nonce e fits.storable) split in
      (
        record finished { log_bytes = length l.file + 1 },
        (unfold replay replay_log drop_cut_off in
            ground (
              arith,
              read_snapshot_lem f l.snapshot ss s,
              ap (λ (b : List ℕ). read_entries f b base) split,
              read,
              settled,
              whole,
            )),
        record {
          snapshot = s;
          log =
              rw (split, append_assoc bytes text (newline ∷ []))
                (Written-append f es (e ∷ []) bytes (encode_entry f nonce e) w
                  (Written-one f nonce e fits));
        },
      )

  -- Any text that does not open, the empty one too, is taken off.
  part-Reopens :
      (ss es : List Entry) (bytes text : List ℕ) (l : Log)
      → Snapshot f l.snapshot ss
      → Written f bytes es
      → l.file ≡ bytes ++ text
      → All IsText text
      → length text < max_line_bytes
      → f.decode_line text ≡ none
      → Reopens f l ss es
  part-Reopens ss es bytes [] l s w split t len h = Holds-Reopens f ss es l (record {
    snapshot = s;
    log = subst (λ b. Written f b es) (sym (append-nil bytes) ∙ sym split) w;
  })
  part-Reopens ss es bytes (x ∷ xs) l s w split t len h =
      cut-Reopens ss es bytes (x ∷ xs) l s w split t refl len h

  -- An append that a crash stops after any number of bytes costs at most its own entry: with less than
  -- the whole text of the line on the disk, and no proper part of a line's text opening, the catalog
  -- reopens as it was; with the whole text it reopens with the entry. The disk takes every write of the
  -- reopening. In both cases the files hold whole lines again, of the entries before and of the one that
  -- landed.
  pub interrupt_lem :
      (disk : Disk) (n : ℕ) (nonce : List ℕ) (e : Entry) (ss es : List Entry) (l : Log)
      → Holds f ss es l
      → Fits f nonce e
      → ((m : ℕ)
          → m < length (f.encode_text nonce e)
          → f.decode_line (take m (f.encode_text nonce e)) ≡ none)
      → Reopens f
          (interrupt f disk n nonce e l)
          ss
          (if ltb n (length (f.encode_text nonce e)) then es else es ++ e ∷ [])
  unfolding interrupt encode_entry
  interrupt_lem disk n nonce e ss es l h fits part =
      let text = f.encode_text nonce e in
      let t = f.encode_text-IsText nonce e fits.storable in
      let now = interrupt f disk n nonce e l in
      let left : now.file ≡ l.file ++ take n (text ++ newline ∷ []) =
        rw (settle-Written f es disk l h.log) refl in
      let same : now.snapshot ≡ l.snapshot =
        ap (λ (p : Log × Result Fault ℕ). p.0.snapshot) (settle-Written f es disk l h.log) in
      let s : Snapshot f now.snapshot ss = subst (λ o. Snapshot f o ss) (sym same) h.snapshot in
      elim (line_prefix n text) [
        | inl (less, e') ↦ rw (lt→ltb n (length text) less) (
            part-Reopens ss es l.file (take n text) now s h.log (left ∙ ap (◌++◌ l.file) e')
              (All-take IsText n text t) (omega (arith, length-take n text, fits.short))
              (part n less))
        | inr (inl (eq, e')) ↦
            let past : ltb n (length text) ≡ false = ground arith in
            rw past
              (finish-Reopens ss es l.file nonce e now s h.log (left ∙ ap (◌++◌ l.file) e') fits)
        | inr (inr (more, e')) ↦
            let past : ltb n (length text) ≡ false = ground arith in
            rw past (
              Holds-Reopens f ss (es ++ e ∷ []) now (record {
                snapshot = s;
                log =
                    subst (λ b. Written f b (es ++ e ∷ [])) (sym (left ∙ ap (◌++◌ l.file) e'))
                      (Written-append f es (e ∷ []) l.file (encode_entry f nonce e) h.log
                        (Written-one f nonce e fits));
              }))
      ]
