-- ===== src/Index/Delta/Whole.antt =====
-- Files of whole records: what is read of them, and that their settling keeps them.
use sennit.Prelude.{
  ℕ, zero, suc, ◌+◌, ◌≤◌, ◌<◌, ◌^◌, ◌≡◌, refl, ◌∙◌, ap, sym, Option, none, some, List, [], ◌∷◌,
  ◌++◌, ok, err, length, arith, length-append, append_assoc, Result-cases, Option-cases, inl, inr,
}
use sennit.Index.Persist.{Entry, Sealer, Fault, encode_entry, entry_body, IsEntry}
use sennit.Index.Persist.RoundTrip.{decode_entry-entry_body}
use sennit.Index.Delta.{
  next_record, open_entry, read_loop, read_entries, walk, check_last, stop_at, whole_records,
}
use sennit.Index.Delta.Reading.{framed, length-framed, next_record-framed, next_record-shorter}

module _ (s : Sealer) where
  read_loop_step :
      (fuel : ℕ) (raw sealed rest : List ℕ) (e : Entry)
      → next_record raw ≡ some (sealed, rest)
      → open_entry s sealed ≡ ok e
      → read_loop s (suc fuel) raw ≡ e ∷ read_loop s fuel rest
  unfolding read_loop
  read_loop_step fuel raw sealed rest e h o = rw (h, o, read_loop) refl

  read_loop-none : (fuel : ℕ) (raw : List ℕ) → next_record raw ≡ none → read_loop s fuel raw ≡ []
  unfolding read_loop
  read_loop-none zero raw h = refl
  read_loop-none (suc fuel) raw h = rw (h, read_loop) refl

  read_loop_damaged :
      (fuel : ℕ) (raw sealed rest : List ℕ) (f : Fault)
      → next_record raw ≡ some (sealed, rest)
      → open_entry s sealed ≡ err f
      → read_loop s fuel raw ≡ []
  unfolding read_loop
  read_loop_damaged zero raw sealed rest f h o = refl
  read_loop_damaged (suc fuel) raw sealed rest f h o = rw (h, o, read_loop) refl

  read_loop_empty : (fuel : ℕ) (raw : List ℕ) → length raw ≤ 0 → read_loop s fuel raw ≡ []
  read_loop_empty fuel raw h = elim (Option-cases (next_record raw)) [
    | inl e ↦ read_loop-none fuel raw e
    | inr ((sealed, rest), e) ↦ absurd (omega (arith, h, next_record-shorter raw sealed rest e))
  ]

  -- One round for each byte is enough.
  pub read_loop_enough :
      (f g : ℕ) (raw : List ℕ)
      → length raw ≤ f
      → length raw ≤ g
      → read_loop s f raw ≡ read_loop s g raw
  read_loop_enough zero g raw hf hg = read_loop_empty 0 raw hf ∙ sym (read_loop_empty g raw hf)
  read_loop_enough (suc f) zero raw hf hg =
      read_loop_empty (suc f) raw hg ∙ sym (read_loop_empty 0 raw hg)
  read_loop_enough (suc f) (suc g) raw hf hg = elim (Option-cases (next_record raw)) [
    | inl e ↦ read_loop-none (suc f) raw e ∙ sym (read_loop-none (suc g) raw e)
    | inr ((sealed, rest), e) ↦ elim (Result-cases (open_entry s sealed)) [
      | inr (fault, o) ↦
          read_loop_damaged (suc f) raw sealed rest fault e o
          ∙ sym (read_loop_damaged (suc g) raw sealed rest fault e o)
      | inl (entry, o) ↦
          read_loop_step f raw sealed rest entry e o
          ∙ ap (◌∷◌ entry) (
              read_loop_enough f g rest (omega (arith, hf, next_record-shorter raw sealed rest e))
                (omega (arith, hg, next_record-shorter raw sealed rest e)))
          ∙ sym (read_loop_step g raw sealed rest entry e o)
    ]
  ]

  -- What a sealed record needs to be read back.
  pub record Opens (sealed : List ℕ) (e : Entry) : Type 0 where
    pub nonempty : 0 < length sealed
    pub short : length sealed < 2 ^ 32
    pub opens : open_entry s sealed ≡ ok e

  -- `bytes` is a file of whole records, one for each entry.
  abbrev pub Written : List ℕ → List Entry → Type 0
  Written bytes [] = bytes ≡ []
  Written bytes (e ∷ es) =
      (sealed : List ℕ) × (rest : List ℕ) × (bytes ≡ framed sealed ++ rest)
      × Opens sealed e
      × Written rest es

  pub Written-append :
      (es fs : List Entry) (xs ys : List ℕ)
      → Written xs es
      → Written ys fs
      → Written (xs ++ ys) (es ++ fs)
  Written-append [] fs xs ys hx hy = rw hx hy
  Written-append (e ∷ es) fs xs ys (sealed, rest, split, opens, w) hy = (
    sealed,
    rest ++ ys,
    rw split (append_assoc (framed sealed) rest ys),
    opens,
    Written-append es fs rest ys w hy,
  )

  -- An entry whose parts fit, and whose sealed form does too, is written whole.
  pub record Fits (nonce : List ℕ) (e : Entry) : Type 0 where
    pub parts : IsEntry e
    pub sealed : List ℕ
    pub seals : s.seal nonce (entry_body e) ≡ some sealed
    pub short : length sealed < 2 ^ 32

  pub encode_entry-Fits :
      (nonce : List ℕ) (e : Entry) (h : Fits nonce e)
      → (encode_entry s nonce e ≡ ok (framed h.sealed)) × Opens h.sealed e
  unfolding encode_entry open_entry
  encode_entry-Fits nonce e h = (
    ground (arith, h.parts.width, h.seals),
    record {
      nonempty = s.seal_nonempty nonce (entry_body e) h.sealed h.seals;
      short = h.short;
      opens =
          rw (s.unseal-seal nonce (entry_body e) h.sealed h.seals)
            (decode_entry-entry_body e h.parts);
    },
  )

  -- Every entry of a file of whole records is read, in order, with what is read of the bytes behind.
  pub read_entries-Written :
      (es : List Entry) (bytes tail : List ℕ)
      → Written bytes es
      → read_entries s (some (bytes ++ tail)) ≡ es ++ read_entries s (some tail)
  unfolding read_entries
  read_entries-Written [] bytes tail w = rw w refl
  read_entries-Written (e ∷ es) bytes tail (sealed, rest, split, opens, w) =
      rw (split, append_assoc (framed sealed) rest tail)
        (let raw = framed sealed ++ (rest ++ tail) in
          let longer : length (rest ++ tail) < length raw =
            next_record-shorter raw sealed (rest ++ tail)
              (next_record-framed sealed (rest ++ tail) opens.nonempty opens.short) in
          read_loop_enough (length raw) (suc (length raw)) raw (omega arith) (omega arith)
          ∙ read_loop_step (length raw) raw sealed (rest ++ tail) e
              (next_record-framed sealed (rest ++ tail) opens.nonempty opens.short) opens.opens
          ∙ ap (◌∷◌ e) (
              read_loop_enough (length raw) (length (rest ++ tail)) (rest ++ tail)
                (omega (arith, longer)) (omega arith)
              ∙ read_entries-Written es rest tail w))

  walk-none :
      (fuel place : ℕ) (last : Option (ℕ × List ℕ)) (raw : List ℕ)
      → next_record raw ≡ none
      → walk s fuel place last raw ≡ (place, last, raw)
  unfolding walk
  walk-none zero place last raw h = refl
  walk-none (suc fuel) place last raw h = rw (h, walk) refl

  walk_step :
      (fuel place : ℕ) (last : Option (ℕ × List ℕ)) (raw sealed rest : List ℕ)
      → next_record raw ≡ some (sealed, rest)
      → walk s (suc fuel) place last raw
        ≡ walk s fuel (place + (4 + length sealed)) (some (place, sealed)) rest
  unfolding walk
  walk_step fuel place last raw sealed rest h = rw (h, walk) refl

  -- A last record that opens leaves the end where it is.
  abbrev IsFine : Option (ℕ × List ℕ) → Type 0
  IsFine last = (end : ℕ) → check_last s end last ≡ end

  stop_fine :
      (place : ℕ) (last : Option (ℕ × List ℕ)) (tail : List ℕ)
      → IsFine last
      → stop_at s (place, last, tail) ≡ place + 0
  stop_fine place last [] fine = omega (arith, fine place)
  stop_fine place last (b ∷ bs) fine = omega arith

  Opens-IsFine :
      (start : ℕ) (sealed : List ℕ) (e : Entry) → Opens sealed e → IsFine (some (start, sealed))
  unfolding check_last
  Opens-IsFine start sealed e h end = rw (h.opens, check_last) refl

  -- The walk of the settling ends behind the whole records, where nothing framed follows them.
  walk-Written :
      (es : List Entry) (fuel place : ℕ) (last : Option (ℕ × List ℕ)) (bytes tail : List ℕ)
      → Written bytes es
      → length (bytes ++ tail) ≤ fuel
      → next_record tail ≡ none
      → IsFine last
      → stop_at s (walk s fuel place last (bytes ++ tail)) ≡ place + length bytes
  walk-Written [] fuel place last bytes tail w le nothing fine =
      rw w (rw (walk-none fuel place last tail nothing) (stop_fine place last tail fine))
  walk-Written (e ∷ es) zero place last bytes tail (sealed, rest, split, opens, w) le nothing fine =
      absurd (
        omega (
          arith,
          le,
          length-append bytes tail,
          ap length split,
          length-append (framed sealed) rest,
          length-framed sealed,
        ))
  walk-Written (e ∷ es) (suc fuel) place last bytes tail (sealed, rest, split, opens, w) le nothing
        fine =
      let total : length (bytes ++ tail) ≡ 4 + length sealed + length (rest ++ tail) = omega (
        arith,
        length-append bytes tail,
        ap length split,
        length-append (framed sealed) rest,
        length-framed sealed,
        length-append rest tail,
      ) in
      let next : next_record (bytes ++ tail) ≡ some (sealed, rest ++ tail) =
        ap (λ b. next_record (b ++ tail)) split
        ∙ ap next_record (append_assoc (framed sealed) rest tail)
        ∙ next_record-framed sealed (rest ++ tail) opens.nonempty opens.short in
      rw (walk_step fuel place last (bytes ++ tail) sealed (rest ++ tail) next) (
        walk-Written es fuel (place + (4 + length sealed)) (some (place, sealed)) rest tail w
          (omega (arith, le, total)) nothing (Opens-IsFine place sealed e opens)
        ∙ omega (arith, ap length split, length-append (framed sealed) rest, length-framed sealed))

  -- A file of whole records is whole; and so it is where a part of a record follows it, which the
  -- settling then takes off.
  pub whole_records-Written :
      (es : List Entry) (bytes tail : List ℕ)
      → Written bytes es
      → next_record tail ≡ none
      → whole_records s (bytes ++ tail) ≡ length bytes
  unfolding whole_records
  whole_records-Written es bytes tail w nothing =
      walk-Written es (length (bytes ++ tail)) 0 none bytes tail w (omega arith) nothing
        (λ end. unfold check_last in refl)
      ∙ omega arith
