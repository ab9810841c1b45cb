-- ===== src/Manifest/Lines/Reading.antt =====
-- What the reader finds in a file of whole lines, and in one whose last line was cut off.
use sennit.Prelude.{
  ℕ, ◌+◌, ◌<◌, ◌≡◌, refl, ◌∙◌, ap, sym, true, false, none, List, [], ◌∷◌, ◌++◌, append_assoc,
  append-nil, ok, length, length-append, All, arith, ◌≢◌,
}
use native.Mathlib.Nat.{add-zero, zero-add}
use sennit.Manifest.{Entry}
use sennit.Manifest.Catalog.{Catalog, put_entry, put_entries}
use sennit.Manifest.Lines.{
  newline, carriage_return, max_line_bytes, is_empty, IsText, Format, scan_lines, trim_suffix,
  trim_line, ends_line, too_long, Replay, read_line, read_lines, read_entries,
}

-- A line's text before a newline is one token.
pub scan_lines_line :
    (text rest : List ℕ)
    → All IsText text
    → scan_lines (text ++ newline ∷ rest) ≡ (text ++ newline ∷ []) ∷ scan_lines rest
unfolding scan_lines
scan_lines_line [] rest h = refl
scan_lines_line (x ∷ xs) rest h = rw (scan_lines_line xs rest h.1) (ground (arith, h.0.0))

-- Text with no newline behind it is the last token.
pub scan_lines_tail :
    (x : ℕ) (xs : List ℕ) → All IsText (x ∷ xs) → scan_lines (x ∷ xs) ≡ (x ∷ xs) ∷ []
unfolding scan_lines
scan_lines_tail x [] h = ground (arith, h.0.0)
scan_lines_tail x (y ∷ ys) h = rw (scan_lines_tail y ys h.1) (ground (arith, h.0.0))

trim_suffix_self : (b : ℕ) (xs : List ℕ) → All (λ x. x ≢ b) xs → trim_suffix b xs ≡ xs
unfolding trim_suffix
trim_suffix_self b [] h = refl
trim_suffix_self b (x ∷ []) h = ground (arith, h.0)
trim_suffix_self b (x ∷ y ∷ ys) h = ap (◌∷◌ x) (trim_suffix_self b (y ∷ ys) h.1)

trim_suffix-append : (b : ℕ) (xs : List ℕ) → trim_suffix b (xs ++ b ∷ []) ≡ xs
unfolding trim_suffix
trim_suffix-append b [] = ground arith
trim_suffix-append b (x ∷ []) = ap (◌∷◌ x) (trim_suffix-append b [])
trim_suffix-append b (x ∷ y ∷ ys) = ap (◌∷◌ x) (trim_suffix-append b (y ∷ ys))

no_newline : (xs : List ℕ) → All IsText xs → All (λ x. x ≢ newline) xs
no_newline [] h = tt
no_newline (x ∷ xs) h = (h.0.0, no_newline xs h.1)

no_return : (xs : List ℕ) → All IsText xs → All (λ x. x ≢ carriage_return) xs
no_return [] h = tt
no_return (x ∷ xs) h = (h.0.1, no_return xs h.1)

pub trim_line_whole : (text : List ℕ) → All IsText text → trim_line (text ++ newline ∷ []) ≡ text
unfolding trim_line
trim_line_whole text h =
    rw (trim_suffix-append newline text) (trim_suffix_self carriage_return text (no_return text h))

pub trim_line_part : (text : List ℕ) → All IsText text → trim_line text ≡ text
unfolding trim_line
trim_line_part text h =
    rw (trim_suffix_self newline text (no_newline text h))
      (trim_suffix_self carriage_return text (no_return text h))

ends_line-append : (text : List ℕ) → ends_line (text ++ newline ∷ []) ≡ true
unfolding ends_line
ends_line-append [] = refl
ends_line-append (x ∷ []) = refl
ends_line-append (x ∷ y ∷ ys) = ends_line-append (y ∷ ys)

ends_line_part : (text : List ℕ) → All IsText text → ends_line text ≡ false
unfolding ends_line
ends_line_part [] h = refl
ends_line_part (x ∷ []) h = ground (arith, h.0.0)
ends_line_part (x ∷ y ∷ ys) h = ends_line_part (y ∷ ys) h.1

pub too_long_whole :
    (text : List ℕ) → length text < max_line_bytes → too_long (text ++ newline ∷ []) ≡ false
unfolding too_long
too_long_whole text h =
    rw (ends_line-append text) (ground (arith, length-append text (newline ∷ [])))

pub too_long_part :
    (text : List ℕ) → All IsText text → length text < max_line_bytes → too_long text ≡ false
unfolding too_long
too_long_part text t h = rw (ends_line_part text t) (ground arith)

module _ (f : Format) where
  -- An entry that a line can hold: it is stored and read back, and its line fits the reader's buffer.
  pub record Fits (nonce : List ℕ) (e : Entry) : Type 0 where
    pub storable : f.IsStorable e
    pub short : length (f.encode_text nonce e) < max_line_bytes

  -- `bytes` is a file of whole lines, one for each entry, whatever the nonces.
  abbrev pub Written : List ℕ → List Entry → Type 0
  Written bytes [] = bytes ≡ []
  Written bytes (e ∷ es) =
      (nonce : List ℕ) × (rest : List ℕ) × (bytes ≡ f.encode_text nonce e ++ newline ∷ rest)
      × Fits nonce e
      × Written rest es

  read_line_whole :
      (nonce : List ℕ) (e : Entry) (offset : ℕ) (read : Replay)
      → Fits nonce e
      → read.cut_off ≡ false
      → read_line f (f.encode_text nonce e ++ newline ∷ []) offset read
        ≡ ok (record read { catalog = put_entry read.catalog e; end = offset })
  unfolding read_line
  read_line_whole nonce e offset read fits h = ground (
    arith,
    too_long_whole (f.encode_text nonce e) fits.short,
    trim_line_whole (f.encode_text nonce e) (f.encode_text-IsText nonce e fits.storable),
    f.encode_text-ne-nil nonce e fits.storable,
    f.decode_line-encode_text nonce e fits.storable,
  )

  read_lines_cons :
      (token : List ℕ) (tokens : List (List ℕ)) (offset : ℕ) (read read' : Replay)
      → read_line f token (offset + length token) read ≡ ok read'
      → read_lines f (token ∷ tokens) offset read
        ≡ read_lines f tokens (offset + length token) read'
  unfolding read_lines
  read_lines_cons token tokens offset read read' h = rw h

  -- The state of the reader behind whole lines.
  abbrev pub clean : Catalog → ℕ → Replay
  clean c end = record { catalog = c; end = end; cut_off = false }

  -- Whole lines are replayed, and the reader goes on behind them.
  pub read_lines-Written :
      (es : List Entry) (bytes tail : List ℕ) (offset : ℕ) (c : Catalog)
      → Written bytes es
      → read_lines f (scan_lines (bytes ++ tail)) offset (clean c offset)
        ≡ read_lines f
            (scan_lines tail)
            (offset + length bytes)
            (clean (put_entries c es) (offset + length bytes))
  unfolding put_entries
  read_lines-Written [] bytes tail offset c w = rw (w, add-zero)
  read_lines-Written (e ∷ es) bytes tail offset c (nonce, rest, split, fits, w) =
      let text = f.encode_text nonce e in
      let token = text ++ newline ∷ [] in
      let next = offset + length token in
      let total : next + length rest ≡ offset + length bytes =
        rw split
          (omega (arith, length-append text (newline ∷ []), length-append text (newline ∷ rest))) in
      let tokens : scan_lines (bytes ++ tail) ≡ token ∷ scan_lines (rest ++ tail) =
        rw (split, append_assoc text (newline ∷ rest) tail)
          (scan_lines_line text (rest ++ tail) (f.encode_text-IsText nonce e fits.storable)) in
      ap (λ (ts : List (List ℕ)). read_lines f ts offset (clean c offset)) tokens
      ∙ read_lines_cons token (scan_lines (rest ++ tail)) offset (clean c offset)
          (clean (put_entry c e) next) (read_line_whole nonce e next (clean c offset) fits refl)
      ∙ read_lines-Written es rest tail next (put_entry c e) w
      ∙ ap (λ (n : ℕ). read_lines f (scan_lines tail) n (clean (put_entries (put_entry c e) es) n))
          total

  read_entries_tail :
      (es : List Entry) (bytes tail : List ℕ) (c : Catalog)
      → Written bytes es
      → read_entries f (bytes ++ tail) c
        ≡ read_lines f (scan_lines tail) (length bytes) (clean (put_entries c es) (length bytes))
  unfolding read_entries
  read_entries_tail es bytes tail c w =
      read_lines-Written es bytes tail 0 c w
      ∙ ap (λ (n : ℕ). read_lines f (scan_lines tail) n (clean (put_entries c es) n))
          (zero-add (length bytes))

  -- A file of whole lines replays all its entries, to its end.
  pub read_entries-Written :
      (es : List Entry) (bytes : List ℕ) (c : Catalog)
      → Written bytes es
      → read_entries f bytes c ≡ ok (clean (put_entries c es) (length bytes))
  read_entries-Written es bytes c w =
      ap (λ (b : List ℕ). read_entries f b c) (sym (append-nil bytes))
      ∙ read_entries_tail es bytes [] c w
      ∙ (unfold scan_lines read_lines in refl)

  read_lines_last :
      (text : List ℕ) (offset : ℕ) (c : Catalog) (read : Replay)
      → All IsText text
      → is_empty text ≡ false
      → read_line f text (offset + length text) (clean c offset) ≡ ok read
      → read_lines f (scan_lines text) offset (clean c offset) ≡ ok read
  read_lines_last [] offset c read t ne h = absurd (cc ne)
  read_lines_last (x ∷ xs) offset c read t ne h =
      ap (λ (ts : List (List ℕ)). read_lines f ts offset (clean c offset)) (scan_lines_tail x xs t)
      ∙ read_lines_cons (x ∷ xs) [] offset (clean c offset) read h
      ∙ (unfold read_lines in refl)

  -- A last line without its newline that does not open is left out, and reported as cut off.
  pub read_entries_cut :
      (es : List Entry) (bytes text : List ℕ) (c : Catalog)
      → Written bytes es
      → All IsText text
      → is_empty text ≡ false
      → length text < max_line_bytes
      → f.decode_line text ≡ none
      → read_entries f (bytes ++ text) c
        ≡ ok (record { catalog = put_entries c es; end = length bytes; cut_off = true })
  read_entries_cut es bytes text c w t ne short h =
      read_entries_tail es bytes text c w
      ∙ read_lines_last text (length bytes) (put_entries c es)
          (record { catalog = put_entries c es; end = length bytes; cut_off = true }) t ne
          (unfold read_line in
            ground (arith, too_long_part text t short, trim_line_part text t, ne, h))

  -- A last line that lacks nothing but its newline is read like the others.
  pub read_entries_unfinished :
      (es : List Entry) (bytes nonce : List ℕ) (e : Entry) (c : Catalog)
      → Written bytes es
      → Fits nonce e
      → read_entries f (bytes ++ f.encode_text nonce e) c
        ≡ ok
            (clean (put_entry (put_entries c es) e) (length bytes + length (f.encode_text nonce e)))
  read_entries_unfinished es bytes nonce e c w fits =
      let text = f.encode_text nonce e in
      let t = f.encode_text-IsText nonce e fits.storable in
      let ne = f.encode_text-ne-nil nonce e fits.storable in
      let opens = f.decode_line-encode_text nonce e fits.storable in
      read_entries_tail es bytes text c w
      ∙ read_lines_last text (length bytes) (put_entries c es)
          (clean (put_entry (put_entries c es) e) (length bytes + length text)) t ne
          (unfold read_line in
            ground (arith, too_long_part text t fits.short, trim_line_part text t, ne, opens))
