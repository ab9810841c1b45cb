-- ===== src/Manifest/Log/Settling.antt =====
-- Where a log ends: `settle` makes it end with a line.
use sennit.Prelude.{
  ℕ, ◌+◌, ◌<◌, ◌≡◌, refl, ◌∙◌, ap, sym, false, none, some, List, [], ◌∷◌, ◌++◌, append_assoc,
  append-nil, ok, length, take, take-append, All, arith,
}
use sennit.Manifest.{Entry}
use sennit.Manifest.Lines.{newline, max_line_bytes, is_empty, IsText, Format}
use sennit.Manifest.Lines.Reading.{Written, trim_line_part}
use sennit.Manifest.Log.{Log, Disk, takes_all, split_last, settle, cut}

split_last_text : (text : List ℕ) → All IsText text → split_last text ≡ ([], text)
unfolding split_last
split_last_text [] h = refl
split_last_text (x ∷ xs) h = ground (arith, split_last_text xs h.1, h.0.0)

is_empty-append : (p q : List ℕ) (b : ℕ) → is_empty (p ++ b ∷ q) ≡ false
is_empty-append [] q b = refl
is_empty-append (x ∷ xs) q b = refl

split_last_line :
    (p q lines tail : List ℕ)
    → split_last q ≡ (lines, tail)
    → split_last (p ++ newline ∷ q) ≡ (p ++ newline ∷ lines, tail)
unfolding split_last
split_last_line [] q [] tail h = ground (arith, h)
split_last_line [] q (y ∷ ys) tail h = ground (arith, h)
split_last_line (x ∷ xs) q lines tail h =
    ground (arith, split_last_line xs q lines tail h, is_empty-append xs lines newline)

module _ (f : Format) where
  -- Whole lines and the text behind them are told apart.
  pub split_last-Written :
      (es : List Entry) (bytes text : List ℕ)
      → Written f bytes es
      → All IsText text
      → split_last (bytes ++ text) ≡ (bytes, text)
  split_last-Written [] bytes text w t = rw w (split_last_text text t)
  split_last-Written (e ∷ es) bytes text (nonce, rest, split, fits, w) t =
      rw (split, append_assoc (f.encode_text nonce e) (newline ∷ rest) text)
        (split_last_line (f.encode_text nonce e) (rest ++ text) rest text
          (split_last-Written es rest text w t))

  -- A log of whole lines is left as it is, whatever the disk would do.
  pub settle-Written :
      (es : List Entry) (disk : Disk) (l : Log)
      → Written f l.file es
      → settle f disk l ≡ (l, ok (length l.file))
  settle-Written es disk l w =
      let split : split_last l.file ≡ (l.file, []) =
        ap split_last (sym (append-nil l.file)) ∙ split_last-Written es l.file [] w tt in
      unfold settle in ground (arith, split)

  -- A log whose last line was cut off, and does not open, loses that line and nothing else.
  pub settle_cut :
      (es : List Entry) (bytes text : List ℕ) (disk : Disk) (l : Log)
      → Written f bytes es
      → All IsText text
      → is_empty text ≡ false
      → length text < max_line_bytes
      → f.decode_line text ≡ none
      → l.file ≡ bytes ++ text
      → settle f disk l ≡ (record l { file = bytes; dropped = l.dropped + 1 }, ok (length bytes))
  settle_cut es bytes text disk l w t ne short h e =
      unfold settle cut in
      ground (
        arith,
        ap split_last e,
        split_last-Written es bytes text w t,
        trim_line_part text t,
        h,
        ap (take (length bytes)) e,
        take-append (length bytes) bytes text refl,
      )

  -- A last line that opens, and lacks nothing but its newline, is given it.
  pub settle_finish :
      (es : List Entry) (bytes text : List ℕ) (e : Entry) (l : Log)
      → Written f bytes es
      → All IsText text
      → is_empty text ≡ false
      → length text < max_line_bytes
      → f.decode_line text ≡ some e
      → l.file ≡ bytes ++ text
      → settle f takes_all l ≡ (
        record l {
          file = l.file ++ newline ∷ [];
          log_bytes = l.log_bytes + 1;
          written = l.written + 1;
        },
        ok (length l.file + 1),
      )
  settle_finish es bytes text e l w t ne short h eq =
      unfold settle in
      ground
        (arith, ap split_last eq, split_last-Written es bytes text w t, trim_line_part text t, h)
