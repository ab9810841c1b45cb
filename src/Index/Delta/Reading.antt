-- ===== src/Index/Delta/Reading.antt =====
-- What the reader and the settling find in a file of whole records, and in one cut off.
use sennit.Prelude.{
  ℕ, ◌+◌, ◌-◌, ◌<◌, ◌^◌, ◌≡◌, refl, none, some, List, ◌++◌, length, take, drop, ltb, arith,
  length-append, length-take, length-drop, take-append, drop-append, append_assoc, Bool-cases, inl,
  inr, take-append_ge,
}
use sennit.Bytes.{le_bytes, le_value, length-le_bytes, le_value-le_bytes}
use sennit.Index.Delta.{next_record}

-- A record is framed by the length of what was sealed.
abbrev pub framed : List ℕ → List ℕ
framed sealed = le_bytes 4 (length sealed) ++ sealed

pub length-framed : (sealed : List ℕ) → length (framed sealed) ≡ 4 + length sealed
length-framed sealed =
    omega
      (arith, length-append (le_bytes 4 (length sealed)) sealed, length-le_bytes 4 (length sealed))

-- The framing finds a framed record, whatever follows it, and nothing in a part of one.
pub next_record-framed :
    (sealed rest : List ℕ)
    → 0 < length sealed
    → length sealed < 2 ^ 32
    → next_record (framed sealed ++ rest) ≡ some (sealed, rest)
unfolding next_record
next_record-framed sealed rest pos short =
    rw
      (
        append_assoc (le_bytes 4 (length sealed)) sealed rest,
        take-append 4 (le_bytes 4 (length sealed)) (sealed ++ rest)
            (length-le_bytes 4 (length sealed)),
        drop-append 4 (le_bytes 4 (length sealed)) (sealed ++ rest)
            (length-le_bytes 4 (length sealed)),
        le_value-le_bytes 4 (length sealed) (omega (arith, short)),
        take-append (length sealed) sealed rest refl,
        drop-append (length sealed) sealed rest refl,
      )
      (ground (
        arith,
        length-append (le_bytes 4 (length sealed)) (sealed ++ rest),
        length-le_bytes 4 (length sealed),
        length-append sealed rest,
        pos,
      ))

part_long :
    (sealed : List ℕ) (m : ℕ)
    → length sealed < 2 ^ 32
    → m < length sealed
    → next_record (le_bytes 4 (length sealed) ++ take m sealed) ≡ none
unfolding next_record
part_long sealed m short lt =
    rw
      (
        take-append 4 (le_bytes 4 (length sealed)) (take m sealed)
            (length-le_bytes 4 (length sealed)),
        drop-append 4 (le_bytes 4 (length sealed)) (take m sealed)
            (length-le_bytes 4 (length sealed)),
        le_value-le_bytes 4 (length sealed) (omega (arith, short)),
      )
      (ground (arith, length-take m sealed, lt))

part_short : (raw : List ℕ) → length raw < 4 → next_record raw ≡ none
unfolding next_record
part_short raw h = ground (arith, h)

pub next_record-part :
    (sealed : List ℕ) (n : ℕ)
    → length sealed < 2 ^ 32
    → n < length (framed sealed)
    → next_record (take n (framed sealed)) ≡ none
next_record-part sealed n short lt = elim (Bool-cases (ltb n 4)) [
  | inl e ↦ part_short (take n (framed sealed)) (ground (arith, e, length-take n (framed sealed)))
  | inr e ↦
      let cut : take n (framed sealed) ≡ le_bytes 4 (length sealed) ++ take (n - 4) sealed =
        take-append_ge n (n - 4) (le_bytes 4 (length sealed)) sealed
          (ground (arith, e, length-le_bytes 4 (length sealed))) in
      rw cut (part_long sealed (n - 4) short (ground (arith, e, lt, length-framed sealed)))
]

-- What the framing takes is at least five bytes.
pub next_record-shorter :
    (raw sealed rest : List ℕ) → next_record raw ≡ some (sealed, rest) → length rest < length raw
unfolding next_record
next_record-shorter raw sealed rest h =
    ground (arith, h, length-drop (le_value (take 4 raw)) (drop 4 raw), length-drop 4 raw)
