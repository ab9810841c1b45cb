-- ===== src/Seal/Uvarint.antt =====
-- Go's `binary.AppendUvarint` and `binary.Uvarint`, which seal/frame.go writes and reads lengths by.
use sennit.Prelude.{
  ℕ, zero, suc, ◌+◌, ◌*◌, ◌/◌, ◌%◌, ◌^◌, ◌<◌, ◌≡◌, refl, ap, Option, none, some, List, [], ◌∷◌,
  ◌++◌, ◌&&◌, arith, ltb, ◌==◌, if◌then◌else◌, length,
}
use native.Mathlib.Nat.{div-add-mod}

-- `binary.MaxVarintLen64`
abbrev pub max_varint_len : ℕ
max_varint_len = 10

-- `for x >= 0x80 { append(byte(x)|0x80); x >>= 7 }; append(byte(x))`, for at most as many bytes as
-- the first argument says. On ten bytes no 64-bit number is cut short (`uvarint-append_uvarint`).
put_uvarint : ℕ → ℕ → List ℕ
put_uvarint zero x = []
put_uvarint (suc room) x =
    let more = put_uvarint room (x / 128) in if ltb x 128 then x ∷ [] else (x % 128 + 128) ∷ more

unfoldable pub append_uvarint : ℕ → List ℕ
unfolding put_uvarint
append_uvarint x = put_uvarint max_varint_len x

-- `binary.Uvarint(b)` with `b[n:]`, or `none` where its count `n` is not positive. `i` counts the
-- bytes read, `x` is what they stand for, and `weight` is `1 << s` for Go's shift `s`. The seven bits
-- that a byte adds lie above those of `x`, so Go's `|` is a sum.
read_uvarint : ℕ → ℕ → ℕ → List ℕ → Option (ℕ × List ℕ)
read_uvarint i x weight [] = none
read_uvarint i x weight (b ∷ rest) =
    let more = read_uvarint (i + 1) (x + b % 128 * weight) (weight * 128) rest in
    if i == max_varint_len
    then none
    else if ltb b 128
    then (if i == 9 && ltb 1 b then none else some (x + b * weight, rest))
    else more

unfoldable pub uvarint : List ℕ → Option (ℕ × List ℕ)
unfolding read_uvarint
uvarint b = read_uvarint 0 0 1 b

-- The lowest seven bits of `v` and the rest, weighted.
split_low : (v w : ℕ) → v % 128 * w + v / 128 * (w * 128) ≡ v * w
split_low v w = omega (arith, ap (λ (t : ℕ). t * w) (div-add-mod v 128))

-- `room` bytes are left, of ten, and `v` fits them; on the last byte only 0 and 1 fit 64 bits.
read-put :
    (room i x w v : ℕ) (rest : List ℕ)
    → i + suc room ≡ 10
    → v < 2 * 128 ^ room
    → read_uvarint i x w (put_uvarint (suc room) v ++ rest) ≡ some (x + v * w, rest)
unfolding read_uvarint put_uvarint
read-put zero i x w v rest hi hv = ground arith
read-put (suc room) i x w v rest hi hv = ground (
  arith,
  split_low v w,
  read-put room (i + 1) (x + (v % 128 + 128) % 128 * w) (w * 128) (v / 128) rest,
)

-- A 64-bit number is read back, and whatever follows its bytes is left.
pub uvarint-append_uvarint :
    (v : ℕ) (rest : List ℕ) → v < 2 ^ 64 → uvarint (append_uvarint v ++ rest) ≡ some (v, rest)
unfolding uvarint append_uvarint
uvarint-append_uvarint v rest h = ground (arith, read-put 9 0 0 1 v rest refl (omega arith))

-- What is left is shorter than what was given.
read_uvarint-shorter :
    (i x w : ℕ) (b : List ℕ) (v : ℕ) (rest : List ℕ)
    → read_uvarint i x w b ≡ some (v, rest)
    → length rest < length b
unfolding read_uvarint
read_uvarint-shorter i x w [] v rest h = cc
read_uvarint-shorter i x w (b ∷ bs) v rest h =
    ground (arith, read_uvarint-shorter (i + 1) (x + b % 128 * w) (w * 128) bs v rest)

pub uvarint-shorter :
    (b : List ℕ) (v : ℕ) (rest : List ℕ) → uvarint b ≡ some (v, rest) → length rest < length b
unfolding uvarint
uvarint-shorter b v rest h = read_uvarint-shorter 0 0 1 b v rest h
