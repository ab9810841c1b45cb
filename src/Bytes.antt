-- ===== src/Bytes.antt =====
-- Byte slices as lists of numbers below 256, and the fixed-width big-endian integers of Go's
-- `encoding/binary`.
use sennit.Prelude.{
  ℕ, zero, suc, ◌+◌, ◌*◌, ◌/◌, ◌%◌, ◌^◌, ◌<◌, ◌≡◌, refl, ◌∙◌, List, [], ◌∷◌, ◌++◌, arith, length,
  length-append, All, All-append,
}

abbrev pub IsByte : ℕ → Type 0
IsByte b = b < 256

-- `binary.BigEndian.AppendUint16(nil, uint16(n))` and its siblings, for `k` bytes: the low `k` bytes
-- of `n`, the highest first.
unfoldable pub be_bytes : ℕ → ℕ → List ℕ
be_bytes zero n = []
be_bytes (suc k) n = be_bytes k (n / 256) ++ (n % 256) ∷ []

-- `binary.BigEndian.Uint16` and its siblings, from the number that the bytes before made.
unfoldable pub be_value : ℕ → List ℕ → ℕ
be_value acc [] = acc
be_value acc (b ∷ bs) = be_value (acc * 256 + b) bs

pub length-be_bytes : (k n : ℕ) → length (be_bytes k n) ≡ k
unfolding be_bytes
length-be_bytes zero n = refl
length-be_bytes (suc k) n =
    omega
      (arith, length-append (be_bytes k (n / 256)) ((n % 256) ∷ []), length-be_bytes k (n / 256))

pub be_bytes-IsByte : (k n : ℕ) → All IsByte (be_bytes k n)
unfolding be_bytes
be_bytes-IsByte zero n = tt
be_bytes-IsByte (suc k) n =
    All-append IsByte (be_bytes k (n / 256)) _ (be_bytes-IsByte k (n / 256)) (omega arith)

be_value-append :
    (acc : ℕ) (xs ys : List ℕ) → be_value acc (xs ++ ys) ≡ be_value (be_value acc xs) ys
unfolding be_value
be_value-append acc [] ys = refl
be_value-append acc (x ∷ xs) ys = be_value-append (acc * 256 + x) xs ys

be_value_last : (acc b : ℕ) → be_value acc (b ∷ []) ≡ acc * 256 + b
unfolding be_value
be_value_last acc b = refl

pub be_value-be_bytes : (k n : ℕ) → n < 256 ^ k → be_value 0 (be_bytes k n) ≡ n
unfolding be_bytes
be_value-be_bytes zero n h = unfold be_value in omega arith
be_value-be_bytes (suc k) n h =
    be_value-append 0 (be_bytes k (n / 256)) ((n % 256) ∷ [])
    ∙ be_value_last (be_value 0 (be_bytes k (n / 256))) (n % 256)
    ∙ omega (arith, be_value-be_bytes k (n / 256) (omega arith))

-- `binary.LittleEndian.AppendUint16` and its siblings: the low `k` bytes of `n`, the lowest first.
unfoldable pub le_bytes : ℕ → ℕ → List ℕ
le_bytes zero n = []
le_bytes (suc k) n = n % 256 ∷ le_bytes k (n / 256)

-- `binary.LittleEndian.Uint16` and its siblings.
unfoldable pub le_value : List ℕ → ℕ
le_value [] = 0
le_value (b ∷ bs) = b + 256 * le_value bs

pub length-le_bytes : (k n : ℕ) → length (le_bytes k n) ≡ k
unfolding le_bytes
length-le_bytes zero n = refl
length-le_bytes (suc k) n = omega (arith, length-le_bytes k (n / 256))

pub le_value-le_bytes : (k n : ℕ) → n < 256 ^ k → le_value (le_bytes k n) ≡ n
unfolding le_bytes le_value
le_value-le_bytes zero n h = omega arith
le_value-le_bytes (suc k) n h = omega (arith, le_value-le_bytes k (n / 256) (omega arith))
