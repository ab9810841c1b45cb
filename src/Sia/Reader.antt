-- ===== src/Sia/Reader.antt =====
-- The reader of sia/envelope.go, which carries its first failure, and what it reads back.
use sennit.Prelude.{
  ℕ, zero, suc, ◌^◌, ◌<◌, ◌≡◌, refl, ◌∙◌, ap, sym, Bool, true, false, Bool-cases, Option-cases, inl,
  inr, Option, none, some, List, [], ◌∷◌, ◌++◌, arith, length, ltb, ◌==◌, if◌then◌else◌,
  append_assoc, length-append,
}
use sennit.Bytes.{be_bytes, be_value, length-be_bytes, be_value-be_bytes}

-- `type reader struct`; a failure has the bytes that were wanted and those that remain. An `int` has 64
-- bits. `died` is whether an index or a slice was out of range, which ends the process.
pub record Reader : Type 0 where
  pub b : List ℕ
  pub failed : Option (ℕ × ℕ)
  pub died : Bool

-- `b[:n]` and `b[n:]`, which end the process where `b` has less than `n` bytes.
unfoldable pub slice : ℕ → List ℕ → Option (List ℕ × List ℕ)
slice zero b = some ([], b)
slice (suc n) [] = none
slice (suc n) (x ∷ b) = elim (slice n b) [
  | none ↦ none
  | some (front, rest) ↦ some (x ∷ front, rest)
]

-- `b[0]`
unfoldable pub first : List ℕ → Option ℕ
first [] = none
first (x ∷ b) = some x

-- `make([]byte, n)`
unfoldable pub zeros : ℕ → List ℕ
zeros zero = []
zeros (suc n) = 0 ∷ zeros n

abbrev pub fresh : List ℕ → Reader
fresh b = record { b = b; failed = none; died = false }

abbrev pub Reading : Type 0 → Type 0
Reading A = Reader → Reader × A

infixl 5 ◌>>>◌
unfoldable pub ◌>>>◌ : {A B : Type 0} → Reading A → (A → Reading B) → Reading B
(m >>> k) r = let (r', a) = m r in k a r'

unfoldable pub done : {A : Type 0} → A → Reading A
done a r = (r, a)

abbrev sliced : ℕ → List ℕ → Option (List ℕ × List ℕ) → Reader × List ℕ
sliced n b none = (record { b = b; failed = none; died = true }, zeros n)
sliced n b (some (front, rest)) = (fresh rest, front)

abbrev take_open : ℕ → List ℕ → Reader × List ℕ
take_open n b =
    if ltb (length b) n
    then (record { b = b; failed = some (n, length b); died = false }, zeros n)
    else sliced n b (slice n b)

-- `func (r *reader) take(n int) []byte`, and `fixed`.
unfoldable pub read_fixed : ℕ → Reading (List ℕ)
unfolding zeros slice
read_fixed n r =
    if r.died
    then (r, zeros n)
    else elim r.failed [ some f ↦ (r, zeros n) | none ↦ take_open n r.b ]

abbrev first_of : Reader → Option ℕ → Reader × ℕ
first_of r none = (record r { died = true }, 0)
first_of r (some v) = (r, v)

-- `func (r *reader) byteAt() byte`
unfoldable pub read_byte : Reading ℕ
unfolding read_fixed first
read_byte r = let (r', x) = read_fixed 1 r in first_of r' (first x)

abbrev with_value : Reader × List ℕ → Reader × ℕ
with_value (r, b) = (r, be_value 0 b)

-- `uint16`, `uint32` and `uint64`, by their number of bytes.
unfoldable pub read_uint : ℕ → Reading ℕ
unfolding read_fixed be_value
read_uint w r = with_value (read_fixed w r)

abbrev read_counted : ℕ → Reading (List ℕ)
read_counted n r = elim r.failed [
  | some f ↦ (r, [])
  | none ↦ if n == 0 then (r, []) else read_fixed n r
]

-- `func (r *reader) bytes() []byte`
unfoldable pub read_bytes : Reading (List ℕ)
unfolding read_uint read_fixed
read_bytes = read_uint 4 >>> read_counted

-- A reading takes a text off the front of any bytes, and gives a value.
unfoldable pub Reads : {A : Type 0} → List ℕ → Reading A → A → Type 0
Reads x m a = (rest : List ℕ) → m (fresh (x ++ rest)) ≡ (fresh rest, a)

pub read_then :
    {A B : Type 0} (x y : List ℕ) (m : Reading A) (k : A → Reading B) (a : A) (c : B)
    → Reads x m a
    → Reads y (k a) c
    → Reads (x ++ y) (m >>> k) c
unfolding Reads ◌>>>◌
read_then x y m k a c h g rest =
    ap (λ z. (m >>> k) (fresh z)) (append_assoc x y rest)
    ∙ ap (λ (p : Reader × _). k p.1 p.0) (h (y ++ rest))
    ∙ g rest

-- A last reading, and what is made of its value.
pub read_last :
    {A B : Type 0} (x : List ℕ) (m : Reading A) (make : A → B) (a : A)
    → Reads x m a
    → Reads x (m >>> λ v. done (make v)) (make a)
unfolding Reads ◌>>>◌ done
read_last x m make a h rest = ap (λ (p : Reader × _). (p.0, make p.1)) (h rest)

pub done-Reads : {A : Type 0} (a : A) → Reads [] (done a) a
unfolding Reads done
done-Reads a rest = refl

slice-append : (x rest : List ℕ) → slice (length x) (x ++ rest) ≡ some (x, rest)
unfolding slice
slice-append [] rest = refl
slice-append (b ∷ x) rest = rw (slice-append x rest) refl

pub read_fixed-Reads : (n : ℕ) (x : List ℕ) → length x ≡ n → Reads x (read_fixed n) x
unfolding Reads read_fixed
read_fixed-Reads n x h rest =
    let cut : slice n (x ++ rest) ≡ some (x, rest) =
      ap (λ k. slice k (x ++ rest)) (sym h) ∙ slice-append x rest in
    ground (arith, h, length-append x rest, cut)

pub read_byte-Reads : (v : ℕ) → Reads (v ∷ []) read_byte v
unfolding Reads read_byte first
read_byte-Reads v rest =
    let read : read_fixed 1 (fresh (v ∷ rest)) ≡ (fresh rest, v ∷ []) =
      unfold Reads in read_fixed-Reads 1 (v ∷ []) refl rest in
    ap (λ (p : Reader × List ℕ). first_of p.0 (first p.1)) read

pub read_uint-Reads : (w n : ℕ) → n < 256 ^ w → Reads (be_bytes w n) (read_uint w) n
unfolding Reads read_uint
read_uint-Reads w n h rest =
    rw (read_fixed-Reads w (be_bytes w n) (length-be_bytes w n) rest, be_value-be_bytes w n h) refl

suc-ne-zero : (n : ℕ) → (suc n == 0) ≡ false
suc-ne-zero n = ground arith

read_counted-Reads : (x : List ℕ) → Reads x (read_counted (length x)) x
unfolding Reads
read_counted-Reads [] rest = refl
read_counted-Reads (b ∷ bs) rest =
    rw (suc-ne-zero (length bs))
      (unfold Reads in read_fixed-Reads (length (b ∷ bs)) (b ∷ bs) refl rest)

pub read_bytes-Reads :
    (x : List ℕ) → length x < 256 ^ 4 → Reads (be_bytes 4 (length x) ++ x) read_bytes x
unfolding read_bytes
read_bytes-Reads x h =
    read_then (be_bytes 4 (length x)) x (read_uint 4) read_counted (length x) x
      (read_uint-Reads 4 (length x) h) (read_counted-Reads x)

-- A slice within the bytes that are there.
slice-within :
    (n : ℕ) (b : List ℕ)
    → ltb (length b) n ≡ false
    → (front : List ℕ) × (rest : List ℕ) × (slice n b ≡ some (front, rest)) × (length front ≡ n)
unfolding slice
slice-within zero b h = ([], b, refl, refl)
slice-within (suc n) [] h = absurd (ground (arith, h))
slice-within (suc n) (x ∷ b) h =
    let (front, rest, e, l) = slice-within n b (ground (arith, h)) in
    (x ∷ front, rest, rw e refl, omega (arith, l))

-- A reading that ends no process.
abbrev pub Lives : {A : Type 0} → Reading A → Type 0
Lives m = (r : Reader) → r.died ≡ false → (m r).0.died ≡ false

length-zeros : (n : ℕ) → length (zeros n) ≡ n
unfolding zeros
length-zeros zero = refl
length-zeros (suc n) = ap suc (length-zeros n)

read_fixed-take :
    (n : ℕ) (b : List ℕ) → ((take_open n b).0.died ≡ false) × (length (take_open n b).1 ≡ n)
read_fixed-take n b = elim (Bool-cases (ltb (length b) n)) [
  | inl e ↦ rw (e, if◌then◌else◌) (refl, length-zeros n)
  | inr e ↦ let (front, rest, cut, l) = slice-within n b e in rw (e, if◌then◌else◌, cut) (refl, l)
]

read_fixed-within :
    (n : ℕ) (r : Reader)
    → r.died ≡ false
    → ((read_fixed n r).0.died ≡ false) × (length (read_fixed n r).1 ≡ n)
unfolding read_fixed
read_fixed-within n r h = elim (Option-cases r.failed) [
  | inl e ↦ rw (h, if◌then◌else◌, e) (read_fixed-take n r.b)
  | inr (f, e) ↦ rw (h, if◌then◌else◌, e) (h, length-zeros n)
]

pub read_fixed-Lives : (n : ℕ) → Lives (read_fixed n)
read_fixed-Lives n r h = (read_fixed-within n r h).0

pub read_byte-Lives : Lives read_byte
unfolding read_byte first
read_byte-Lives r h = let (alive, one) = read_fixed-within 1 r h in go (read_fixed 1 r) alive one
  where
    go :
        (p : Reader × List ℕ)
        → p.0.died ≡ false
        → length p.1 ≡ 1
        → (first_of p.0 (first p.1)).0.died ≡ false
    go (r', []) alive one = absurd (ground (arith, one))
    go (r', (x ∷ xs)) alive one = alive

pub read_uint-Lives : (n : ℕ) → Lives (read_uint n)
unfolding read_uint
read_uint-Lives n r h = read_fixed-Lives n r h

pub then_Lives :
    {A B : Type 0} (m : Reading A) (k : A → Reading B)
    → Lives m
    → ((a : A) → Lives (k a))
    → Lives (m >>> k)
unfolding ◌>>>◌
then_Lives m k h g r d = g (m r).1 (m r).0 (h r d)

pub done-Lives : {A : Type 0} (a : A) → Lives (done a)
unfolding done
done-Lives a r h = h

counted-Lives :
    (n : ℕ) (b : List ℕ) (f : Option (ℕ × ℕ)) (d : Bool)
    → d ≡ false
    → (read_counted n (record { b = b; failed = f; died = d })).0.died ≡ false
counted-Lives n b (some f) d h = h
counted-Lives n b none d h = elim (Bool-cases (n == 0)) [
  | inl z ↦ rw (z, if◌then◌else◌) h
  | inr z ↦ rw (z, if◌then◌else◌) (read_fixed-Lives n (record { b = b; failed = none; died = d }) h)
]

read_counted-Lives : (n : ℕ) → Lives (read_counted n)
read_counted-Lives n r h = counted-Lives n r.b r.failed r.died h

pub read_bytes-Lives : Lives read_bytes
unfolding read_bytes
read_bytes-Lives = then_Lives (read_uint 4) read_counted (read_uint-Lives 4) read_counted-Lives
