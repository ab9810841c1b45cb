-- ===== src/Index/Search.antt =====
-- index/search.go: the k nearest vectors, kept in a bounded min-heap. A score is the place of its
-- `float32` in their order, which is all that the code reads of it: NaN, which has no place, does not
-- occur among the products of finite vectors.
pub mod Best
pub mod Drain
pub mod Nearest
use sennit.Prelude.{
  ℕ, zero, suc, ◌+◌, ◌≡◌, Bool, not, Option, none, some, List, [], ◌∷◌, Result, ok, err, length,
  ltb, ◌==◌, if◌then◌else◌,
}
use sennit.Prelude.Counts.{SameItems, number}
use sennit.Record.{RecordId}
use sennit.Index.{Index, Fault, wrong_dimension}

-- `type Match struct`
pub record Match : Type 0 where
  pub id : RecordId
  pub score : ℕ

-- No match of a list scores less than `c`, or none scores more.
abbrev pub NoneBelow : ℕ → List Match → Type 0
NoneBelow c l = number (λ (m : Match). ltb m.score c) l ≡ 0

abbrev pub NoneAbove : ℕ → List Match → Type 0
NoneAbove c l = number (λ (m : Match). ltb c m.score) l ≡ 0

-- `best[0]`: nothing in the heap is less.
abbrev pub Least : Option Match → List Match → Type 0
Least none l = l ≡ []
Least (some m) l = NoneBelow m.score l

-- `container/heap` over a `matchHeap`, whose `Less` compares the scores, as its documentation has it:
-- `Push` adds, `Fix` after a write to the first element puts the new one in its place, `Pop` takes a
-- least element out, and the first element is a least one.
pub record MinHeap (H : Type 0) : Type 0 where
  pub items : H → List Match
  pub empty : H
  pub push : Match → H → H
  pub first : H → Option Match
  pub fix_first : Match → H → H
  pub rest : H → H
  pub items_empty : items empty ≡ []
  pub items-push : (m : Match) (h : H) → SameItems (items (push m h)) (m ∷ items h)
  pub first_least : (h : H) → Least (first h) (items h)
  pub items-fix_first :
      (m x : Match) (h : H) → first h ≡ some m → SameItems (m ∷ items (fix_first x h)) (x ∷ items h)
  pub items-rest : (m : Match) (h : H) → first h ≡ some m → SameItems (m ∷ items (rest h)) (items h)

module _ {H : Type 0} (heap : MinHeap H) where
  -- One round of the loop over the index.
  unfoldable pub consider : ℕ → Match → H → H
  consider k m best =
      if ltb (length (heap.items best)) k then heap.push m best else elim (heap.first best) [
        | none ↦ best
        | some least ↦ if ltb least.score m.score then heap.fix_first m best else best
      ]

  unfoldable pub consider_all : ℕ → List Match → H → H
  unfolding consider
  consider_all k [] best = best
  consider_all k (m ∷ ms) best = consider_all k ms (consider k m best)

  -- The last loop, which fills the result from its end: `n` elements are popped.
  unfoldable pub drain : ℕ → H → List Match → List Match
  drain zero best out = out
  drain (suc n) best out = elim (heap.first best) [
    | none ↦ out
    | some m ↦ drain n (heap.rest best) (m ∷ out)
  ]

-- The records of the index and their scores, in the index's order.
unfoldable pub scored : (List ℕ → ℕ) → List RecordId → List (List ℕ) → List Match
scored dot [] vs = []
scored dot (id ∷ ids) [] = []
scored dot (id ∷ ids) (v ∷ vs) = record { id = id; score = dot v } ∷ scored dot ids vs

-- `func (i *Index) Search(query []float32, k int) ([]Match, error)`. A negative `k` answers as 0.
unfoldable pub search :
    {H : Type 0}
    → MinHeap H
    → (List ℕ → List ℕ → ℕ)
    → List ℕ
    → ℕ
    → Index
    → Result Fault (List Match)
unfolding consider_all drain scored
search heap dot query k i =
    if not (length query == i.dim)
    then err wrong_dimension
    else if k == 0
    then ok []
    else (let best = consider_all heap k (scored (dot query) i.ids i.vectors) heap.empty in
        ok (drain heap (length (heap.items best)) best []))
