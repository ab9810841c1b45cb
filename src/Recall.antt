-- ===== src/Recall.antt =====
-- recall/: the ranking of records for a query, before anything is fetched.
pub mod Fuse
pub mod Rank
pub mod Pipeline
pub mod Examples
use sennit.Prelude.{ℕ, ◌≡◌, String, Bool, ◌&&◌, List, ltb, ◌==◌}
use sennit.Record.{RecordId, Kind}

-- `float32`: the arithmetic is the machine's, and `place` is where a number stands in the order of the
-- numbers, by which two of them compare. NaN, which has no place, does not occur: the divisors are
-- positive.
pub record Float32 (S : Type 0) : Type 0 where
  pub of_nat : ℕ → S
  pub add : S → S → S
  pub mul : S → S → S
  pub div : S → S → S
  pub place : S → ℕ

module _ {S : Type 0} (f : Float32 S) where
  -- `a > b`, and `a == b`.
  abbrev pub greater : S → S → Bool
  greater a b = ltb (f.place b) (f.place a)

  abbrev pub equal : S → S → Bool
  equal a b = f.place a == f.place b

  -- A decimal constant, as a quotient of numbers that are exact: it rounds as the constant does.
  abbrev pub ratio : ℕ → ℕ → S
  ratio a b = f.div (f.of_nat a) (f.of_nat b)

-- `type Filter struct`
pub record Filter : Type 0 where
  pub types : List String
  pub tags : List String

-- `type Weights struct`
pub record Weights (S : Type 0) : Type 0 where
  pub tag : S
  pub type_weight : S

-- `type Meta struct`
pub record Meta : Type 0 where
  pub kind : Kind
  pub type_name : String
  pub tags : List String

-- `type candidate struct`
pub record Candidate (S : Type 0) : Type 0 where
  pub id : RecordId
  pub score : S
  pub similarity : S
  pub fused : S
  pub lexical : S
  pub boost : S

-- `type Request struct`. A limit or a number of candidates below 0 is as 0.
pub record Request (S : Type 0) : Type 0 where
  pub query : String
  pub limit : ℕ
  pub scope : List Kind
  pub filter : Filter
  pub weights : Weights S
  pub lexical_weight : S
  pub include_superseded : Bool
  pub candidates : ℕ
