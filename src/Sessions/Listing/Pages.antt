-- ===== src/Sessions/Listing/Pages.antt =====
-- What a page of a listing holds.
use Prim.Native.Nat.{min}
use sennit.Prelude.{
  ℕ, zero, suc, ◌-◌, ◌<◌, ◌≤◌, ◌⊎◌, String, Bool, true, false, not, List, [], ◌∷◌, ◌++◌, length,
  take, drop, ◌==◌, if◌then◌else◌, ◌≡◌, refl, ◌∙◌, ap, arith, All, length-take, All-take,
  length-drop, take-append-drop,
}
use sennit.Prelude.Keys.{text_key}
use sennit.Prelude.Counts.{All-none, number, number_all, SameItems}
use sennit.Prelude.Sorting.{sort_by, sort_by-SameItems, sort_by-OrderedBy, OrderedBy, IsStrictOrder}
use sennit.Record.{RecordId}
use sennit.Sessions.{SessionRow, Table}
use sennit.Sessions.Listing.{
  SessionQuery, newer, session_filter, matching, count_matching_sessions, list_sessions,
}

module _ {A : Type 0} where
  All-drop : (P : A → Type 0) (n : ℕ) (xs : List A) → All P xs → All P (drop n xs)
  All-drop P zero xs h = h
  All-drop P (suc n) [] h = tt
  All-drop P (suc n) (x ∷ xs) h = All-drop P n xs h.1

  All-true :
      (p : A → Bool) (xs : List A) → All (λ x. not (p x) ≡ false) xs → All (λ x. p x ≡ true) xs
  All-true p [] h = tt
  All-true p (x ∷ xs) h = (ground (arith, h.0), All-true p xs h.1)

-- A head that may stand behind another: it was updated earlier, or as late with no smaller identifier.
abbrev pub IsOlder : SessionRow → SessionRow → Type 0
IsOlder x y = (y.updated < x.updated) ⊎ ((y.updated ≡ x.updated) × (x.id ≤ y.id))

abbrev pub IsNewestFirst : List SessionRow → Type 0
IsNewestFirst [] = Unit {0}
IsNewestFirst (x ∷ l) = All (IsOlder x) l × IsNewestFirst l

IsOlder-All :
    (x : SessionRow) (l : List SessionRow) → All (λ y. newer y x ≡ false) l → All (IsOlder x) l
unfolding newer
IsOlder-All x [] h = tt
IsOlder-All x (y ∷ l) h = (ground (arith, h.0), IsOlder-All x l h.1)

OrderedBy-IsNewestFirst : (l : List SessionRow) → OrderedBy newer l → IsNewestFirst l
OrderedBy-IsNewestFirst [] h = tt
OrderedBy-IsNewestFirst (x ∷ l) h =
    (IsOlder-All x l (All-none (λ y. newer y x) l h.0), OrderedBy-IsNewestFirst l h.1)

module _ (normalize : String → String) (tags_of : RecordId → List String) where
  newer-IsStrictOrder : IsStrictOrder newer
  unfolding newer
  newer-IsStrictOrder = record {
    asymmetric = λ x y h. ground (arith, h);
    splits = λ x y z h g. ground (arith, h, g);
  }

  none_unmatched :
      (q : SessionQuery) (t : Table)
      → number (λ r. not (session_filter normalize tags_of q r)) (matching normalize tags_of q t)
        ≡ 0
  unfolding matching
  none_unmatched q [] = refl
  none_unmatched q (r ∷ t) = ground (arith, none_unmatched q t)

  -- A page of a listing, of a limit that is set, holds matching heads only. With the heads before it
  -- and behind it, it is the whole listing: every matching head, as often as the table holds it, from
  -- the newest to the oldest; so pages that follow one another leave none out and repeat none. It is
  -- as long as its limit allows of the count that the same query gives, less those before it.
  pub list_sessions_lem :
      (q : SessionQuery) (t : Table)
      → 0 < q.limit
      → All (λ r. session_filter normalize tags_of q r ≡ true) (list_sessions normalize tags_of q t)
        × (length (list_sessions normalize tags_of q t)
            ≡ min q.limit (count_matching_sessions normalize tags_of q t - q.offset))
        × ((whole : List SessionRow) × IsNewestFirst whole
            × SameItems whole (matching normalize tags_of q t)
            × (take q.offset whole
                  ++ (list_sessions normalize tags_of q t ++ drop q.limit (drop q.offset whole))
                ≡ whole))
  unfolding list_sessions count_matching_sessions
  list_sessions_lem q t set =
      let whole = sort_by newer (matching normalize tags_of q t) in
      let same : SameItems whole (matching normalize tags_of q t) =
        sort_by-SameItems newer (matching normalize tags_of q t) in
      let limited : (q.limit == 0) ≡ false = ground (arith, set) in
      let all : All (λ r. not (session_filter normalize tags_of q r) ≡ false) whole =
        All-none (λ r. not (session_filter normalize tags_of q r)) whole
          (same (λ r. not (session_filter normalize tags_of q r)) ∙ none_unmatched q t) in
      rw (limited, if◌then◌else◌)
        (
          All-true (session_filter normalize tags_of q) (take q.limit (drop q.offset whole)) (
              All-take (λ r. not (session_filter normalize tags_of q r) ≡ false) q.limit
                (drop q.offset whole)
                (All-drop (λ r. not (session_filter normalize tags_of q r) ≡ false) q.offset whole
                  all)),
          omega (
            arith,
            length-take q.limit (drop q.offset whole),
            length-drop q.offset whole,
            number_all whole,
            number_all (matching normalize tags_of q t),
            same (λ r. true),
          ),
          (
            whole,
            OrderedBy-IsNewestFirst whole
                (sort_by-OrderedBy newer newer-IsStrictOrder (matching normalize tags_of q t)),
            same,
            ap (λ l. take q.offset whole ++ l) (take-append-drop q.limit (drop q.offset whole))
                ∙ take-append-drop q.offset whole,
          ),
        )
