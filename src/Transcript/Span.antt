-- ===== src/Transcript/Span.antt =====
-- record/span.go: the turns that a memory came from.
use sennit.Prelude.{
  ℕ, zero, suc, String, Bool, true, false, ◌&&◌, Option, none, some, List, [], ◌∷◌, ◌++◌, length,
  take, drop, str_eq, if◌then◌else◌, ◌≡◌, refl, ◌∙◌, ap, arith, Option-cases, inl, inr,
  take-append-drop, Bool-cases, All,
}
use sennit.Transcript.{Message}

-- `type Span struct`
pub record Span : Type 0 where
  pub first : String
  pub last : String

-- `func (s Span) Empty() bool`
unfoldable pub is_empty_span : Span → Bool
is_empty_span s = str_eq s.first "" && str_eq s.last ""

abbrev next_place : Option ℕ → Option ℕ
next_place none = none
next_place (some n) = some (suc n)

-- The place of the first message with an id.
unfoldable pub place_of : String → List Message → Option ℕ
place_of id [] = none
place_of id (m ∷ ms) = if str_eq m.id id then some 0 else next_place (place_of id ms)

-- How many messages the span takes, from its first one on: one, where the last is not found behind it.
unfoldable pub span_length : String → List Message → ℕ
unfolding place_of
span_length last ms = elim (place_of last ms) [ none ↦ 1 | some n ↦ suc n ]

-- `func (s Span) Select(messages []Message) []Message`
unfoldable pub select : Span → List Message → List Message
unfolding is_empty_span place_of span_length
select s ms = if is_empty_span s then [] else elim (place_of s.first ms) [
  | none ↦ []
  | some n ↦ take (span_length s.last (drop n ms)) (drop n ms)
]

-- A message that names the end of a span.
abbrev pub IsNamed : String → Message → Type 0
IsNamed id m = str_eq m.id id ≡ true

place_of_found :
    (id : String) (ms : List Message) (n : ℕ)
    → place_of id ms ≡ some n
    → (m : Message) × (tail : List Message) × (drop n ms ≡ m ∷ tail)
      × IsNamed id m
      × All (λ x. str_eq x.id id ≡ false) (take n ms)
unfolding place_of
place_of_found id [] n h = absurd (ground arith)
place_of_found id (m ∷ ms) n h = elim (Bool-cases (str_eq m.id id)) [
  | inl e ↦ let zero_here : n ≡ 0 = ground (arith, h, e) in rw zero_here (m, ms, refl, e, tt)
  | inr e ↦ elim (Option-cases (place_of id ms)) [
    | inl q ↦ absurd (ground (arith, h, e, q))
    | inr (k, q) ↦
        let later : n ≡ suc k = ground (arith, h, e, q) in
        let (m', tail, at_k, named, none_before) = place_of_found id ms k q in
        rw later (m', tail, at_k, named, (e, none_before))
  ]
]

-- How a selection ends, by where the last turn is found in the messages from the first one on.
abbrev pub Ends : String → Option ℕ → List Message → List Message → Type 0
Ends last none run selected = length selected ≡ 1
Ends last (some k) run selected =
    (l : Message) × (tail : List Message) × (drop k run ≡ l ∷ tail)
    × IsNamed last l
    × (selected ≡ take k run ++ l ∷ [])

take-drop-suc :
    (k : ℕ) (run : List Message) (l : Message) (tail : List Message)
    → drop k run ≡ l ∷ tail
    → take (suc k) run ≡ take k run ++ l ∷ []
take-drop-suc zero [] l tail h = absurd (ground arith)
take-drop-suc zero (x ∷ run) l tail h = ground (arith, h)
take-drop-suc (suc k) [] l tail h = absurd (ground arith)
take-drop-suc (suc k) (x ∷ run) l tail h = ap (◌∷◌ x) (take-drop-suc k run l tail h)

ends_lem :
    (last : String) (m : Message) (tail : List Message)
    → Ends last
        (place_of last (m ∷ tail))
        (m ∷ tail)
        (take (span_length last (m ∷ tail)) (m ∷ tail))
unfolding span_length
ends_lem last m tail = elim (Option-cases (place_of last (m ∷ tail))) [
  | inl e ↦ rw (e, span_length) refl
  | inr (k, e) ↦
      let (l, behind, at_k, named, before) = place_of_found last (m ∷ tail) k e in
      rw (e, span_length) (l, behind, at_k, named, take-drop-suc k (m ∷ tail) l behind at_k)
]

-- A span that is not empty, and whose first turn is the message at `n`, selects a run of the messages
-- that begins there, at the first message of that name. Where the last turn is found from there on the
-- run ends with the first message of that name, and otherwise it is the one turn.
pub select_lem :
    (s : Span) (ms : List Message) (n : ℕ)
    → is_empty_span s ≡ false
    → place_of s.first ms ≡ some n
    → ((after : List Message) × (take n ms ++ (select s ms ++ after) ≡ ms))
      × All (λ x. str_eq x.id s.first ≡ false) (take n ms)
      × ((m : Message) × (tail : List Message) × (drop n ms ≡ m ∷ tail)
          × IsNamed s.first m
          × Ends s.last (place_of s.last (drop n ms)) (drop n ms) (select s ms))
unfolding select
select_lem s ms n filled e =
    let (m, tail, at_n, named, before) = place_of_found s.first ms n e in
    let run = drop n ms in
    let size = span_length s.last run in
    rw (filled, e, if◌then◌else◌)
      (
        (
          drop size run,
          ap (λ l. take n ms ++ l) (take-append-drop size run) ∙ take-append-drop n ms,
        ),
        before,
        (m, tail, at_n, named, rw at_n (ends_lem s.last m tail)),
      )
