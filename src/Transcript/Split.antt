-- ===== src/Transcript/Split.antt =====
-- record/chunk.go: a run of messages made into groups that fit a chunk.
use sennit.Prelude.{
  ℕ, ◌+◌, ◌<◌, Bool, true, false, not, ◌&&◌, ◌||◌, List, [], ◌∷◌, ◌++◌, length, Result, ok, ◌>>=◌,
  ltb, leb, ◌==◌, if◌then◌else◌, ◌≡◌, refl, ◌∙◌, ap, arith, All, append_assoc, Bool-cases, inl, inr,
}
use sennit.Transcript.{Message, Fault}

-- `ChunkTargetBytes`
abbrev pub chunk_target_bytes : ℕ
chunk_target_bytes = 262144

abbrev pub is_nil {ℓ} : {A : Type ℓ} → List A → Bool
is_nil [] = true
is_nil (x ∷ xs) = false

-- `measure` is `messageBytes`, the length of a message's JSON.
module _ (measure : Message → Result Fault ℕ) where
  -- The loop of `SplitMessages`, behind the groups that are finished: the group that is being filled,
  -- and its bytes.
  unfoldable pub split_loop :
      ℕ → List Message → ℕ → List Message → Result Fault (List (List Message))
  split_loop target group bytes [] = ok (if is_nil group then [] else group ∷ [])
  split_loop target group bytes (m ∷ ms) = measure m >>= λ size.
      elim (not (is_nil group) && ltb target (bytes + size)) [
        | true ↦ split_loop target (m ∷ []) size ms >>= λ groups. ok (group ∷ groups)
        | false ↦ split_loop target (group ++ m ∷ []) (bytes + size) ms
      ]

  -- `func SplitMessages(messages []Message, target int) ([][]Message, error)`
  unfoldable pub split_messages : List Message → ℕ → Result Fault (List (List Message))
  unfolding split_loop
  split_messages messages target =
      split_loop (if target == 0 then chunk_target_bytes else target) [] 0 messages

abbrev pub flatten : List (List Message) → List Message
flatten [] = []
flatten (g ∷ gs) = g ++ flatten gs

abbrev pub total : (Message → ℕ) → List Message → ℕ
total size [] = 0
total size (m ∷ ms) = size m + total size ms

-- A group holds a message at least, and is within the target unless it holds no more than one.
abbrev pub IsGroup : (Message → ℕ) → ℕ → List Message → Type 0
IsGroup size target g =
    (is_nil g ≡ false) × ((leb (length g) 1 || leb (total size g) target) ≡ true)

abbrev pub first_size : (Message → ℕ) → List Message → ℕ
first_size size [] = 0
first_size size (m ∷ ms) = size m

-- No group had room for the first message of the next one.
abbrev pub Tight : (Message → ℕ) → ℕ → List (List Message) → Type 0
Tight size target [] = Unit {0}
Tight size target (g ∷ []) = Unit {0}
Tight size target (g ∷ h ∷ gs) =
    (target < total size g + first_size size h) × Tight size target (h ∷ gs)

total-snoc :
    (size : Message → ℕ) (g : List Message) (m : Message)
    → total size (g ++ m ∷ []) ≡ total size g + size m
total-snoc size [] m = omega arith
total-snoc size (x ∷ g) m = omega (arith, total-snoc size g m)

-- What the loop makes of a group that has a first message, and of the messages behind it.
record Groups (size : Message → ℕ) (target : ℕ) (m : Message) (g ms : List Message)
    (done : Result Fault (List (List Message))) : Type 0 where
  more : List Message
  rest : List (List Message)
  answers : done ≡ ok ((m ∷ more) ∷ rest)
  joins : more ++ flatten rest ≡ g ++ ms
  fits : All (IsGroup size target) ((m ∷ more) ∷ rest)
  tight : Tight size target ((m ∷ more) ∷ rest)

module _ (measure : Message → Result Fault ℕ) (size : Message → ℕ)
    (measures : (m : Message) → measure m ≡ ok (size m)) (target : ℕ) where
  split_loop-Groups :
      (m : Message) (g ms : List Message) (bytes : ℕ)
      → bytes ≡ total size (m ∷ g)
      → IsGroup size target (m ∷ g)
      → Groups size target m g ms (split_loop measure target (m ∷ g) bytes ms)
  unfolding split_loop
  split_loop-Groups m g [] bytes b i = record {
    more = g;
    rest = [];
    answers = refl;
    joins = refl;
    fits = (i, tt);
    tight = tt;
  }
  split_loop-Groups m g (n ∷ ms) bytes b i = elim (Bool-cases (ltb target (bytes + size n))) [
    | inl e ↦
        let next = split_loop-Groups n [] ms (size n) (omega arith) (refl, ground arith) in
        rw (measures n, ◌>>=◌, e, split_loop)
          (record {
            more = g;
            rest = (n ∷ next.more) ∷ next.rest;
            answers = rw next.answers refl;
            joins = ap (λ l. g ++ n ∷ l) next.joins;
            fits = (i, next.fits);
            tight = (ground (arith, e, b), next.tight);
          })
    | inr e ↦
        let next =
          split_loop-Groups m (g ++ n ∷ []) ms (bytes + size n)
            (omega (arith, b, total-snoc size g n))
            (refl, ground (arith, e, b, total-snoc size g n)) in
        rw (measures n, ◌>>=◌, e, split_loop)
          (record {
            more = next.more;
            rest = next.rest;
            answers = next.answers;
            joins = next.joins ∙ append_assoc g (n ∷ []) ms;
            fits = next.fits;
            tight = next.tight;
          })
  ]

  split_loop-start :
      (m : Message) (ms : List Message)
      → split_loop measure target [] 0 (m ∷ ms) ≡ split_loop measure target (m ∷ []) (0 + size m) ms
  unfolding split_loop
  split_loop-start m ms = rw (measures m, ◌>>=◌) refl

-- The target that is meant: the default in place of 0.
abbrev pub target_of : ℕ → ℕ
target_of target = if target == 0 then chunk_target_bytes else target

module _ (measure : Message → Result Fault ℕ) (size : Message → ℕ)
    (measures : (m : Message) → measure m ≡ ok (size m)) (target : ℕ) where
  -- Where every message can be measured, splitting answers. The groups, one behind the other, are the
  -- messages, each whole and in order; each group holds one at least, and is within the target unless
  -- it holds no more than one; and no group had room for the first message of the next. A target of 0
  -- stands for the default of 262144 bytes.
  pub split_messages_lem :
      (ms : List Message)
      → (groups : List (List Message)) × (split_messages measure ms target ≡ ok groups)
        × (flatten groups ≡ ms)
        × All (IsGroup size (target_of target)) groups
        × Tight size (target_of target) groups
  unfolding split_messages
  split_messages_lem [] = ([], (unfold split_loop in refl), refl, tt, tt)
  split_messages_lem (m ∷ ms) =
      let aim = target_of target in
      let next =
        split_loop-Groups measure size measures aim m [] ms (0 + size m) (omega arith)
          (refl, ground arith) in
      (
        (m ∷ next.more) ∷ next.rest,
        split_loop-start measure size measures aim m ms ∙ next.answers,
        ap (◌∷◌ m) next.joins,
        next.fits,
        next.tight,
      )
