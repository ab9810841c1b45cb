-- ===== src/Transcript/Examples.antt =====
-- Concrete messages, and the theorems at concrete inputs.
use sennit.Prelude.{ℕ, ◌≡◌, refl, String, List, [], ◌∷◌, Result, ok, All}
use sennit.Transcript.{Message, no_parts, Fault}
use sennit.Transcript.Split.{
  split_messages, split_loop, flatten, IsGroup, Tight, split_messages_lem,
}

abbrev message : String → ℕ → Message
message id size = record {
  id = id;
  role = "user";
  parts = no_parts;
  model = "";
  stored = size ∷ [];
}

abbrev size_of : List ℕ → ℕ
size_of [] = 0
size_of (n ∷ ns) = n

abbrev measured : Message → Result Fault ℕ
measured m = ok (size_of m.stored)

abbrev three : List Message
three = message "a" 4 ∷ message "b" 5 ∷ message "c" 20 ∷ []

two_groups :
    split_messages measured three 10
    ≡ ok ((message "a" 4 ∷ message "b" 5 ∷ []) ∷ (message "c" 20 ∷ []) ∷ [])
unfolding split_messages split_loop
two_groups = refl

split_messages_lem_example :
    (groups : List (List Message)) × (split_messages measured three 10 ≡ ok groups)
    × (flatten groups ≡ three)
    × All (IsGroup (λ m. size_of m.stored) 10) groups
    × Tight (λ m. size_of m.stored) 10 groups
split_messages_lem_example =
    split_messages_lem measured (λ m. size_of m.stored) (λ m. refl) 10 three
