-- ===== src/Packer/Cadence.antt =====
-- The cadence: when a queue is due, that it stays due, and how often the deadlines are looked at.
use sennit.Prelude.{
  ℕ, ◌/◌, ◌≤◌, ◌<◌, ◌≡◌, Bool, true, false, ◌&&◌, ◌||◌, Option, none, some, ltb, arith, inl, inr,
  ◌⊎◌,
}
use sennit.Queue.{QueueState}
use sennit.Packer.Policy.{Policy, Reason, reached, passed, due, tick, larger, second, minute}

abbrev pub is_due : Option Reason → Bool
is_due none = false
is_due (some r) = true

-- A queue is due exactly where it is not empty and one of the four limits is set and reached: its number
-- of records, its bytes, the age of its oldest record, or the time since its newest.
pub due_lem :
    (p : Policy) (s : QueueState) (now : ℕ)
    → is_due (due p s now) ≡ (
        ltb 0 s.records
        && (reached p.max_records s.records
            || reached p.max_bytes s.bytes
            || passed p.max_age now s.oldest
            || passed p.idle_after now s.newest))
unfolding due
due_lem p s now = ground arith

passed_stays :
    (limit now later : ℕ) (at : Option ℕ)
    → now ≤ later
    → passed limit now at ≡ true
    → passed limit later at ≡ true
passed_stays limit now later none h k = k
passed_stays limit now later (some t) h k = ground arith

-- A queue that is due stays due as time passes.
pub due_stays :
    (p : Policy) (s : QueueState) (now later : ℕ)
    → now ≤ later
    → is_due (due p s now) ≡ true
    → is_due (due p s later) ≡ true
due_stays p s now later h d = rw (due_lem p s later) (
    ground (
      arith,
      due_lem p s now,
      d,
      passed_stays p.max_age now later s.oldest h,
      passed_stays p.idle_after now later s.newest h,
    ))

-- Where a deadline is set, the time between two looks at the deadlines is a second at least and a minute
-- at most, and at most the greater of a second and a tenth of that deadline.
pub tick_bounds :
    (p : Policy) (d : ℕ)
    → 0 < d
    → (d ≡ p.idle_after) ⊎ (d ≡ p.max_age)
    → (second ≤ tick p) × (tick p ≤ minute) × (tick p ≤ larger (d / 10) second)
unfolding tick
tick_bounds p d h (inl e) = (ground arith, ground arith, ground (arith, e))
tick_bounds p d h (inr e) = (ground arith, ground arith, ground (arith, e))
