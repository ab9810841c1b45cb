-- ===== src/Packer/Policy.antt =====
-- store/packer/policy.go. Times and durations are nanoseconds, as in Go; a duration that is not positive
-- is 0, since the code only asks whether it is positive.
use sennit.Prelude.{
  ℕ, ◌-◌, ◌*◌, ◌/◌, Bool, false, ◌&&◌, ◌||◌, Option, none, some, ltb, leb, ◌==◌, if◌then◌else◌,
}
use sennit.Queue.{QueueState}

-- `type Policy struct`
pub record Policy : Type 0 where
  pub idle_after : ℕ
  pub max_age : ℕ
  pub max_bytes : ℕ
  pub max_records : ℕ
  pub claim_timeout : ℕ

abbrev pub millisecond : ℕ
millisecond = 1000000

abbrev pub second : ℕ
second = 1000 * millisecond

abbrev pub minute : ℕ
minute = 60 * second

abbrev pub default_claim_timeout : ℕ
default_claim_timeout = 10 * minute

-- `func DefaultPolicy(slabBytes int64) Policy`
unfoldable pub default_policy : ℕ → Policy
default_policy slab_bytes = record {
  idle_after = 5 * minute;
  max_age = 60 * minute;
  max_bytes = slab_bytes;
  max_records = 100000;
  claim_timeout = default_claim_timeout;
}

-- `func Immediate(slabBytes int64) Policy`
unfoldable pub immediate : ℕ → Policy
immediate slab_bytes = record {
  idle_after = 0;
  max_age = 0;
  max_bytes = slab_bytes;
  max_records = 1;
  claim_timeout = default_claim_timeout;
}

-- `type Reason string`
pub data Reason : Type 0 where
  idle age bytes records manual : Reason

-- Whether a limit is set and a figure has reached it.
abbrev pub reached : ℕ → ℕ → Bool
reached limit n = ltb 0 limit && leb limit n

-- Whether a limit is set and so much time has passed since an instant; the zero time is `none`.
abbrev pub passed : ℕ → ℕ → Option ℕ → Bool
passed limit now none = false
passed limit now (some at) = ltb 0 limit && leb limit (now - at)

-- `func (p Policy) due(state local.QueueState, now time.Time) (Reason, bool)`
unfoldable pub due : Policy → QueueState → ℕ → Option Reason
due p state now =
    if state.records == 0
    then none
    else if reached p.max_records state.records
    then some records
    else if reached p.max_bytes state.bytes
    then some bytes
    else if passed p.max_age now state.oldest
    then some age
    else if passed p.idle_after now state.newest
    then some idle
    else none

-- `func (p Policy) claimTimeout() time.Duration`
unfoldable pub respected : Policy → ℕ
respected p = if ltb 0 p.claim_timeout then p.claim_timeout else default_claim_timeout

abbrev pub smaller : ℕ → ℕ → ℕ
smaller a b = if ltb b a then b else a

abbrev pub larger : ℕ → ℕ → ℕ
larger a b = if ltb a b then b else a

-- The shorter of the two deadlines that are set, or 0.
abbrev pub shortest : Policy → ℕ
shortest p =
    if p.idle_after == 0 || (ltb 0 p.max_age && ltb p.max_age p.idle_after)
    then p.max_age
    else p.idle_after

-- `func (p Policy) tick() time.Duration`
unfoldable pub tick : Policy → ℕ
tick p = if shortest p == 0 then minute else smaller (larger (shortest p / 10) second) minute
