-- ===== src/Vault/Appending.antt =====
-- vault/session.go: what a save makes of the head before it is written: the check of the messages, and
-- the fields that a request changes.
use sennit.Prelude.{
  ℕ, ◌+◌, ◌≡◌, ◌∙◌, sym, ap, String, Bool, true, false, ◌&&◌, ◌||◌, Option, none, some, List, [],
  ◌∷◌, ◌++◌, length, Result, ok, ◌>>◌, refuse, str_eq, if◌then◌else◌, arith, All, Bool-cases,
  Result-cases, inl, inr,
}
use sennit.Prelude.Keys.{text_key, contains}
use sennit.Sessions.Listing.{normalize_tags}
use sennit.Transcript.{Text, Message, Fault, already_there, validate_message}
use sennit.Transcript.Session.{Project, Agent, AgentRef, ChunkRef, Session}

-- The fields of `type SaveSessionRequest struct` that `applyHeadUpdates` reads.
pub record SaveSessionRequest : Type 0 where
  pub title : String
  pub summary : String
  pub tags : List String
  pub project : Project
  pub agent : Agent
  pub models : List String
  pub agent_ref : Option AgentRef
  pub messages : List Message
  pub preserved_tail : List String
  pub tokens_in : ℕ
  pub tokens_out : ℕ
  pub duration_ms : ℕ
  pub archived : Bool
  pub unarchive : Bool

-- The ids at the ends of the chunks, without the empty one.
unfoldable pub boundaries : List ChunkRef → List String
boundaries [] = []
boundaries (c ∷ cs) =
    let rest = boundaries cs in
    let last = if str_eq c.last "" then rest else c.last ∷ rest in
    if str_eq c.first "" then last else c.first ∷ last

module _ (text : Text) where
  -- The loop of `validateAppend`, with the ids seen so far.
  unfoldable pub validate_unseen : List String → List Message → Result Fault (Unit {0})
  unfolding validate_message
  validate_unseen seen [] = ok tt
  validate_unseen seen (m ∷ ms) = do
    validate_message text m
    refuse (contains seen m.id) already_there
    validate_unseen (m.id ∷ seen) ms

  -- `func validateAppend(session *record.Session, messages []record.Message) error`
  unfoldable pub validate_append : Session → List Message → Result Fault (Unit {0})
  unfolding validate_unseen boundaries
  validate_append s messages = validate_unseen (boundaries s.chunks) messages

-- `func appendUnique(list []string, value string) []string`
unfoldable pub append_unique : List String → String → List String
append_unique list value = if contains list value then list else list ++ value ∷ []

unfoldable pub append_models : List String → List String → List String
unfolding append_unique
append_models list [] = list
append_models list (m ∷ ms) = append_models (append_unique list m) ms

-- The models that the messages name.
unfoldable pub message_models : List Message → List String
message_models [] = []
message_models (m ∷ ms) =
    let rest = message_models ms in if str_eq m.model "" then rest else m.model ∷ rest

abbrev pub is_empty_project : Project → Bool
is_empty_project p = str_eq p.cwd "" && (str_eq p.repo "" && str_eq p.branch "")

abbrev pub given : String → String → String
given new old = if str_eq new "" then old else new

abbrev pub given_list : List String → List String → List String
given_list [] old = old
given_list (x ∷ xs) old = x ∷ xs

abbrev pub given_ref : Option AgentRef → Option AgentRef → Option AgentRef
given_ref none old = old
given_ref (some r) old = some r

abbrev pub last_id : String → List Message → String
last_id old [] = old
last_id old (m ∷ ms) = last_id m.id ms

-- `func applyHeadUpdates(session *record.Session, req SaveSessionRequest)`, at the time `now`;
-- `normalize` is `NormalizeTag`.
unfoldable pub apply_head_updates : (String → String) → ℕ → Session → SaveSessionRequest → Session
unfolding append_models message_models normalize_tags
apply_head_updates normalize now s req = record s {
  title = given req.title s.title;
  summary = given req.summary s.summary;
  tags = elim req.tags [ [] ↦ s.tags | t ∷ ts ↦ normalize_tags normalize (t ∷ ts) ];
  project = if is_empty_project req.project then s.project else req.project;
  agent = if str_eq req.agent.name "" then s.agent else req.agent;
  agent_ref = given_ref req.agent_ref s.agent_ref;
  models = append_models (append_models s.models req.models) (message_models req.messages);
  preserved_tail = given_list req.preserved_tail s.preserved_tail;
  head_message = last_id s.head_message req.messages;
  counts = record s.counts {
    chunks = length s.chunks;
    tokens_in = s.counts.tokens_in + req.tokens_in;
    tokens_out = s.counts.tokens_out + req.tokens_out;
    duration_ms = s.counts.duration_ms + req.duration_ms;
  };
  archived = if req.archived then true else if req.unarchive then false else s.archived;
  updated = now;
}

-- No id stands twice, nor among those that were seen.
abbrev pub AllNew : List String → List Message → Type 0
AllNew seen [] = Unit {0}
AllNew seen (m ∷ ms) = (contains seen m.id ≡ false) × AllNew (m.id ∷ seen) ms

module _ (text : Text) where
  validate_unseen-AllNew :
      (seen : List String) (ms : List Message)
      → validate_unseen text seen ms ≡ ok tt
      → All (λ m. validate_message text m ≡ ok tt) ms × AllNew seen ms
  unfolding validate_unseen
  validate_unseen-AllNew seen [] h = (tt, tt)
  validate_unseen-AllNew seen (m ∷ ms) h = elim (Result-cases (validate_message text m)) [
    | inr (e, q) ↦ absurd (ground (arith, h, q))
    | inl (a, q) ↦ elim (Bool-cases (contains seen m.id)) [
      | inl c ↦ absurd (ground (arith, h, q, c))
      | inr c ↦
          let (valid, new) = validate_unseen-AllNew (m.id ∷ seen) ms (ground (arith, h, q, c)) in
          ((q, valid), (c, new))
    ]
  ]

  -- Messages that are accepted for a conversation are each valid, no two of them have one id, and none
  -- has the id of a message at the end of a chunk that the head names.
  pub validate_append-AllNew :
      (s : Session) (ms : List Message)
      → validate_append text s ms ≡ ok tt
      → All (λ m. validate_message text m ≡ ok tt) ms × AllNew (boundaries s.chunks) ms
  unfolding validate_append
  validate_append-AllNew s ms h = validate_unseen-AllNew (boundaries s.chunks) ms h

contains-snoc :
    (list : List String) (value m : String)
    → contains (list ++ value ∷ []) m ≡ (contains list m || str_eq value m)
contains-snoc [] value m = ground arith
contains-snoc (x ∷ list) value m = ground (arith, contains-snoc list value m)

contains-append_unique :
    (list : List String) (value m : String)
    → contains (append_unique list value) m ≡ (contains list m || str_eq value m)
unfolding append_unique
contains-append_unique list value m = elim (Bool-cases (contains list value)) [
  | inr e ↦ rw (e, if◌then◌else◌) (contains-snoc list value m)
  | inl e ↦ elim (Bool-cases (str_eq value m)) [
    | inr q ↦ ground (arith, e, q)
    | inl q ↦
        let here : contains list m ≡ true =
          ap (contains list) (sym ((text_key.same_iff value m).0 q)) ∙ e in
        ground (arith, e, q, here)
  ]
]

contains-append_models :
    (list new : List String) (m : String)
    → contains (append_models list new) m ≡ (contains list m || contains new m)
unfolding append_models
contains-append_models list [] m = ground arith
contains-append_models list (x ∷ new) m =
    contains-append_models (append_unique list x) new m
    ∙ ground (arith, contains-append_unique list x m)

-- The models of a head after a save are those that it had, those that the request names, and those
-- that its messages name.
pub apply_head_updates-models :
    (normalize : String → String) (now : ℕ) (s : Session) (req : SaveSessionRequest) (m : String)
    → contains (apply_head_updates normalize now s req).models m
      ≡ (contains s.models m || (contains req.models m || contains (message_models req.messages) m))
unfolding apply_head_updates
apply_head_updates-models normalize now s req m =
    contains-append_models (append_models s.models req.models) (message_models req.messages) m
    ∙ ground (arith, contains-append_models s.models req.models m)
