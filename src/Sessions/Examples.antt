-- ===== src/Sessions/Examples.antt =====
-- Concrete session heads, and the theorems at concrete inputs.
use Prim.Native.Nat.{min}
use sennit.Prelude.{
  ℕ, ◌+◌, ◌-◌, ◌≡◌, ◌⊎◌, refl, String, true, false, ◌&&◌, none, some, List, [], ◌∷◌, ◌++◌, take,
  drop, length, ok, err, ◌==◌, if◌then◌else◌, All, arith,
}
use sennit.Prelude.Counts.{SameItems}
use sennit.Record.{RecordId}
use sennit.Sessions.{
  SessionRow, Table, stale_head, not_found, find_head, is_held, insert_head, update_head,
  put_session_head,
}
use sennit.Sessions.Versions.{accepted, rewritten, put_session_head_lem}
use sennit.Sessions.Writers.{Step, Reach, Recreated, no_lost_update}
use sennit.Sessions.Listing.{
  SessionQuery, session_filter, matching, list_sessions, count_matching_sessions,
}
use sennit.Sessions.Listing.Pages.{IsNewestFirst, list_sessions_lem}

abbrev head_at : ℕ → ℕ → SessionRow
head_at id version = record {
  id = id;
  version = version;
  title = "a";
  summary = "";
  kind = "main";
  project = "p";
  agent = "g";
  parent = none;
  created = 10;
  updated = 10 + version;
  archived = false;
  messages = version;
  chunks = version;
  bytes = 100;
  head = version ∷ [];
}

abbrev heads : Table
heads = head_at 4 1 ∷ head_at 6 3 ∷ []

-- A second writer of session 6 lost the race.
stale_write :
    (put_session_head (head_at 6 4) 3 (put_session_head (head_at 6 4) 3 heads).0).1 ≡ err stale_head
unfolding put_session_head insert_head update_head find_head
stale_write = refl

put_session_head_lem_example :
    ((put_session_head (head_at 6 4) 3 heads).1 ≡ (
      if accepted 3 (find_head 6 heads)
      then ok tt
      else if 3 == 0
      then err stale_head
      else if is_held (find_head 6 heads)
      then err stale_head
      else err not_found))
    × ((id : RecordId)
        → find_head id (put_session_head (head_at 6 4) 3 heads).0 ≡ (
            if accepted 3 (find_head 6 heads) && (6 == id)
            then some (rewritten (head_at 6 4) (find_head 6 heads))
            else find_head id heads))
put_session_head_lem_example = put_session_head_lem (head_at 6 4) 3 heads

-- Another writer has moved session 4 on, and session 6 is as it was read.
abbrev later : Table
later = (put_session_head (head_at 4 2) 1 heads).0

later-Reach : Reach heads later
later-Reach = Reach.next (Reach.stay heads) (Step.write (head_at 4 2) 1 heads (omega arith) refl)

no_lost_update_example : Recreated 6 later-Reach ⊎ (find_head 6 later ≡ some (head_at 6 3))
no_lost_update_example =
    no_lost_update 6 heads later (head_at 6 3) (head_at 6 4) later-Reach (unfold find_head in refl)
      (omega arith) refl (unfold put_session_head insert_head update_head find_head in refl)

abbrev lower : String → String
lower s = s

abbrev no_tags : RecordId → List String
no_tags id = []

abbrev one_of_main : SessionQuery
one_of_main = record {
  kinds = "main" ∷ [];
  parent = none;
  project = some "p";
  tags = [];
  since = none;
  until = none;
  include_archived = false;
  limit = 1;
  offset = 1;
}

list_sessions_lem_example :
    All
      (λ r. session_filter lower no_tags one_of_main r ≡ true)
      (list_sessions lower no_tags one_of_main heads)
    × (length (list_sessions lower no_tags one_of_main heads)
        ≡ min 1 (count_matching_sessions lower no_tags one_of_main heads - 1))
    × ((whole : List SessionRow) × IsNewestFirst whole
        × SameItems whole (matching lower no_tags one_of_main heads)
        × (take 1 whole ++ (list_sessions lower no_tags one_of_main heads ++ drop 1 (drop 1 whole))
            ≡ whole))
list_sessions_lem_example = list_sessions_lem lower no_tags one_of_main heads (omega arith)
