-- ===== src/Sessions/Listing.antt =====
-- local/sessions.go: listings of session heads, page by page.
pub mod Pages
use Prim.Native.Nat.{min}
use sennit.Prelude.{
  ℕ, zero, suc, ◌+◌, ◌-◌, ◌<◌, String, Bool, true, false, not, ◌&&◌, ◌||◌, Option, none, some, List,
  [], ◌∷◌, ◌++◌, length, take, drop, ltb, leb, ◌==◌, str_eq, if◌then◌else◌, ◌≡◌, refl, sym, ◌∙◌, ap,
  arith, All, length-take, length-drop, take-append-drop,
}
use sennit.Prelude.Keys.{text_key, contains}
use sennit.Prelude.Counts.{number, number_all, SameItems, number_none}
use sennit.Prelude.Sorting.{sort_by, sort_by-SameItems, sort_by-OrderedBy, OrderedBy, IsStrictOrder}
use sennit.Record.{RecordId}
use sennit.Sessions.{SessionRow, Table}

-- `type SessionQuery struct`. `project` is `none` for the empty text; a negative limit or offset is as
-- 0.
pub record SessionQuery : Type 0 where
  pub kinds : List String
  pub parent : Option RecordId
  pub project : Option String
  pub tags : List String
  pub since : Option ℕ
  pub until : Option ℕ
  pub include_archived : Bool
  pub limit : ℕ
  pub offset : ℕ

-- `DefaultSessionLimit`
abbrev pub default_session_limit : ℕ
default_session_limit = 100

-- One condition of the WHERE clause for each field that is set.
abbrev pub kind_in : List String → SessionRow → Bool
kind_in [] r = true
kind_in (k ∷ ks) r = contains (k ∷ ks) r.kind

abbrev pub is_parent : RecordId → Option RecordId → Bool
is_parent id none = false
is_parent id (some p) = p == id

abbrev pub parent_is : Option RecordId → SessionRow → Bool
parent_is none r = true
parent_is (some id) r = is_parent id r.parent

abbrev pub project_is : Option String → SessionRow → Bool
project_is none r = true
project_is (some key) r = str_eq r.project key

abbrev pub updated_since : Option ℕ → SessionRow → Bool
updated_since none r = true
updated_since (some time) r = leb time r.updated

abbrev pub updated_until : Option ℕ → SessionRow → Bool
updated_until none r = true
updated_until (some time) r = leb r.updated time

abbrev pub carries_all : List String → List String → Bool
carries_all [] tags = true
carries_all (want ∷ wants) tags = contains tags want && carries_all wants tags

-- A session listed first: it was updated later, or as late and its identifier is smaller.
unfoldable pub newer : SessionRow → SessionRow → Bool
newer a b = if a.updated == b.updated then ltb a.id b.id else ltb b.updated a.updated

-- The loop of `NormalizeTags`, with the tags that it has seen.
unfoldable pub normalize_unseen : (String → String) → List String → List String → List String
normalize_unseen normalize seen [] = []
normalize_unseen normalize seen (tag ∷ tags) =
    let clean = normalize tag in
    let skipped = normalize_unseen normalize seen tags in
    let kept = normalize_unseen normalize (clean ∷ seen) tags in
    if str_eq clean "" || contains seen clean then skipped else clean ∷ kept

-- `func NormalizeTags(tags []string) []string` of local/ranking.go; `normalize` is `NormalizeTag`, lower
-- case without the space around.
unfoldable pub normalize_tags : (String → String) → List String → List String
unfolding normalize_unseen
normalize_tags normalize tags = normalize_unseen normalize [] tags

-- `tags_of` has the tags that `record_tags` holds for a record.
module _ (normalize : String → String) (tags_of : RecordId → List String) where
  -- `func sessionFilter(query SessionQuery) (string, []any)`
  unfoldable pub session_filter : SessionQuery → SessionRow → Bool
  unfolding normalize_tags
  session_filter q r =
      (q.include_archived || not r.archived)
      && (kind_in q.kinds r
          && (parent_is q.parent r
              && (project_is q.project r
                  && (updated_since q.since r
                      && (updated_until q.until r
                          && carries_all (normalize_tags normalize q.tags) (tags_of r.id))))))

  unfoldable pub matching : SessionQuery → Table → Table
  unfolding session_filter
  matching q [] = []
  matching q (r ∷ t) = let rest = matching q t in if session_filter q r then r ∷ rest else rest

  -- `func (s *Store) CountMatchingSessions(query SessionQuery) (int, error)`
  unfoldable pub count_matching_sessions : SessionQuery → Table → ℕ
  unfolding matching
  count_matching_sessions q t = length (matching q t)

  -- `func (s *Store) ListSessions(query SessionQuery) ([]SessionRow, error)`
  unfoldable pub list_sessions : SessionQuery → Table → List SessionRow
  unfolding matching newer
  list_sessions q t =
      let limit = if q.limit == 0 then default_session_limit else q.limit in
      take limit (drop q.offset (sort_by newer (matching q t)))

-- `func ProjectKey(project record.Project) string`: the repository, or else the directory.
unfoldable pub project_key : String → String → String
project_key repo cwd = if str_eq repo "" then cwd else repo
