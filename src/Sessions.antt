-- ===== src/Sessions.antt =====
-- local/sessions.go: the table of session heads. A statement runs whole, so each operation is one step
-- on the rows; `session_id` is the primary key.
pub mod Versions
pub mod Writers
pub mod Listing
pub mod Examples
use sennit.Prelude.{
  ℕ, zero, suc, ◌+◌, String, Bool, true, false, not, ◌&&◌, ◌||◌, Option, none, some, List, [], ◌∷◌,
  ◌++◌, length, take, drop, Result, ok, err, ltb, leb, ◌==◌, str_eq, if◌then◌else◌,
}
use sennit.Prelude.Keys.{text_key, contains}
use sennit.Prelude.Sorting.{sort_by}
use sennit.Record.{RecordId}

-- A row of `session_heads`: the columns of `type SessionRow struct`, and the head itself. A time is
-- its place in the order of the stored texts, which are of one width.
pub record SessionRow : Type 0 where
  pub id : RecordId
  pub version : ℕ
  pub title : String
  pub summary : String
  pub kind : String
  pub project : String
  pub agent : String
  pub parent : Option RecordId
  pub created : ℕ
  pub updated : ℕ
  pub archived : Bool
  pub messages : ℕ
  pub chunks : ℕ
  pub bytes : ℕ
  pub head : List ℕ

abbrev pub Table : Type 0
Table = List SessionRow

-- `stale_head` is `ErrStaleHead`, `not_found` is `ErrNotFound`.
pub data Fault : Type 0 where
  stale_head not_found : Fault

-- `SELECT ... WHERE session_id = ?`
unfoldable pub find_head : RecordId → Table → Option SessionRow
find_head id [] = none
find_head id (r ∷ t) = if r.id == id then some r else find_head id t

abbrev pub is_held : Option SessionRow → Bool
is_held none = false
is_held (some r) = true

-- Whether the head of a record is at a version.
abbrev pub is_at : ℕ → Option SessionRow → Bool
is_at version none = false
is_at version (some r) = r.version == version

-- `INSERT ... ON CONFLICT(session_id) DO NOTHING`
unfoldable pub insert_head : SessionRow → Table → Table
unfolding find_head
insert_head s t = if is_held (find_head s.id t) then t else t ++ s ∷ []

-- `UPDATE session_heads SET ... WHERE session_id = ? AND version = ?`, which leaves `created_at`.
unfoldable pub update_head : SessionRow → ℕ → Table → Table
update_head s expect [] = []
update_head s expect (r ∷ t) =
    (if r.id == s.id && (r.version == expect) then record s { created = r.created } else r)
    ∷ update_head s expect t

-- `func (s *Store) headWritten(id record.ID, result sql.Result, expect int64) error`, where no row
-- was written.
unfoldable pub not_written : RecordId → ℕ → Table → Fault
unfolding find_head
not_written id expect t =
    if ltb 0 expect && not (is_held (find_head id t)) then not_found else stale_head

-- `func (s *Store) PutSessionHead(session *record.Session, head []byte, expect int64) error`
unfoldable pub put_session_head : SessionRow → ℕ → Table → Table × Result Fault (Unit {0})
unfolding insert_head update_head not_written find_head
put_session_head s expect t =
    if expect == 0
    then (if is_held (find_head s.id t)
        then (t, err (not_written s.id expect t))
        else (insert_head s t, ok tt))
    else if is_at expect (find_head s.id t)
    then (update_head s expect t, ok tt)
    else (t, err (not_written s.id expect t))

-- `func (s *Store) GetSessionHead(id record.ID) ([]byte, error)`
unfoldable pub get_session_head : RecordId → Table → Result Fault (List ℕ)
unfolding find_head
get_session_head id t = elim (find_head id t) [ none ↦ err not_found | some r ↦ ok r.head ]

-- `func (s *Store) SessionTitle(id record.ID) (string, error)`
unfoldable pub session_title : RecordId → Table → Result Fault String
unfolding find_head
session_title id t = elim (find_head id t) [ none ↦ err not_found | some r ↦ ok r.title ]

-- `func (s *Store) ForgetSessionHead(id record.ID) error`
unfoldable pub forget_session_head : RecordId → Table → Table
forget_session_head id [] = []
forget_session_head id (r ∷ t) =
    let rest = forget_session_head id t in if r.id == id then rest else r ∷ rest

-- `func (s *Store) ForgetSessionHeadAt(id record.ID, version int64) error`
unfoldable pub forget_session_head_at : RecordId → ℕ → Table → Table × Result Fault (Unit {0})
unfolding find_head forget_session_head
forget_session_head_at id version t =
    if is_at version (find_head id t)
    then (forget_session_head id t, ok tt)
    else if is_held (find_head id t)
    then (t, err stale_head)
    else (t, ok tt)

-- `func (s *Store) CountSessions() (int, error)`
unfoldable pub count_sessions : Table → ℕ
count_sessions t = length t
