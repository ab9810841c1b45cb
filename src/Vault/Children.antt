-- ===== src/Vault/Children.antt =====
-- The runs that a conversation names as its children.
use sennit.Prelude.{ℕ, suc, ◌<◌, ◌≡◌, true, false, [], ◌∷◌, ◌++◌, Result, ok, err, ◌⊎◌}
use sennit.Prelude.Keys.{number_key, contains}
use sennit.Record.{RecordId}
use sennit.Sessions.{Table, stale_head}
use sennit.Transcript.Session.{Session}
use sennit.Vault.Heads.{
  Codec, Fault, no_such_session, heads_refused, Round, head_revisions, read_head, with_children,
}
use sennit.Vault.Edges.{IsQuiet, at_round}

-- A round that begins with `t` has adopted a run: the head that it read names the run already, and
-- nothing is written; or the head `s` that the device held when it was written did not, and the device
-- holds `s` with the run after its other children, at the next version.
abbrev pub Joined : Codec → RecordId → RecordId → Round → Table → Table → Type 0
Joined codec parent child r t u =
    ((s : Session) × (u ≡ r.before t)
      × (read_head codec parent u ≡ ok s)
      × (contains s.lineage.children child ≡ true))
    ⊎ ((s : Session) × (read_head codec parent (r.between (r.before t)) ≡ ok s)
        × (contains s.lineage.children child ≡ false)
        × (read_head codec parent u
            ≡ ok (record (with_children (s.lineage.children ++ child ∷ []) s) {
              version = suc s.version;
              updated = r.now;
            })))

-- What adopting a run comes to: one of the sixteen rounds adopts it; or the parent is not there; or each
-- of the rounds was refused, and none of them was quiet.
abbrev pub Adopted :
    Codec → RecordId → RecordId → (ℕ → Round) → Table → Table × Result Fault (Unit {0}) → Type 0
Adopted codec parent child rounds t (u, ok a) =
    (k : ℕ) × (k < head_revisions) × Joined codec parent child (rounds k) (at_round rounds k t) u
Adopted codec parent child rounds t (u, err e) =
    (e ≡ no_such_session)
    ⊎ ((e ≡ heads_refused stale_head)
        × ((k : ℕ) → k < head_revisions → IsQuiet parent (rounds k) → ⊥))
