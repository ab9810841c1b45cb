-- ===== src/Vault/Examples.antt =====
-- A concrete vault, and the theorems at concrete inputs.
use sennit.Prelude.{ℕ, ◌≡◌, refl, sym, ap, false, none, some, Option, List, [], ◌∷◌, ok}
use sennit.Prelude.Keys.{number_key}
use sennit.Record.{RecordId}
use sennit.Packer.Examples.{packer}
use sennit.Manifest.Catalog.{put_entry}
use sennit.Manifest.Log as Log
use sennit.Manifest.Log.{takes_all}
use sennit.Manifest.Service as Manifest
use sennit.Manifest.Service.Examples.{letters, opened, world}
use sennit.Index.Examples.{one_index}
use sennit.Index.Files.Examples.{plain, nothing}
use sennit.Sessions.{Table}
use sennit.Transcript.Session.{Session, ChunkRef}
use sennit.Vault.Heads.{Codec, head_row, Round, with_children}
use sennit.Vault.Edges.{ReadsBack}
use sennit.Vault.Forgetting.{Vault, Surroundings, forget_session}

abbrev chunk : ChunkRef
chunk = record { id = 1; seq = 0; first = "a"; last = "b"; n = 2; bytes = 9; cid = "c" }

-- The heads of the session 7, by their version, time and children.
abbrev head_of : ℕ → ℕ → List RecordId → Session
head_of version updated children = record {
  id = 7;
  schema = "sennit.session/1";
  schema_version = 1;
  version = version;
  title = "t";
  summary = "";
  tags = [];
  project = record { cwd = ""; repo = "r"; branch = "" };
  created = 1;
  updated = updated;
  archived = false;
  agent = record { name = ""; version = "" };
  models = [];
  counts = record {
    messages = 2;
    chunks = 1;
    bytes = 9;
    tokens_in = 0;
    tokens_out = 0;
    duration_ms = 0;
  };
  kind = "main";
  agent_ref = none;
  lineage = record {
    parent_session = none;
    forked_from = none;
    resumed_from = none;
    children = children;
  };
  head_message = "b";
  preserved_tail = [];
  chunks = chunk ∷ [];
  memories = [];
  embedding = record { model = "m"; dim = 2 };
}

abbrev written : Session → List ℕ
written s = s.version ∷ s.updated ∷ s.lineage.children

abbrev parsed : List ℕ → Option Session
parsed [] = none
parsed (v ∷ []) = none
parsed (v ∷ u ∷ children) = some (head_of v u children)

abbrev json : Codec
json = record { marshal = written; unmarshal = parsed }

abbrev IsHead : Session → Type 0
IsHead s = s ≡ head_of s.version s.updated s.lineage.children

abbrev json_law : ReadsBack json
json_law = record {
  Storable = IsHead;
  reads = λ s h. ap some (sym h);
  revises = λ s v u h. ap (λ (x : Session). record x { version = v; updated = u }) h;
  relates = λ s children h. ap (with_children children) h;
}

abbrev heads : Table
heads = head_row (head_of 3 5 []) (written (head_of 3 5 [])) ∷ []

abbrev alone : ℕ → Round
alone n = record { before = λ t. t; between = λ t. t; now = 20 }

abbrev vault : Vault
vault = record {
  packer = packer;
  manifest = opened;
  bodies = (1, ("chunk", 4 ∷ [])) ∷ [];
  heads = heads;
  vectors = nothing;
  index = one_index;
  metas = [];
}

abbrev surroundings : Surroundings
surroundings = record {
  now = 7000000;
  worlds = λ n. world;
  rounds = alone;
  disks = λ n. takes_all;
  nonces = λ n. [];
  meanwhile = λ t. t;
}

-- The forgetting above ends without a fault.
forgotten : (forget_session json letters plain surroundings 7 vault).1 ≡ ok tt
unfolding forget_session Manifest.remove put_entry Log.append Log.due_for_compaction
forgotten = refl
