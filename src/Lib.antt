-- ===== src/Lib.antt =====
-- Sennit keeps an agent's memories on a storage network that bills whole slabs, so records are sealed,
-- queued on the device, and written in batches. This library models the parts that keep those records.
--
-- A record is framed (seal/frame.go) and queued in a table on the device (local/queue.go). The packer
-- (store/packer) decides when the queue becomes a flush, claims the rows, hands the batch to the store
-- (store/store.go), and drops the rows once the batch is catalogued. The catalog is an append-only log
-- with a snapshot (manifest). A ledger (local/slabs.go) has the slabs that the account is billed for; a
-- sweep (store/reclaim) deletes what the catalog does not name and releases slabs that hold nothing live,
-- and a repack moves live records into fewer slabs. Conversations are kept as a head, of which the device
-- has one row (local/sessions.go), and chunks of messages (record). A question is answered from the vector
-- index (index), which keeps its file and a tail of what has changed since, and from a search by words,
-- whose lists recall fuses, filters and ranks. The vault (vault) composes these: forgetting a conversation
-- takes its chunks out of the queue, the catalog and the device, and its head out of the index and the table.
--
-- Files and code:
-- - Prelude, Bytes: tests, lists, results, maps, sorting, and big-endian and little-endian numbers.
-- - Record: record/id.go and record/kind.go. An id is the number of its 16 bytes.
-- - Seal.Uvarint, Seal.Frame: seal/frame.go over lists of bytes. `encoding/binary`'s varints are
--   written out from their documented format.
-- - Manifest: entry.go. Manifest.Lines: lines.go over a format of lines that is a parameter. Manifest.Log:
--   log.go and snapshot.go, the files as byte lists; a disk takes a write or its first bytes, those of the
--   pending file of a compaction included.
--   Manifest.Service: manifest.go.
-- - Queue: local/queue.go, the table as the list of its rows, each SQL statement one step.
-- - Store: PutBatch of store/store.go, over a network and a ledger that may answer anything, with the
--   calls in the order in which they are made.
-- - Packer.Policy, Packer.Flush: store/packer/policy.go and packer.go.
-- - Slabs: local/slabs.go, the ledger of the slabs that this installation pinned or found.
-- - Reclaim.Plan, Reclaim.Device, Reclaim.Sweep, Reclaim.Orphans: store/reclaim/reclaim.go, over a network
--   that may answer anything, with the calls that destroy something in the order in which they are made.
--   Reclaim.Repack: store/reclaim/repack.go, whose writer records its slabs in the device's own ledger.
-- - Sia.Reader, Sia.Envelope: sia/envelope.go, the layout of cached locations, over the digest of a slab and
--   the text of an id as parameters; an index or a slice out of range ends the process.
--   Sia.Location: sia/location.go, their splitting and joining.
-- - Index: index/index.go, the vectors in their places. Index.Search: index/search.go, with a score as its
--   place in the order of the floating-point numbers and the heap as an interface with what `container/heap`
--   documents. Index.Persist, Index.Delta, Index.Files: index/persist.go and index/tail.go, the two files
--   as byte lists that a crash may cut, over a sealer that is a parameter.
-- - Recall.Fuse, Recall.Rank, Recall.Pipeline, with the filters in Recall: recall/fuse.go, filter.go,
--   pipeline.go and hit.go, over the arithmetic of `float32` and the forms of strings as parameters.
-- - Sessions: local/sessions.go, the table as the list of its rows; Sessions.Listing also has NormalizeTags
--   of local/ranking.go.
-- - Transcript: the messages of record/message.go, their splitting in record/chunk.go and the spans of
--   record/span.go, over the size of a message's JSON as a parameter. Transcript.Session and
--   Transcript.Chunk: record/session.go and the chunks of record/chunk.go.
-- - Vault.Heads, Vault.Edges, Vault.Rounds, Vault.Children: the heads of vault/session.go and the edges on
--   them, with LinkMemory of vault/session_load.go, over JSON as a parameter and other
--   writers that act in each round.
--   Vault.Appending: validateAppend and applyHeadUpdates. Vault.Forgetting, Vault.Removal,
--   Vault.Stopping, Vault.Forgotten: discardChunk, abandon and ForgetSession, over the queue,
--   the catalog, the index and the heads.
--
-- Numbers: ids, sizes and times are natural numbers. Times that are passed on are nanoseconds; those that
-- the queue's table stores are milliseconds, which `stamp` of local/queue.go makes of them. A negative
-- duration is 0, since the code only asks whether one is positive. An `int` has 64 bits. Lengths stay
-- below 2 ^ 64 where a theorem needs it, as a hypothesis.
-- The walk over frames and the reading of an index's entries run on fuel, one round for each byte, which
-- is proved to be enough.
--
-- Not modelled: encryption and JSON (parameters with their documented laws), the Sia SDK and SQLite
-- (their answers are free, or their statements are read as documented), failures of the device's
-- database and of file operations other than writes, goroutines and timers, the arithmetic of
-- floating-point scores (a parameter), the embedding model, the rest of the vault (saving, remembering,
-- loading and rebuilding), the command line and the MCP server.
pub mod Prelude
pub mod Bytes
pub mod Record
pub mod Seal
pub mod Manifest
pub mod Queue
pub mod Store
pub mod Packer
pub mod Slabs
pub mod Reclaim
pub mod Sia
pub mod Index
pub mod Recall
pub mod Sessions
pub mod Transcript
pub mod Vault
