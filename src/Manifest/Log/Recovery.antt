-- ===== src/Manifest/Log/Recovery.antt =====
-- Reopening the catalog: after appends, after a write that the disk refused, and after a crash in the
-- middle of an append.
use sennit.Prelude.{
  ℕ, ◌≡◌, refl, Option, none, some, List, [], ◌∷◌, ◌++◌, append_assoc, ok, err, length, take,
  take-append, arith,
}
use sennit.Manifest.{Entry}
use sennit.Manifest.Catalog.{Catalog, empty, put_entries}
use sennit.Manifest.Lines.{newline, Format, write_failed, encode_entry}
use sennit.Manifest.Lines.Reading.{Written, Fits, read_entries-Written}
use sennit.Manifest.Log.{
  Log, Disk, takes_all, takes_first, append, write_line, read_snapshot, replay_log, replay, cut,
  drop_cut_off,
}
use sennit.Manifest.Log.Settling.{settle-Written}

module _ (f : Format) where
  pub Written-append :
      (es fs : List Entry) (bytes more : List ℕ)
      → Written f bytes es
      → Written f more fs
      → Written f (bytes ++ more) (es ++ fs)
  Written-append [] fs bytes more w v = rw w v
  Written-append (e ∷ es) fs bytes more (nonce, rest, split, fits, w) v = (
    nonce,
    rest ++ more,
    rw split (append_assoc (f.encode_text nonce e) (newline ∷ rest) more),
    fits,
    Written-append es fs rest more w v,
  )

  pub Written-one :
      (nonce : List ℕ) (e : Entry) → Fits f nonce e → Written f (encode_entry f nonce e) (e ∷ [])
  unfolding encode_entry
  Written-one nonce e fits = (nonce, [], refl, fits, refl)

  -- A snapshot of whole lines, or none.
  abbrev pub Snapshot : Option (List ℕ) → List Entry → Type 0
  Snapshot none ss = ss ≡ []
  Snapshot (some bytes) ss = Written f bytes ss

  pub read_snapshot_lem :
      (o : Option (List ℕ)) (ss : List Entry)
      → Snapshot o ss
      → read_snapshot f o ≡ ok (put_entries empty ss)
  unfolding read_snapshot
  read_snapshot_lem none ss h = rw h (unfold put_entries in refl)
  read_snapshot_lem (some bytes) ss h = ground (arith, read_entries-Written f ss bytes empty h)

  -- The two files hold these entries, the snapshot's and then the log's.
  pub record Holds (ss es : List Entry) (l : Log) : Type 0 where
    pub snapshot : Snapshot l.snapshot ss
    pub log : Written f l.file es

  abbrev pub catalog_of : List Entry → List Entry → Catalog
  catalog_of ss es = put_entries (put_entries empty ss) es

  -- Replaying files of whole lines finds every entry of the snapshot and then of the log, changes
  -- neither file, and counts the log's bytes.
  pub replay-Holds :
      (disk : Disk) (ss es : List Entry) (l : Log)
      → Holds ss es l
      → replay f disk l ≡ (record l { log_bytes = length l.file }, ok (catalog_of ss es))
  unfolding replay replay_log drop_cut_off
  replay-Holds disk ss es l h = ground (
    arith,
    read_snapshot_lem l.snapshot ss h.snapshot,
    read_entries-Written f es l.file (put_entries empty ss) h.log,
    settle-Written f es disk l h.log,
  )

  -- An append to whole lines adds the entry's line; one that the disk refuses part way leaves the file
  -- as it was, and says so.
  pub append-Holds :
      (disk disk' : Disk) (nonce : List ℕ) (e : Entry) (es : List Entry) (l : Log)
      → Written f l.file es
      → append f disk disk' nonce e l
        ≡ write_line f disk' (encode_entry f nonce e) (length l.file) l
  unfolding append
  append-Holds disk disk' nonce e es l w = rw (settle-Written f es disk l w) refl

  pub write_line_refused :
      (n end : ℕ) (line : List ℕ) (l : Log)
      → length l.file ≡ end
      → write_line f (takes_first n) line end l ≡ (l, err write_failed)
  unfolding write_line cut
  write_line_refused n end line l h = ground (arith, take-append end l.file (take n line) h)

  -- An append that the disk takes adds its entry behind the log's, and one that the disk cuts short
  -- at any byte fails and leaves both files as they were.
  pub append_lem :
      (disk disk' : Disk) (nonce : List ℕ) (e : Entry) (ss es : List Entry) (l : Log)
      → Holds ss es l
      → Fits f nonce e
      → (disk' ≡ takes_all
          → ((append f disk disk' nonce e l).1 ≡ ok tt)
            × Holds ss (es ++ e ∷ []) (append f disk disk' nonce e l).0)
        × ((n : ℕ) → disk' ≡ takes_first n → append f disk disk' nonce e l ≡ (l, err write_failed))
  append_lem disk disk' nonce e ss es l h fits = (
    λ d.
        rw (append-Holds disk disk' nonce e es l h.log, d)
          (unfold write_line in
            (
              refl,
              record {
                snapshot = h.snapshot;
                log =
                    Written-append es (e ∷ []) l.file (encode_entry f nonce e) h.log
                      (Written-one nonce e fits);
              },
            )),
    λ n d.
        rw (append-Holds disk disk' nonce e es l h.log, d)
          (write_line_refused n (length l.file) (encode_entry f nonce e) l refl),
  )

  -- What reopening finds: the log's size, the catalog, and files of whole lines again.
  abbrev pub Reopens : Log → List Entry → List Entry → Type 0
  Reopens l ss es =
      (l' : Log) × (replay f takes_all l ≡ (l', ok (catalog_of ss es))) × Holds ss es l'

  pub Holds-Reopens : (ss es : List Entry) (l : Log) → Holds ss es l → Reopens l ss es
  Holds-Reopens ss es l h = (
    record l { log_bytes = length l.file },
    replay-Holds takes_all ss es l h,
    record { snapshot = h.snapshot; log = h.log },
  )
