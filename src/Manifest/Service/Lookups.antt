-- ===== src/Manifest/Service/Lookups.antt =====
-- What a lookup and a listing find after an append and after a removal, compacted or not.
use sennit.Prelude.{
  ℕ, true, some, ◌≡◌, refl, ◌∙◌, ap, sym, Result, ok, err, if◌then◌else◌, arith, ◌==◌,
}
use sennit.Record.{RecordId}
use sennit.Manifest.{Entry}
use sennit.Manifest.Catalog.{Catalog, current, put_entry}
use sennit.Manifest.Catalog.Fold.{current-put_entry}
use sennit.Manifest.Catalog.Sound.{IsSound}
use sennit.Manifest.Lines.{Format, Fault}
use sennit.Manifest.Log
use sennit.Manifest.Log.{Log}
use sennit.Manifest.Service.{
  Manifest, Refusal, not_found, live, lookup, World, logged, append_entry, compact_if_due, append,
  remove, then_compact,
}

err-ne-ok : {x : Refusal} → ◌≡◌ {A = Result Refusal (Unit {0})} (err x) (ok tt) → ⊥
err-ne-ok h = cc

module _ (f : Format) where
  compact_if_due-catalog : (w : World) (m : Manifest) → (compact_if_due f w m).0.catalog ≡ m.catalog
  unfolding compact_if_due
  compact_if_due-catalog w m = ground arith

  -- An append changes the catalog by its entry, where the log took it, and not at all otherwise;
  -- whether the log was folded together afterwards, or failed at that, makes no difference.
  pub catalog-append :
      (w : World) (e : Entry) (m : Manifest)
      → (append f w e m).0.catalog ≡ (elim (Log.append f w.settling w.appending w.nonce e m.log).1 [
        | ok a ↦ put_entry m.catalog e
        | err x ↦ m.catalog
      ])
  unfolding append append_entry
  catalog-append w e m = go (Log.append f w.settling w.appending w.nonce e m.log)
    where
      go :
          (r : Log × Result Fault (Unit {0}))
          → (then_compact f w (logged f r e m)).0.catalog
            ≡ (elim r.1 [ ok a ↦ put_entry m.catalog e | err x ↦ m.catalog ])
      go (l, ok a) = compact_if_due-catalog w _
      go (l, err x) = refl

  log_took :
      (w : World) (e : Entry) (m : Manifest)
      → (append f w e m).1 ≡ ok tt
      → (append f w e m).0.catalog ≡ put_entry m.catalog e
  unfolding append append_entry
  log_took w e m h =
      catalog-append w e m ∙ go (Log.append f w.settling w.appending w.nonce e m.log) h
    where
      go :
          (r : Log × Result Fault (Unit {0}))
          → (then_compact f w (logged f r e m)).1 ≡ ok tt
          → (elim r.1 [ ok a ↦ put_entry m.catalog e | err x ↦ m.catalog ]) ≡ put_entry m.catalog e
      go (l, ok a) eq = refl
      go (l, err x) eq = cc

  -- After an append that succeeded, the record of its entry is found as that entry, or not at all if
  -- the entry marks it deleted, and every other record is found as before.
  pub lookup-append :
      (w : World) (e : Entry) (m : Manifest) (id : RecordId)
      → (append f w e m).1 ≡ ok tt
      → lookup (append f w e m).0 id ≡ (if e.id == id then live (some e) else lookup m id)
  unfolding lookup
  lookup-append w e m id h =
      ap (λ (c : Catalog). live (current c id)) (log_took w e m h)
      ∙ ap live (current-put_entry m.catalog e id)
      ∙ ground arith

  abbrev pub marked : Entry → ℕ → Entry
  marked e now = record e { deleted = true; written_at = now }

  pub remove_live :
      (w : World) (now : ℕ) (id : RecordId) (m : Manifest) (e : Entry)
      → lookup m id ≡ ok e
      → remove f w now id m ≡ append f w (marked e now) m
  unfolding remove
  remove_live w now id m e h = rw (h, remove) refl

  pub remove_missing :
      (w : World) (now : ℕ) (id : RecordId) (m : Manifest) (x : Refusal)
      → lookup m id ≡ err x
      → remove f w now id m ≡ (m, err x)
  unfolding remove
  remove_missing w now id m x h = rw (h, remove) refl

  -- Removing a record from a sound catalog, where the call succeeds, makes that record not found, and
  -- leaves every other record as it was.
  pub lookup-remove :
      (w : World) (now : ℕ) (id : RecordId) (m : Manifest) (other : RecordId)
      → IsSound m.catalog
      → (remove f w now id m).1 ≡ ok tt
      → lookup (remove f w now id m).0 other
        ≡ (if id == other then err not_found else lookup m other)
  lookup-remove w now id m other sound h = found (lookup m id) refl h other
    where
      found :
          (r : Result Refusal Entry)
          → lookup m id ≡ r
          → (remove f w now id m).1 ≡ ok tt
          → (other : RecordId)
          → lookup (remove f w now id m).0 other
            ≡ (if id == other then err not_found else lookup m other)
      found (err x) q h other = absurd (
          err-ne-ok (
            ap (λ (p : Manifest × Result Refusal (Unit {0})). p.1)
              (sym (remove_missing w now id m x q))
            ∙ h))
      found (ok e) q h other =
          let eq = remove_live w now id m e q in
          let own : e.id ≡ id = unfold lookup in ground (arith, sound.own id e, q) in
          ap (λ (p : Manifest × Result Refusal (Unit {0})). lookup p.0 other) eq
          ∙ lookup-append w (marked e now) m other
              (ap (λ (p : Manifest × Result Refusal (Unit {0})). p.1) (sym eq) ∙ h)
          ∙ ap (λ (i : RecordId). if i == other then err not_found else lookup m other) own
