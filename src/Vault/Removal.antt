-- ===== src/Vault/Removal.antt =====
-- What taking chunks out of the catalog and off the device leaves of the vault.
use sennit.Prelude.{
  ℕ, suc, ◌≡◌, refl, ◌∙◌, sym, ap, subst, none, List, [], ◌∷◌, Result, ok, err, ◌==◌, if◌then◌else◌,
  arith, inl, inr, Bool-cases, Result-cases,
}
use sennit.Prelude.Keys.{number_key, contains}
use sennit.Prelude.Maps as Maps
use sennit.Prelude.Maps.{delete, lookup-delete}
use sennit.Record.{RecordId}
use sennit.Manifest.{Entry}
use sennit.Manifest.Catalog.{put_entry}
use sennit.Manifest.Catalog.Sound.{IsSound, put_entry-IsSound}
use sennit.Manifest.Lines.{Format}
use sennit.Manifest.Lines as Lines
use sennit.Manifest.Log as Log
use sennit.Manifest.Log.{Log}
use sennit.Manifest.Service.{
  Manifest, World, Refusal, not_found, log_failed, lookup, append, remove, append_entry,
  compact_if_due, then_compact, logged,
}
use sennit.Manifest.Service.Lookups.{
  lookup-remove, marked, remove_live, remove_missing, catalog-append,
}
use sennit.Vault.Forgetting.{
  Vault, Outcome, and_then, forget_body, removed_entry, remove_entry, drop_chunk, drop_chunks,
}

-- What a removal of chunks does not touch.
pub record Untouched (v u : Vault) : Type 0 where
  pub packer : u.packer ≡ v.packer
  pub heads : u.heads ≡ v.heads
  pub vectors : u.vectors ≡ v.vectors
  pub index : u.index ≡ v.index
  pub metas : u.metas ≡ v.metas

pub and_then-ok :
    (out : Outcome) (k : Vault → Outcome)
    → (and_then out k).1 ≡ ok tt
    → (out.1 ≡ ok tt) × (and_then out k ≡ k out.0)
and_then-ok (v, ok a) k h = (refl, refl)
and_then-ok (v, err e) k h = absurd (ground (arith, h))

module _ (f : Format) where
  compact_fault : (w : World) (m : Manifest) → (compact_if_due f w m).1 ≡ err not_found → ⊥
  unfolding compact_if_due
  compact_fault w m h = elim (Bool-cases (Log.due_for_compaction m.log)) [
    | inl e ↦ elim (Result-cases (Log.compact f w.compacting w.pending w.nonces m.log).1) [
      | inl (a, q) ↦ ground (arith, h, e, q)
      | inr (x, q) ↦ ground (arith, h, e, q)
    ]
    | inr e ↦ ground (arith, h, e)
  ]

  append_fault : (w : World) (e : Entry) (m : Manifest) → (append f w e m).1 ≡ err not_found → ⊥
  unfolding append append_entry
  append_fault w e m = go (Log.append f w.settling w.appending w.nonce e m.log)
    where
      go :
          (r : Log × Result Lines.Fault (Unit {0}))
          → (then_compact f w (logged f r e m)).1 ≡ err not_found
          → ⊥
      go (l, ok a) h = compact_fault w _ h
      go (l, err x) h = ground (arith, h)

  append-IsSound :
      (w : World) (e : Entry) (m : Manifest)
      → IsSound m.catalog
      → IsSound (append f w e m).0.catalog
  append-IsSound w e m sound =
      subst IsSound (sym (catalog-append f w e m))
        (go (Log.append f w.settling w.appending w.nonce e m.log).1)
    where
      go :
          (r : Result Lines.Fault (Unit {0}))
          → IsSound (elim r [ ok a ↦ put_entry m.catalog e | err x ↦ m.catalog ])
      go (ok a) = put_entry-IsSound m.catalog e sound
      go (err x) = sound

  remove-IsSound :
      (w : World) (now : ℕ) (id : RecordId) (m : Manifest)
      → IsSound m.catalog
      → IsSound (remove f w now id m).0.catalog
  remove-IsSound w now id m sound = elim (Result-cases (lookup m id)) [
    | inl (e, h) ↦
        subst (λ out. IsSound out.0.catalog) (sym (remove_live f w now id m e h))
          (append-IsSound w (marked f e now) m sound)
    | inr (x, h) ↦
        subst (λ out. IsSound out.0.catalog) (sym (remove_missing f w now id m x h)) sound
  ]

  -- A removal that answers that the record is not there changes nothing, and it is not.
  remove-absent :
      (w : World) (now : ℕ) (id : RecordId) (m : Manifest)
      → (remove f w now id m).1 ≡ err not_found
      → (lookup m id ≡ err not_found) × ((remove f w now id m).0 ≡ m)
  remove-absent w now id m h = elim (Result-cases (lookup m id)) [
    | inl (e, q) ↦ absurd (
        append_fault w (marked f e now) m
          (sym (ap (λ out. out.1) (remove_live f w now id m e q)) ∙ h))
    | inr (x, q) ↦
        let same = remove_missing f w now id m x q in
        (ground (arith, q, h, same), ap (λ out. out.0) same)
  ]

  absent :
      (id j : RecordId) (m u : Manifest)
      → lookup m id ≡ err not_found
      → u ≡ m
      → lookup u j ≡ (if id == j then err not_found else lookup m j)
  absent id j m u gone same = elim (Bool-cases (id == j)) [
    | inl q ↦
        let equal : id ≡ j = ground (arith, q) in
        rw (q, if◌then◌else◌) (ap (λ x. lookup x j) same ∙ sym (ap (lookup m) equal) ∙ gone)
    | inr q ↦ rw (q, if◌then◌else◌) (ap (λ x. lookup x j) same)
  ]

  -- Where the removal of an entry is no fault, that record is not found and the others are as before.
  lookup-remove_entry :
      (w : World) (now : ℕ) (id : RecordId) (v : Vault)
      → IsSound v.manifest.catalog
      → (remove_entry f w now id v).1 ≡ ok tt
      → Untouched v (remove_entry f w now id v).0
        × IsSound (remove_entry f w now id v).0.manifest.catalog
        × ((remove_entry f w now id v).0.bodies ≡ v.bodies)
        × ((j : RecordId)
            → lookup (remove_entry f w now id v).0.manifest j
              ≡ (if id == j then err not_found else lookup v.manifest j))
  unfolding remove_entry
  lookup-remove_entry w now id v sound done = go (remove f w now id v.manifest) refl done
    where
      go :
          (r : Manifest × Result Refusal (Unit {0}))
          → remove f w now id v.manifest ≡ r
          → (removed_entry v r).1 ≡ ok tt
          → Untouched v (removed_entry v r).0
            × IsSound (removed_entry v r).0.manifest.catalog
            × ((removed_entry v r).0.bodies ≡ v.bodies)
            × ((j : RecordId)
                → lookup (removed_entry v r).0.manifest j
                  ≡ (if id == j then err not_found else lookup v.manifest j))
      go (m, ok a) e h = (
        record { packer = refl; heads = refl; vectors = refl; index = refl; metas = refl },
        subst (λ out. IsSound out.0.catalog) e (remove-IsSound w now id v.manifest sound),
        refl,
        λ j.
            subst (λ out. lookup out.0 j ≡ (if id == j then err not_found else lookup v.manifest j))
              e (lookup-remove f w now id v.manifest j sound (ap (λ out. out.1) e)),
      )
      go (m, err not_found) e h = (
        record { packer = refl; heads = refl; vectors = refl; index = refl; metas = refl },
        subst (λ out. IsSound out.0.catalog) e (remove-IsSound w now id v.manifest sound),
        refl,
        λ j.
            let (gone, same) = remove-absent w now id v.manifest (ap (λ out. out.1) e) in
            absent id j v.manifest m gone (sym (ap (λ out. out.0) e) ∙ same),
      )
      go (m, err (log_failed x)) e h = absurd (ground (arith, h))

  -- The same for a chunk, which also leaves the device.
  lookup-drop_chunk :
      (w : World) (now : ℕ) (id : RecordId) (v : Vault)
      → IsSound v.manifest.catalog
      → (drop_chunk f w now id v).1 ≡ ok tt
      → Untouched v (drop_chunk f w now id v).0
        × IsSound (drop_chunk f w now id v).0.manifest.catalog
        × ((j : RecordId)
            → (lookup (drop_chunk f w now id v).0.manifest j
                ≡ (if id == j then err not_found else lookup v.manifest j))
              × (Maps.lookup (drop_chunk f w now id v).0.bodies j
                  ≡ (if id == j then none else Maps.lookup v.bodies j)))
  unfolding drop_chunk
  lookup-drop_chunk w now id v sound done =
      let step : Vault → Outcome = λ u. (forget_body id u, ok tt) in
      let (first, same) = and_then-ok (remove_entry f w now id v) step done in
      let (untouched, kept, bodies, entries) = lookup-remove_entry w now id v sound first in
      subst
        (λ out.
          Untouched v out.0
          × IsSound out.0.manifest.catalog
          × ((j : RecordId)
              → (lookup out.0.manifest j ≡ (if id == j then err not_found else lookup v.manifest j))
                × (Maps.lookup out.0.bodies j
                    ≡ (if id == j then none else Maps.lookup v.bodies j))))
        (sym same)
        (
          record {
            packer = untouched.packer;
            heads = untouched.heads;
            vectors = untouched.vectors;
            index = untouched.index;
            metas = untouched.metas;
          },
          kept,
          λ j. (
            entries j,
            ap (λ b. Maps.lookup (delete b id) j) bodies ∙ lookup-delete v.bodies id j,
          ),
        )

  Untouched-join : (v u w : Vault) → Untouched v u → Untouched u w → Untouched v w
  Untouched-join v u w a b = record {
    packer = b.packer ∙ a.packer;
    heads = b.heads ∙ a.heads;
    vectors = b.vectors ∙ a.vectors;
    index = b.index ∙ a.index;
    metas = b.metas ∙ a.metas;
  }

  -- The same for all the chunks of a list.
  pub lookup-drop_chunks :
      (worlds : ℕ → World) (now : ℕ) (is : List RecordId) (v : Vault)
      → IsSound v.manifest.catalog
      → (drop_chunks f worlds now is v).1 ≡ ok tt
      → Untouched v (drop_chunks f worlds now is v).0
        × ((j : RecordId)
            → (lookup (drop_chunks f worlds now is v).0.manifest j
                ≡ (if contains is j then err not_found else lookup v.manifest j))
              × (Maps.lookup (drop_chunks f worlds now is v).0.bodies j
                  ≡ (if contains is j then none else Maps.lookup v.bodies j)))
  unfolding drop_chunks
  lookup-drop_chunks worlds now [] v sound done = (
    record { packer = refl; heads = refl; vectors = refl; index = refl; metas = refl },
    λ j. (refl, refl),
  )
  lookup-drop_chunks worlds now (i ∷ is) v sound done =
      let rest : Vault → Outcome = λ u. drop_chunks f (λ n. worlds (suc n)) now is u in
      let first = drop_chunk f (worlds 0) now i v in
      let (one, same) = and_then-ok first rest done in
      let (touched, kept, gone) = lookup-drop_chunk (worlds 0) now i v sound one in
      let (after, others) =
        lookup-drop_chunks (λ n. worlds (suc n)) now is first.0 kept
          (ap (λ out. out.1) (sym same) ∙ done) in
      subst
        (λ out.
          Untouched v out.0
          × ((j : RecordId)
              → (lookup out.0.manifest j
                  ≡ (if contains (i ∷ is) j then err not_found else lookup v.manifest j))
                × (Maps.lookup out.0.bodies j
                    ≡ (if contains (i ∷ is) j then none else Maps.lookup v.bodies j))))
        (sym same)
        (
          Untouched-join v first.0 (rest first.0).0 touched after,
          λ j. (
            (others j).0 ∙ ground (arith, (gone j).0),
            (others j).1 ∙ ground (arith, (gone j).1),
          ),
        )
