-- ===== src/Detect/Db/Refines.antt =====
-- The lookup in an ingested database, in terms of the entries alone.
use mathlib.Core.Path.{subst}
use dirpc.Prelude.{
  Bool, Bytes, bytes_key, bytes_eq, Option, none, some, is_some, List, [], ◌∷◌, ◌++◌, any,
  if◌then◌else◌, ◌≡◌, ◌∙◌, refl, ap, Option-cases, inl, inr, ◌>>=◌,
}
use dirpc.Prelude.Assoc.{Assoc, get}
use dirpc.Paths.{path_variants, path_filename}
use dirpc.Detect.{DetectableEntry, archived_match, or_rest}
use dirpc.Detect.Db.{
  DetectableDb, empty_db, Rkyv, or_empty, exe_to_ids, fill_index, keys, write_exes, write_apps,
  ingest_entries, candidates, try_app, match_process,
}
use dirpc.Detect.Db.Walk.{first_of, first_of-ext, all_ids, match_process-first_of}
use dirpc.Detect.Db.Ingest.{
  ids_of, last_with, get-fill_index, any-keys, exe_to_ids_lem, IsMap-exe_to_ids, write_apps_lem,
}

-- The ids that the entries declare for some names.
unfoldable pub declared_ids : List Bytes → List DetectableEntry → List Bytes
declared_ids [] es = []
declared_ids (n ∷ ns) es = ids_of n es ++ declared_ids ns es

indexed :
    (o : Option (List Bytes)) → (if is_some o then or_empty (or_rest o none) else []) ≡ or_empty o
indexed none = refl
indexed (some ids) = refl

or_rest-none {ℓ} : {A : Type ℓ} (o : Option A) → or_rest o none ≡ o
or_rest-none none = refl
or_rest-none (some a) = refl

module _ (es : List DetectableEntry) where
  abbrev pub ids : Assoc Bytes (List Bytes)
  ids = exe_to_ids es []

  pub all_ids_lem :
      (ns : List Bytes)
      → all_ids (λ n. any (λ key. bytes_eq key n) (keys ids)) (λ n. get n (fill_index ids [])) ns
        ≡ declared_ids ns es
  unfolding all_ids declared_ids get
  all_ids_lem [] = refl
  all_ids_lem (n ∷ ns) =
      rw
        (
          any-keys n ids,
          get-fill_index n ids [] (IsMap-exe_to_ids es [] tt),
          indexed (get n ids),
          exe_to_ids_lem n es [],
          all_ids_lem ns,
        )
        refl

  abbrev pub built : Assoc Bytes Bytes → DetectableDb
  built apps = record {
    apps = apps;
    exes = write_exes ids [];
    fst = keys ids;
    exe_index = fill_index ids [];
  }

  pub ingested :
      (rkyv : Rkyv) (db : DetectableDb)
      → ingest_entries rkyv es empty_db ≡ some db
      → (apps : Assoc Bytes Bytes) × (write_apps rkyv es [] ≡ some apps) × (built apps ≡ db)
  unfolding ingest_entries
  ingested rkyv db h = elim (Option-cases (write_apps rkyv es [])) [
    | inl e ↦ cc (rw e at h)
    | inr (apps, e) ↦ (apps, e, cc (rw e at h))
  ]

  -- One id: the last entry that has it, tested.
  module _ (path : Bytes) (args : List Bytes) where
    abbrev pub accepts : DetectableEntry → Bool
    accepts = archived_match (path_variants path) (path_filename path) args

    abbrev pub accepted : DetectableEntry → Option (Bytes × Bytes)
    accepted e = if accepts e then some (e.id, e.name) else none

    abbrev pub attempt : Bytes → Option (Bytes × Bytes)
    attempt id = last_with id es >>= accepted

    pub tried :
        (rkyv : Rkyv) (apps : Assoc Bytes Bytes)
        → write_apps rkyv es [] ≡ some apps
        → (i : Bytes) → try_app rkyv path args (built apps) i ≡ attempt i
    unfolding get
    tried rkyv apps written i =
        ap (λ o. o >>= accepted)
          (write_apps_lem rkyv i es [] apps written ∙ or_rest-none (last_with i es))

    -- A lookup after the entries were ingested tries the ids that the entries declare for the
    -- candidate names, in order, each by the last entry that has it.
    pub match_process-ingest_entries :
        (rkyv : Rkyv) (db : DetectableDb)
        → ingest_entries rkyv es empty_db ≡ some db
        → match_process rkyv path args db ≡ first_of attempt (declared_ids (candidates path) es)
    match_process-ingest_entries rkyv db h =
        let (apps, written, same) = ingested rkyv db h in
        subst
          (λ d.
            match_process rkyv path args d ≡ first_of attempt (declared_ids (candidates path) es))
          same
          (match_process-first_of rkyv path args (built apps)
            ∙ ap (first_of (try_app rkyv path args (built apps))) (all_ids_lem (candidates path))
            ∙ first_of-ext (try_app rkyv path args (built apps)) attempt _
                (tried rkyv apps written))
