-- ===== src/Detect/Files/Opening/Interrupted.antt =====
-- A rebuild that ends before its transaction commits leaves a new database without tables beside the
-- FST of the old one.
use dirpc.Prelude.{
  Bool, true, Bytes, bytes_key, Option, none, some, List, [], ◌∷◌, any, ◌≡◌, ◌∙◌, refl, ap,
  Bool-cases, inl, inr,
}
use dirpc.Prelude.Assoc.{get}
use dirpc.Detect.{DetectableEntry}
use dirpc.Detect.Db.{
  Rkyv, DetectableDb, empty_db, contains, candidates, walk_names, try_app, match_process,
}
use dirpc.Detect.Db.Open.{valid_file}
use dirpc.Detect.Db.Writing.{Steps}
use dirpc.Detect.Files.{
  Tables, Files, Txn, Mapping, no_tables, handle, tables_or_none, removed, transaction,
  load_mmap_fst, committed, ingest_entries, rebuild_with_fst,
}
use dirpc.Detect.Files.Opening.{
  mapped_or_ensured, ensure_fst_file, opened, on_table, on_file, open_with_fst,
}
use dirpc.Detect.Files.Opening.Reopens.{clean}
use dirpc.Detect.Files.Succeeds.{mapped}

-- Names in the index, and no tables.
abbrev pub stale_index : List Bytes → DetectableDb
stale_index names = record empty_db { fst = names }

walk_names-none :
    {R : Type 0} (attempt : Bytes → Option R) (known : Bytes → Bool) (names seen : List Bytes)
    → walk_names attempt known (λ name. get name []) names seen ≡ none
unfolding walk_names get
walk_names-none attempt known [] seen = refl
walk_names-none attempt known (n ∷ names) seen = elim (Bool-cases (known n)) [
  | inl y ↦ rw y (walk_names-none attempt known names seen)
  | inr y ↦ rw y (walk_names-none attempt known names seen)
]

pub match_process-stale_index :
    (rkyv : Rkyv) (names : List Bytes) (path : Bytes) (args : List Bytes)
    → match_process rkyv path args (stale_index names) ≡ none
unfolding match_process
match_process-stale_index rkyv names path args =
    elim (Bool-cases (any (contains (stale_index names)) (candidates path))) [
      | inl y ↦ rw y (
          walk_names-none (try_app rkyv path args (stale_index names))
            (contains (stale_index names)) (candidates path) [])
      | inr y ↦ rw y refl
    ]

module _ (rkyv : Rkyv) (txn : Txn) (steps : Steps) (m : Mapping) where
  -- The rebuild fails and leaves the new database.
  ingested :
      (es : List DetectableEntry) (o : Option Tables) (f : Files)
      → o ≡ none
      → transaction rkyv txn es empty_db ≡ none
      → ingest_entries rkyv txn steps m es (handle (tables_or_none o)) f ≡ (none, [])
  unfolding ingest_entries committed
  ingested es none f gone e = rw e refl
  ingested es (some t) f gone e = cc

  pub rebuild_with_fst-interrupted :
      (remove_ok : Bool) (es : List DetectableEntry) (f : Files)
      → (removed remove_ok f).redb ≡ none
      → transaction rkyv txn es empty_db ≡ none
      → rebuild_with_fst rkyv txn steps m remove_ok true es f
        ≡ (none, removed remove_ok f ∷ record (removed remove_ok f) { redb = some no_tables } ∷ [])
  unfolding rebuild_with_fst
  rebuild_with_fst-interrupted remove_ok es f gone e =
      let f' = removed remove_ok f in
      let created : Option Tables → Files = λ o. record f' { redb = some (tables_or_none o) } in
      ap (λ p. (p.0, f' ∷ created f'.redb ∷ p.1)) (ingested es f'.redb (created f'.redb) gone e)
      ∙ ap (λ o. (none, f' ∷ created o ∷ [])) gone

-- The next start takes the names of the old FST.
pub open_with_fst-no_tables :
    (repair : Steps) (f : Files) (names : List Bytes)
    → f.redb ≡ some no_tables
    → f.index.target ≡ valid_file names
    → (open_with_fst repair clean f).0 ≡ some (stale_index names)
unfolding open_with_fst on_table ensure_fst_file mapped_or_ensured load_mmap_fst
open_with_fst-no_tables repair f names e old =
    ap (λ o. (on_file repair clean o f).0) e
    ∙ ap
        (λ t.
          (opened repair clean (handle no_tables) [] f
            (mapped_or_ensured repair clean f.index (load_mmap_fst mapped t))).0)
        old
