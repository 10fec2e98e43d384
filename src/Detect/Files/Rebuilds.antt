-- ===== src/Detect/Files/Rebuilds.antt =====
-- A rebuild that succeeds is one without failures.
use dirpc.Prelude.{
  Bool, true, false, Bytes, bytes_key, Option, none, some, List, [], ◌∷◌, map, ◌≡◌, ◌∙◌, refl, sym,
  ap, subst, >>=-eq-some,
}
use dirpc.Prelude.Sort.{sort}
use dirpc.Detect.{DetectableEntry}
use dirpc.Detect.Db
use dirpc.Detect.Db.{Rkyv, DetectableDb, exe_to_ids, fill_index, keys, empty_db, match_process}
use dirpc.Detect.Db.Open.{valid_file}
use dirpc.Detect.Db.Writing.{Steps, Disk, write_fst_file}
use dirpc.Detect.Files.{
  Tables, Files, Txn, Mapping, rows_of, handle, names_of, tables_or_none, loaded_after, removed,
  target_after, with_index, transaction, committed, ingest_entries, rebuild_with_fst,
}
use dirpc.Detect.Files.Commit.{in_order, match_process-in_order, transaction-some, transaction-exes}
use dirpc.Detect.Files.Written.{loaded_after-written}

-- The files in the last of these states.
abbrev pub after : Files → List Files → Files
after f [] = f
after f (s ∷ states) = after s states

after-map :
    (f : Files) (g : Disk) (states : List Disk)
    → (after (with_index f g) (map (with_index f) states)).redb ≡ f.redb
after-map f g [] = refl
after-map f g (s ∷ states) = after-map f s states

target-map :
    (f : Files) (g : Disk) (states : List Disk)
    → (after (with_index f g) (map (with_index f) states)).index.target ≡ target_after g states
unfolding target_after
target-map f g [] = refl
target-map f g (s ∷ states) = target-map f s states

-- The files hold the tables and the index of the database.
abbrev pub Holds : DetectableDb → Files → Type 0
Holds d f =
    (f.redb ≡ some (record { apps = d.apps; exes = some d.exes }))
    × (f.index.target ≡ valid_file d.fst)

module _ (rkyv : Rkyv) (txn : Txn) (steps : Steps) (m : Mapping) where
  committed-some :
      (es : List DetectableEntry) (db : DetectableDb) (t : Tables) (f : Files) {db' : DetectableDb}
      → transaction rkyv txn es db ≡ some t
      → (committed rkyv txn steps m es db (some t) f).0 ≡ some db'
      → (d : DetectableDb) × (Db.ingest_entries rkyv es db ≡ some d)
        × (in_order d ≡ db')
        × Holds db' (after f (committed rkyv txn steps m es db (some t) f).1)
  unfolding committed
  committed-some es db t f {db'} written h =
      let names = names_of es in
      let (fst, loaded, same) =
        >>=-eq-some (loaded_after m f.index (write_fst_file steps names f.index)) _ h in
      let (e, target) = loaded_after-written steps m f.index names loaded in
      let f' : Files = record f { redb = some t } in
      let whole = fresh fst same in
      (
        _,
        transaction-some rkyv txn es db written,
        ap (λ l. fresh_db l) (sym e) ∙ whole,
        subst (λ d. Holds d (after f' (map (with_index f') (write_fst_file steps names f.index).1)))
            whole
            (
              after-map f' f.index (write_fst_file steps names f.index).1 ∙ exes,
              target-map f' f.index (write_fst_file steps names f.index).1
                  ∙ target
                  ∙ ap valid_file (sym e),
            ),
      )
    where
      fresh_db : List Bytes → DetectableDb
      fresh_db l = record {
        apps = t.apps;
        exes = rows_of t.exes;
        fst = l;
        exe_index = fill_index (exe_to_ids es []) db.exe_index;
      }

      fresh : (l : List Bytes) → some (fresh_db l) ≡ some db' → fresh_db l ≡ db'
      fresh l e = cc

      exes : some t ≡ some (record { apps = t.apps; exes = some (rows_of t.exes) })
      exes = ap (λ o. some (record t { exes = o })) (transaction-exes rkyv txn es db written)

  ingest_entries-some :
      (es : List DetectableEntry) (db : DetectableDb) (f : Files) (db' : DetectableDb)
      → (ingest_entries rkyv txn steps m es db f).0 ≡ some db'
      → (d : DetectableDb) × (Db.ingest_entries rkyv es db ≡ some d)
        × (in_order d ≡ db')
        × Holds db' (after f (ingest_entries rkyv txn steps m es db f).1)
  unfolding ingest_entries
  ingest_entries-some es db f db' h = go (transaction rkyv txn es db) refl h
    where
      go :
          (o : Option Tables)
          → transaction rkyv txn es db ≡ o
          → (committed rkyv txn steps m es db o f).0 ≡ some db'
          → (d : DetectableDb) × (Db.ingest_entries rkyv es db ≡ some d)
            × (in_order d ≡ db')
            × Holds db' (after f (committed rkyv txn steps m es db o f).1)
      go none e h = absurd (unfold committed in cc h)
      go (some t) e h = committed-some es db t f e h

  -- The database is the one of a run without failures, its names in order.
  pub rebuild_with_fst-in_order :
      (remove_ok create_ok : Bool) (es : List DetectableEntry) (f : Files) (db : DetectableDb)
      → (removed remove_ok f).redb ≡ none
      → (rebuild_with_fst rkyv txn steps m remove_ok create_ok es f).0 ≡ some db
      → (d : DetectableDb) × (Db.ingest_entries rkyv es empty_db ≡ some d)
        × (in_order d ≡ db)
        × Holds db (after f (rebuild_with_fst rkyv txn steps m remove_ok create_ok es f).1)
  unfolding rebuild_with_fst
  rebuild_with_fst-in_order remove_ok true es f db gone h =
      let f' = removed remove_ok f in
      let t = tables_or_none f'.redb in
      let (d, filled, same, holds) =
        ingest_entries-some es (handle t) (record f' { redb = some t }) db h in
      (
        d,
        subst (λ o. Db.ingest_entries rkyv es (handle (tables_or_none o)) ≡ some d) gone filled,
        same,
        holds,
      )
  rebuild_with_fst-in_order remove_ok false es f db gone h = cc

  -- Where a rebuild succeeds, with the old database out of the way, the entries can be written, its
  -- lookups are those of the database that a run without failures fills from nothing, and the files
  -- hold its tables and, in order, its names.
  pub rebuild_with_fst-some :
      (remove_ok create_ok : Bool) (es : List DetectableEntry) (f : Files) (db : DetectableDb)
      → (removed remove_ok f).redb ≡ none
      → (rebuild_with_fst rkyv txn steps m remove_ok create_ok es f).0 ≡ some db
      → (d : DetectableDb) × (Db.ingest_entries rkyv es empty_db ≡ some d)
        × ((path : Bytes) (args : List Bytes)
            → match_process rkyv path args db ≡ match_process rkyv path args d)
        × (db.fst ≡ sort d.fst)
        × Holds db (after f (rebuild_with_fst rkyv txn steps m remove_ok create_ok es f).1)
  rebuild_with_fst-some remove_ok create_ok es f db gone h =
      let (d, filled, same, holds) = rebuild_with_fst-in_order remove_ok create_ok es f db gone h in
      (
        d,
        filled,
        λ path args.
            subst (λ b. match_process rkyv path args b ≡ match_process rkyv path args d) same
              (match_process-in_order rkyv path args d),
        sym (ap (λ (b : DetectableDb). b.fst) same),
        holds,
      )
