-- ===== src/Detect/Files/Succeeds.antt =====
-- A rebuild succeeds where redb and the file system do not fail: the names reach the builder of the FST
-- in its order.
use dirpc.Prelude.{
  Bool, true, false, Bytes, bytes_key, some, is_some, is_some-true, List, [], ◌∷◌, ◌≡◌, refl, All,
  Option-cases, inl, inr,
}
use dirpc.Prelude.Assoc.{Assoc, insert}
use dirpc.Prelude.Sort.{IsSorted, sort-IsSorted}
use dirpc.Detect.{DetectableEntry}
use dirpc.Detect.Db.{Rkyv, DetectableDb, exe_to_ids, join_lines, keys}
use dirpc.Detect.Db.Writing.{Steps, Disk, Atomic, write_fst_file, write_fst_file-Atomic}
use dirpc.Detect.Db.Writing.InOrder.{Works, write_fst_file-sorted}
use dirpc.Detect.Files.{
  Tables, Files, Txn, Mapping, removed, handle, tables_or_none, loaded_after, load_mmap_fst,
  names_of, write_apps, write_exes, transaction, committed, ingest_entries, rebuild_with_fst,
}
use dirpc.Detect.Files.Written.{target_after-Atomic}

-- redb without failures
abbrev pub no_failures : Txn
no_failures = record {
  begin_ok = true;
  apps_ok = true;
  exes_ok = true;
  insert_app_ok = λ id row. true;
  insert_exe_ok = λ name ids. true;
  commit_ok = true;
}

abbrev pub mapped : Mapping
mapped = record { open_ok = true; stat_ok = true; map_ok = true }

module _ (steps : Steps) (w : Works steps) where
  loaded_after-true :
      (d : Disk) (ks : List Bytes) (r : Bool × List Disk)
      → Atomic d.target ks r
      → r.0 ≡ true
      → loaded_after mapped d r ≡ some ks
  unfolding load_mmap_fst
  loaded_after-true d ks (false, states) a h = cc
  loaded_after-true d ks (true, states) a h = rw (target_after-Atomic d d.target ks states a) refl

  -- and the file that it leaves is mapped.
  pub loaded_after-sorted :
      (ks : List Bytes) (d : Disk)
      → IsSorted ks
      → loaded_after mapped d (write_fst_file steps ks d) ≡ some ks
  loaded_after-sorted ks d h =
      loaded_after-true d ks (write_fst_file steps ks d) (write_fst_file-Atomic steps ks d)
        (write_fst_file-sorted steps w ks d h)

module _ (rkyv : Rkyv) where
  -- every entry can be written by rkyv
  abbrev pub Serialisable : List DetectableEntry → Type 0
  Serialisable es = All (λ e. is_some (rkyv.to_bytes e) ≡ true) es

  write_apps-total :
      (es : List DetectableEntry) (apps : Assoc Bytes Bytes)
      → Serialisable es
      → is_some (write_apps rkyv no_failures es apps) ≡ true
  unfolding write_apps
  write_apps-total [] apps h = refl
  write_apps-total (e ∷ es) apps (h, hs) = elim (Option-cases (rkyv.to_bytes e)) [
    | inl n ↦ cc (rw n at h)
    | inr (b, y) ↦ rw y (write_apps-total es (insert e.id b apps) hs)
  ]

  write_exes-total :
      (ids : Assoc Bytes (List Bytes)) (exes : Assoc Bytes Bytes)
      → is_some (write_exes rkyv no_failures ids exes) ≡ true
  unfolding write_exes
  write_exes-total [] exes = refl
  write_exes-total ((name, l) ∷ ids) exes = write_exes-total ids (insert name (join_lines l) exes)

  transaction-total :
      (es : List DetectableEntry) (db : DetectableDb)
      → Serialisable es
      → (t : Tables) × (transaction rkyv no_failures es db ≡ some t)
  unfolding transaction
  transaction-total es db h =
      let (apps, e) = is_some-true _ (write_apps-total es db.apps h) in
      let (exes, f) = is_some-true _ (write_exes-total (exe_to_ids es []) db.exes) in
      (record { apps = apps; exes = some exes }, simp (e, f))

  -- A rebuild from entries that rkyv can write succeeds, whatever the files held, where redb and the
  -- file system do not fail and the builder of the FST takes keys that come in order.
  pub rebuild_with_fst-succeeds :
      (steps : Steps) (remove_ok : Bool) (es : List DetectableEntry) (f : Files)
      → Works steps
      → Serialisable es
      → is_some (rebuild_with_fst rkyv no_failures steps mapped remove_ok true es f).0 ≡ true
  unfolding rebuild_with_fst ingest_entries committed
  rebuild_with_fst-succeeds steps remove_ok es f w h =
      let f' = removed remove_ok f in
      let (t, e) = transaction-total es (handle (tables_or_none f'.redb)) h in
      rw
        (
          e,
          loaded_after-sorted steps w (names_of es) f'.index
              (sort-IsSorted (keys (exe_to_ids es []))),
        )
        refl
