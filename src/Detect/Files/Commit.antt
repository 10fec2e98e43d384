-- ===== src/Detect/Files/Commit.antt =====
-- A transaction that commits has written what a run without failures writes, and the sorted index finds
-- the same names.
use mathlib.Core.Path.{fun_ext}
use dirpc.Prelude.{
  Bool, ◌&&◌, Bytes, bytes_key, bytes_eq, Option, none, some, List, [], ◌∷◌, any, not,
  if◌then◌else◌, >>=-eq-some, guard-eq-some, ◌≡◌, ◌∙◌, sym, ap,
}
use dirpc.Prelude.Assoc.{Assoc, get, insert}
use dirpc.Prelude.Sort.{sort, any-sort}
use dirpc.Detect.{DetectableEntry}
use dirpc.Detect.Db
use dirpc.Detect.Db.{
  Rkyv, DetectableDb, exe_to_ids, join_lines, fill_index, keys, candidates, try_app, walk_names,
  match_process,
}
use dirpc.Detect.Files.{Tables, Txn, rows_of, write_apps, write_exes, transaction}

-- The index in order, as the FST holds it.
abbrev pub in_order : DetectableDb → DetectableDb
in_order d = record d { fst = sort d.fst }

pub match_process-in_order :
    (rkyv : Rkyv) (path : Bytes) (args : List Bytes) (d : DetectableDb)
    → match_process rkyv path args (in_order d) ≡ match_process rkyv path args d
unfolding match_process
match_process-in_order rkyv path args d =
    let find : (Bytes → Bool) → Option (Bytes × Bytes) = λ known.
      if not (any known (candidates path))
      then none
      else walk_names (try_app rkyv path args d) known (λ name. get name d.exe_index)
          (candidates path) [] in
    ap find (fun_ext (λ name. any-sort (λ key. bytes_eq key name) d.fst))

module _ (rkyv : Rkyv) (txn : Txn) where
  write_apps-some :
      (es : List DetectableEntry) (apps : Assoc Bytes Bytes) {apps' : Assoc Bytes Bytes}
      → write_apps rkyv txn es apps ≡ some apps'
      → Db.write_apps rkyv es apps ≡ some apps'
  unfolding write_apps Db.write_apps
  write_apps-some [] apps h = h
  write_apps-some (e ∷ es) apps h =
      let (b, y, rest) = >>=-eq-some (rkyv.to_bytes e) _ h in
      let (_, more) = guard-eq-some (txn.insert_app_ok e.id b) _ rest in
      rw y (write_apps-some es (insert e.id b apps) more)

  write_exes-some :
      (ids : Assoc Bytes (List Bytes)) (exes : Assoc Bytes Bytes) {exes' : Assoc Bytes Bytes}
      → write_exes rkyv txn ids exes ≡ some exes'
      → Db.write_exes ids exes ≡ exes'
  unfolding write_exes Db.write_exes
  write_exes-some [] exes h = cc
  write_exes-some ((name, l) ∷ ids) exes h =
      let (_, more) = guard-eq-some (txn.insert_exe_ok name (join_lines l)) _ h in
      write_exes-some ids (insert name (join_lines l) exes) more

  -- What a transaction commits are the tables of `Db.ingest_entries`.
  pub transaction-some :
      (es : List DetectableEntry) (db : DetectableDb) {t : Tables}
      → transaction rkyv txn es db ≡ some t
      → Db.ingest_entries rkyv es db
        ≡ some (record {
          apps = t.apps;
          exes = rows_of t.exes;
          fst = keys (exe_to_ids es []);
          exe_index = fill_index (exe_to_ids es []) db.exe_index;
        })
  unfolding transaction Db.ingest_entries
  transaction-some es db h =
      let (_, h1) = guard-eq-some (txn.begin_ok && (txn.apps_ok && txn.exes_ok)) _ h in
      let (apps, e1, h2) = >>=-eq-some (write_apps rkyv txn es db.apps) _ h1 in
      let (exes, e2, h3) = >>=-eq-some (write_exes rkyv txn (exe_to_ids es []) db.exes) _ h2 in
      let (_, h4) = guard-eq-some txn.commit_ok _ h3 in
      rw (write_apps-some es db.apps e1, write_exes-some (exe_to_ids es []) db.exes e2) (cc (h4))

  pub transaction-exes :
      (es : List DetectableEntry) (db : DetectableDb) {t : Tables}
      → transaction rkyv txn es db ≡ some t
      → t.exes ≡ some (rows_of t.exes)
  unfolding transaction
  transaction-exes es db h =
      let (_, h1) = guard-eq-some (txn.begin_ok && (txn.apps_ok && txn.exes_ok)) _ h in
      let (apps, e1, h2) = >>=-eq-some (write_apps rkyv txn es db.apps) _ h1 in
      let (exes, e2, h3) = >>=-eq-some (write_exes rkyv txn (exe_to_ids es []) db.exes) _ h2 in
      let (_, h4) = guard-eq-some txn.commit_ok _ h3 in
      let e : some exes ≡ _ = ap (λ o. elim o [ none ↦ none | some t ↦ t.exes ]) h4 in
      sym e ∙ ap (λ o. some (rows_of o)) e
