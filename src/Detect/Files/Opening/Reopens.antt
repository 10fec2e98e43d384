-- ===== src/Detect/Files/Opening/Reopens.antt =====
-- The files of a filled database are read back as it was, also where the FST is stale or missing.
use dirpc.Prelude.{
  true, Bytes, bytes_key, some, List, [], ◌∷◌, length, ◌==◌, nat_eq, ==_iff, ◌≡◌, ◌≢◌, ◌∙◌, refl,
  sym, ap, subst, All, Bool-cases, inl, inr,
}
use dirpc.Prelude.Assoc.{Assoc}
use dirpc.Prelude.Sort.{sort, sort-IsSorted, length-sort}
use dirpc.Detect.{DetectableEntry}
use dirpc.Detect.Db
use dirpc.Detect.Db.{Rkyv, DetectableDb, empty_db}
use dirpc.Detect.Db.Refines.{ingested}
use dirpc.Detect.Db.Open.{FstFile, absent_file, corrupt_file, valid_file, row_names, read_rows}
use dirpc.Detect.Db.Open.Rows.{IsLine}
use dirpc.Detect.Db.Open.RoundTrip.{row_names-built, read_rows-built}
use dirpc.Detect.Db.Writing.{Steps, Disk}
use dirpc.Detect.Db.Writing.InOrder.{Works}
use dirpc.Detect.Db.Writing.Recovery.{IsHonest}
use dirpc.Detect.Files.{Files, load_mmap_fst}
use dirpc.Detect.Files.Opening.{
  Reading, readable, rewritten, rebuilt, mapped_or_rebuilt, load_fst, on_table, open_with_fst,
}
use dirpc.Detect.Files.Commit.{in_order}
use dirpc.Detect.Files.Succeeds.{mapped, loaded_after-sorted}

-- Reading without failures.
abbrev pub clean : Reading
clean = record {
  open_ok = true;
  begin_ok = true;
  exes_ok = true;
  iter_ok = true;
  row_ok = λ name. true;
  exists_ok = true;
  length_ok = true;
  first = mapped;
  again = mapped;
}

pub readable-clean : (rows : Assoc Bytes Bytes) → readable clean rows ≡ rows
unfolding readable
readable-clean [] = refl
readable-clean ((name, ids) ∷ rows) = ap (λ t. (name, ids) ∷ t) (readable-clean rows)

-- The rows of a database that was filled from nothing give back its names and its index.
pub rows-filled :
    (rkyv : Rkyv) (es : List DetectableEntry) (d : DetectableDb)
    → All (λ e. IsLine e.id) es
    → Db.ingest_entries rkyv es empty_db ≡ some d
    → (row_names d.exes ≡ d.fst) × (read_rows d.exes [] ≡ d.exe_index)
rows-filled rkyv es d lines filled =
    let (apps, _, same) = ingested es rkyv d filled in
    (
      subst (λ b. row_names b.exes ≡ b.fst) same (row_names-built es apps),
      subst (λ b. read_rows b.exes [] ≡ b.exe_index) same (read_rows-built es apps lines),
    )

module _ (steps : Steps) (w : Works steps) where
  rebuilt-sorted :
      (names : List Bytes) (d : Disk)
      → names ≢ []
      → (rebuilt steps clean names d).0 ≡ some (sort names)
  unfolding rebuilt rewritten
  rebuilt-sorted [] d h = absurd (h refl)
  rebuilt-sorted (n ∷ ns) d h =
      loaded_after-sorted steps w (sort (n ∷ ns)) d (sort-IsSorted (n ∷ ns))

  chosen-honest :
      (file : FstFile) (names : List Bytes) (d : Disk)
      → names ≢ []
      → IsHonest (sort names) file
      → (mapped_or_rebuilt steps clean names d (load_mmap_fst mapped file)).0 ≡ some (sort names)
  unfolding mapped_or_rebuilt load_mmap_fst
  chosen-honest absent_file names d h honest = rebuilt-sorted names d h
  chosen-honest corrupt_file names d h honest = rebuilt-sorted names d h
  chosen-honest (valid_file fst) names d h honest = elim (Bool-cases (length fst == length names)) [
    | inl y ↦
        rw y (ap some (honest ((==_iff (length fst) (length names)).0 y ∙ sym (length-sort names))))
    | inr n ↦ rw n (rebuilt-sorted names d h)
  ]

  load_fst-honest :
      (names : List Bytes) (d : Disk)
      → names ≢ []
      → IsHonest (sort names) d.target
      → (load_fst steps clean names d).0 ≡ some (sort names)
  unfolding load_fst
  load_fst-honest names d h honest = chosen-honest d.target names d h honest

  -- Where the tables are those of a database that was filled from nothing, and the file of the FST
  -- does not pass for one of their names.
  pub open_with_fst-filled :
      (rkyv : Rkyv) (es : List DetectableEntry) (d : DetectableDb) (f : Files)
      → All (λ e. IsLine e.id) es
      → Db.ingest_entries rkyv es empty_db ≡ some d
      → d.fst ≢ []
      → f.redb ≡ some (record { apps = d.apps; exes = some d.exes })
      → IsHonest (sort d.fst) f.index.target
      → (open_with_fst steps clean f).0 ≡ some (in_order d)
  unfolding open_with_fst on_table
  open_with_fst-filled rkyv es d f lines filled some_names tables honest =
      let (names, index) = rows-filled rkyv es d lines filled in
      rw
        (
          tables,
          readable-clean d.exes,
          names,
          index,
          load_fst-honest d.fst f.index some_names honest,
        )
        refl
