-- ===== src/Detect/Files.antt =====
-- `DetectableDb` of src/process/detectable.rs on its two files, the redb database and the FST:
-- `rebuild_with_fst`, `ingest_entries` and `load_mmap_fst`, with the failures of redb and of the file
-- system; Opening has `open_with_fst`. The result is the database, or `none` for an error, and what the
-- files hold after each step that changed one, in order: a process that is killed leaves one of these
-- states.
pub mod Commit
pub mod Written
pub mod Rebuilds
pub mod Succeeds
pub mod Opening
pub mod Killed
use dirpc.Prelude.{
  ℕ, Bool, true, false, ◌&&◌, Bytes, bytes_key, Option, none, some, List, [], ◌∷◌, map, length,
  ◌==◌, nat_eq, if◌then◌else◌, ◌>>=◌,
}
use dirpc.Prelude.Assoc.{Assoc, insert}
use dirpc.Prelude.Sort.{sort}
use dirpc.Detect.{DetectableEntry}
use dirpc.Detect.Db.{Rkyv, DetectableDb, exe_to_ids, join_lines, fill_index, keys}
use dirpc.Detect.Db.Open
use dirpc.Detect.Db.Open.{FstFile, absent_file, corrupt_file, valid_file, read_rows, row_names}
use dirpc.Detect.Db.Writing.{Steps, Disk, write_fst_file}

-- The tables of a redb file. There is no table of executables before a transaction has made one;
-- a missing table of applications is one without rows.
pub record Tables : Type 0 where
  pub apps : Assoc Bytes Bytes
  pub exes : Option (Assoc Bytes Bytes)

-- The redb file, where there is one, and the file of the FST with the temporary one beside it.
pub record Files : Type 0 where
  pub redb : Option Tables
  pub index : Disk

-- What redb answers in a write transaction; an insertion may depend on the row.
pub record Txn : Type 0 where
  pub begin_ok : Bool
  pub apps_ok : Bool
  pub exes_ok : Bool
  pub insert_app_ok : Bytes → Bytes → Bool
  pub insert_exe_ok : Bytes → Bytes → Bool
  pub commit_ok : Bool

-- Whether a file can be opened, its length be read, and it be mapped.
pub record Mapping : Type 0 where
  pub open_ok : Bool
  pub stat_ok : Bool
  pub map_ok : Bool

abbrev pub no_tables : Tables
no_tables = record { apps = []; exes = none }

abbrev tables_or_none : Option Tables → Tables
tables_or_none none = no_tables
tables_or_none (some t) = t

abbrev pub rows_of : Option (Assoc Bytes Bytes) → Assoc Bytes Bytes
rows_of none = []
rows_of (some rows) = rows

-- `sorted_names`
abbrev pub names_of : List DetectableEntry → List Bytes
names_of entries = sort (keys (exe_to_ids entries []))

-- The files after an attempt to remove the old database.
abbrev pub removed : Bool → Files → Files
removed remove_ok f = if remove_ok then record f { redb = none } else f

-- A handle of a database before its index is loaded.
abbrev pub handle : Tables → DetectableDb
handle t = record { apps = t.apps; exes = rows_of t.exes; fst = []; exe_index = [] }

unfoldable pub load_mmap_fst : Mapping → FstFile → Option (List Bytes)
load_mmap_fst m file =
    if m.open_ok && (m.stat_ok && m.map_ok) then Open.load_mmap_fst file else none

-- The file of the FST after a write that went through these states.
unfoldable pub target_after : Disk → List Disk → FstFile
target_after d [] = d.target
target_after d (s ∷ states) = target_after s states

abbrev with_index : Files → Disk → Files
with_index f d = record f { index = d }

-- The write of the FST, and then its mapping.
abbrev loaded_after : Mapping → Disk → Bool × List Disk → Option (List Bytes)
loaded_after m d (false, states) = none
loaded_after m d (true, states) = load_mmap_fst m (target_after d states)

module _ (rkyv : Rkyv) (txn : Txn) where
  write_apps : List DetectableEntry → Assoc Bytes Bytes → Option (Assoc Bytes Bytes)
  write_apps [] apps = some apps
  write_apps (entry ∷ entries) apps = rkyv.to_bytes entry >>= λ bytes.
      (let rest = write_apps entries (insert entry.id bytes apps) in
        if txn.insert_app_ok entry.id bytes then rest else none)

  write_exes : Assoc Bytes (List Bytes) → Assoc Bytes Bytes → Option (Assoc Bytes Bytes)
  write_exes [] exes = some exes
  write_exes ((name, ids) ∷ more) exes =
      let rest = write_exes more (insert name (join_lines ids) exes) in
      if txn.insert_exe_ok name (join_lines ids) then rest else none

  -- The write transaction: the tables that it commits, or none of its rows.
  unfoldable pub transaction : List DetectableEntry → DetectableDb → Option Tables
  unfolding write_apps write_exes
  transaction entries db =
      if txn.begin_ok && (txn.apps_ok && txn.exes_ok)
      then (write_apps entries db.apps >>= λ apps.
          write_exes (exe_to_ids entries []) db.exes >>= λ exes.
          (if txn.commit_ok then some (record { apps = apps; exes = some exes }) else none))
      else none

module _ (rkyv : Rkyv) (txn : Txn) (steps : Steps) (m : Mapping) where
  -- behind the transaction
  committed :
      List DetectableEntry → DetectableDb → Option Tables → Files → Option DetectableDb × List Files
  committed entries db none f = (none, [])
  committed entries db (some t) f =
      let f' : Files = record f { redb = some t } in
      let written = write_fst_file steps (names_of entries) f.index in
      (
        loaded_after m f.index written >>= λ fst. some (record {
          apps = t.apps;
          exes = rows_of t.exes;
          fst = fst;
          exe_index = fill_index (exe_to_ids entries []) db.exe_index;
        }),
        f' ∷ map (with_index f') written.1,
      )

  unfoldable pub ingest_entries :
      List DetectableEntry → DetectableDb → Files → Option DetectableDb × List Files
  unfolding committed
  ingest_entries entries db f = committed entries db (transaction rkyv txn entries db) f

  -- The old database is removed, where that succeeds, and created or opened.
  unfoldable pub rebuild_with_fst :
      Bool → Bool → List DetectableEntry → Files → Option DetectableDb × List Files
  unfolding ingest_entries
  rebuild_with_fst remove_ok create_ok entries f =
      let f' = removed remove_ok f in
      let t = tables_or_none f'.redb in
      let created : Files = record f' { redb = some t } in
      let (db, states) = ingest_entries entries (handle t) created in
      if create_ok then (db, f' ∷ created ∷ states) else (none, f' ∷ [])
