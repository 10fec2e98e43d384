-- ===== src/Detect/Files/Opening.antt =====
-- `open_with_fst`, `load_fst_from_db` and `ensure_fst_file` of src/process/detectable.rs on the files of
-- the database, with the failures of redb and of the file system. The FST is written where it is
-- missing, and where it does not have as many names as the table.
pub mod Reopens
pub mod RoundTrip
pub mod Interrupted
use dirpc.Prelude.{
  ℕ, Bool, true, false, Bytes, bytes_key, Option, none, some, List, [], ◌∷◌, map, length, ◌==◌,
  nat_eq, if◌then◌else◌, ◌>>=◌,
}
use dirpc.Prelude.Assoc.{Assoc, insert}
use dirpc.Prelude.Sort.{sort}
use dirpc.Detect.Db.{DetectableDb}
use dirpc.Detect.Db.Open.{FstFile, absent_file, corrupt_file, valid_file, read_rows, row_names}
use dirpc.Detect.Db.Writing.{Steps, Disk, write_fst_file}
use dirpc.Detect.Files.{Tables, Files, Mapping, handle, load_mmap_fst, with_index, loaded_after}

-- What reading meets: the database may not open, its rows may not be read, the file of the FST may seem
-- not to exist, its length may not be read, and it is mapped once or twice.
pub record Reading : Type 0 where
  pub open_ok : Bool
  pub begin_ok : Bool
  pub exes_ok : Bool
  pub iter_ok : Bool
  pub row_ok : Bytes → Bool
  pub exists_ok : Bool
  pub length_ok : Bool
  pub first : Mapping
  pub again : Mapping

-- `flatten()` leaves out the rows that cannot be read.
pub readable : Reading → Assoc Bytes Bytes → Assoc Bytes Bytes
readable r [] = []
readable r ((name, ids) ∷ rows) =
    let rest = readable r rows in if r.row_ok name then (name, ids) ∷ rest else rest

module _ (steps : Steps) (r : Reading) where
  -- A write with the mapping behind it.
  rewritten : List Bytes → Disk → Option (List Bytes) × List Disk
  rewritten names d =
      let written = write_fst_file steps names d in (loaded_after r.again d written, written.1)

  -- A file that is there and not empty is not overwritten.
  ensured : FstFile → Disk → Option (List Bytes) × List Disk
  ensured absent_file d = if r.length_ok then rewritten [] d else (none, [])
  ensured _ d = if r.exists_ok then (none, []) else rewritten [] d

  mapped_or_ensured : Disk → Option (List Bytes) → Option (List Bytes) × List Disk
  mapped_or_ensured d none = ensured d.target d
  mapped_or_ensured d (some fst) = (some fst, [])

  unfoldable pub ensure_fst_file : Disk → Option (List Bytes) × List Disk
  unfolding rewritten ensured mapped_or_ensured
  ensure_fst_file d = mapped_or_ensured d (load_mmap_fst r.first d.target)

  -- The FST is written from the names of the rows, where there are any.
  rebuilt : List Bytes → Disk → Option (List Bytes) × List Disk
  rebuilt [] d = (load_mmap_fst r.again d.target, [])
  rebuilt (name ∷ names) d = rewritten (sort (name ∷ names)) d

  mapped_or_rebuilt : List Bytes → Disk → Option (List Bytes) → Option (List Bytes) × List Disk
  mapped_or_rebuilt names d none = rebuilt names d
  mapped_or_rebuilt names d (some fst) =
      if length fst == length names then (some fst, []) else rebuilt names d

  unfoldable pub load_fst : List Bytes → Disk → Option (List Bytes) × List Disk
  unfolding rebuilt rewritten mapped_or_rebuilt
  load_fst names d = mapped_or_rebuilt names d (load_mmap_fst r.first d.target)

  abbrev opened :
      DetectableDb
      → Assoc Bytes (List Bytes)
      → Files
      → Option (List Bytes) × List Disk
      → Option DetectableDb × List Files
  opened db index f (fst, states) = (
    fst >>= λ names. some (record db { fst = names; exe_index = index }),
    map (with_index f) states,
  )

  on_table : DetectableDb → Option (Assoc Bytes Bytes) → Files → Option DetectableDb × List Files
  on_table db none f = opened db [] f (ensure_fst_file f.index)
  on_table db (some rows) f =
      if r.iter_ok
      then opened db (read_rows (readable r rows) []) f
          (load_fst (row_names (readable r rows)) f.index)
      else (none, [])

  unfoldable pub load_fst_from_db : Tables → Files → Option DetectableDb × List Files
  unfolding on_table readable
  load_fst_from_db t f =
      if r.begin_ok then on_table (handle t) (if r.exes_ok then t.exes else none) f else (none, [])

  on_file : Option Tables → Files → Option DetectableDb × List Files
  on_file none f = (none, [])
  on_file (some t) f = if r.open_ok then load_fst_from_db t f else (none, [])

  unfoldable pub open_with_fst : Files → Option DetectableDb × List Files
  unfolding on_file load_fst_from_db
  open_with_fst f = on_file f.redb f
