-- ===== src/Detect/Db/Open.antt =====
-- `open_with_fst` and `load_fst_from_db` of src/process/detectable.rs: a database is read back from
-- its tables and the file of its FST. Files are read and written without failure.
pub mod Rows
pub mod RoundTrip
use dirpc.Prelude.{
  ℕ, Bytes, bytes_key, Option, none, some, List, [], ◌∷◌, length, if◌then◌else◌, ◌==◌, nat_eq,
  ◌>>=◌,
}
use dirpc.Prelude.Assoc.{Assoc, insert}
use dirpc.Detect.Db.{DetectableDb}

-- The file of the FST: absent or empty, not parseable, or with these keys.
pub data FstFile : Type 0 where
  absent_file corrupt_file : FstFile
  valid_file : List Bytes → FstFile

abbrev pub load_mmap_fst : FstFile → Option (List Bytes)
load_mmap_fst absent_file = none
load_mmap_fst corrupt_file = none
load_mmap_fst (valid_file names) = some names

-- An absent file is written anew, with no keys.
ensure_fst_file : FstFile → Option (List Bytes)
ensure_fst_file absent_file = some []
ensure_fst_file corrupt_file = none
ensure_fst_file (valid_file names) = some names

-- `split('\n')`
abbrev cons_line : ℕ → List Bytes → List Bytes
cons_line c [] = (c ∷ []) ∷ []
cons_line c (l ∷ ls) = (c ∷ l) ∷ ls

unfoldable pub split_lines : Bytes → List Bytes
split_lines [] = [] ∷ []
split_lines (c ∷ s) = if c == b'\n' then [] ∷ split_lines s else cons_line c (split_lines s)

unfoldable pub read_rows : Assoc Bytes Bytes → Assoc Bytes (List Bytes) → Assoc Bytes (List Bytes)
read_rows [] index = index
read_rows ((name, joined) ∷ rows) index = read_rows rows (insert name (split_lines joined) index)

unfoldable pub row_names : Assoc Bytes Bytes → List Bytes
row_names [] = []
row_names ((name, joined) ∷ rows) = name ∷ row_names rows

-- The file is written anew if there are names; then it is loaded.
rebuilt : FstFile → List Bytes → Option (List Bytes)
rebuilt file [] = load_mmap_fst file
rebuilt file (name ∷ names) = some (name ∷ names)

unfoldable pub load_fst : FstFile → List Bytes → Option (List Bytes)
unfolding rebuilt
load_fst absent_file names = rebuilt absent_file names
load_fst corrupt_file names = rebuilt corrupt_file names
load_fst (valid_file fst) names =
    if length fst == length names then some fst else rebuilt (valid_file fst) names

-- `none` for the EXES table where there is no such table
unfoldable pub open_with_fst :
    FstFile → Assoc Bytes Bytes → Option (Assoc Bytes Bytes) → Option DetectableDb
unfolding ensure_fst_file
open_with_fst file apps none = ensure_fst_file file >>= λ fst.
    some (record { apps = apps; exes = []; fst = fst; exe_index = [] })
open_with_fst file apps (some exes) = load_fst file (row_names exes) >>= λ fst.
    some (record { apps = apps; exes = exes; fst = fst; exe_index = read_rows exes [] })
