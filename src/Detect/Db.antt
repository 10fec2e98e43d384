-- ===== src/Detect/Db.antt =====
-- `DetectableDb` of src/process/detectable.rs: `ingest_entries` and `match_process`. The redb
-- tables are finite maps, the FST is the set of its keys, held as a list, and the transactions on
-- them succeed; in Detect/Db/Reads and Detect/Files they may fail. rkyv is a parameter.
pub mod Walk
pub mod Ingest
pub mod Refines
pub mod Search
pub mod Agrees
pub mod Reads
pub mod Open
pub mod Writing
use dirpc.Prelude.{
  ℕ, Bool, true, false, Bytes, bytes_key, Option, none, some, List, [], ◌∷◌, ◌++◌, any, not,
  bytes_eq, if◌then◌else◌, ◌==◌, ◌≡◌, ◌>>=◌, map,
}
use dirpc.Prelude.Assoc.{Assoc, get, insert}
use dirpc.Paths.{path_variants, path_filename, is_empty}
use dirpc.Detect.{Executable, DetectableEntry, archived_match}

-- `rkyv::to_bytes` and `rkyv::access`: what was written is read back.
pub record Rkyv : Type 0 where
  pub to_bytes : DetectableEntry → Option Bytes
  pub access : Bytes → Option DetectableEntry
  pub access-to_bytes : (e : DetectableEntry) (b : Bytes) → to_bytes e ≡ some b → access b ≡ some e

-- `exes` is the EXES table, which `open` reads back.
pub record DetectableDb : Type 0 where
  pub apps : Assoc Bytes Bytes
  pub exes : Assoc Bytes Bytes
  pub fst : List Bytes
  pub exe_index : Assoc Bytes (List Bytes)

-- a fresh database
abbrev pub empty_db : DetectableDb
empty_db = record { apps = []; exes = []; fst = []; exe_index = [] }

abbrev pub or_empty : Option (List Bytes) → List Bytes
or_empty none = []
or_empty (some ids) = ids

-- `entry(name).or_default().push(id)`
unfoldable pub push_id : Bytes → Bytes → Assoc Bytes (List Bytes) → Assoc Bytes (List Bytes)
push_id name id index = insert name (or_empty (get name index) ++ id ∷ []) index

unfoldable pub push_executables :
    Bytes → List Executable → Assoc Bytes (List Bytes) → Assoc Bytes (List Bytes)
push_executables id [] index = index
push_executables id (exe ∷ exes) index = push_executables id exes (push_id exe.name id index)

-- `exe_to_ids`
unfoldable pub exe_to_ids :
    List DetectableEntry → Assoc Bytes (List Bytes) → Assoc Bytes (List Bytes)
unfolding push_executables
exe_to_ids [] index = index
exe_to_ids (entry ∷ entries) index =
    exe_to_ids entries (push_executables entry.id entry.executables index)

-- `join("\n")`
unfoldable pub join_lines : List Bytes → Bytes
join_lines [] = []
join_lines (id ∷ []) = id
join_lines (id ∷ next ∷ ids) = id ++ b'\n' ∷ join_lines (next ∷ ids)

unfoldable pub write_exes : Assoc Bytes (List Bytes) → Assoc Bytes Bytes → Assoc Bytes Bytes
write_exes [] exes = exes
write_exes ((name, ids) ∷ rest) exes = write_exes rest (insert name (join_lines ids) exes)

-- `pin.insert(exe_name, ids)` for all of them
unfoldable pub fill_index :
    Assoc Bytes (List Bytes) → Assoc Bytes (List Bytes) → Assoc Bytes (List Bytes)
fill_index [] index = index
fill_index ((name, ids) ∷ rest) index = fill_index rest (insert name ids index)

unfoldable pub keys : Assoc Bytes (List Bytes) → List Bytes
keys [] = []
keys ((name, ids) ∷ rest) = name ∷ keys rest

module _ (rkyv : Rkyv) where
  -- An entry that cannot be serialised fails the whole.
  unfoldable pub write_apps : List DetectableEntry → Assoc Bytes Bytes → Option (Assoc Bytes Bytes)
  write_apps [] apps = some apps
  write_apps (entry ∷ entries) apps =
      rkyv.to_bytes entry >>= λ bytes. write_apps entries (insert entry.id bytes apps)

  unfoldable pub ingest_entries : List DetectableEntry → DetectableDb → Option DetectableDb
  unfolding write_exes join_lines
  ingest_entries entries db = write_apps entries db.apps >>= λ apps.
      (let ids = exe_to_ids entries [] in
        some (record {
          apps = apps;
          exes = write_exes ids db.exes;
          fst = keys ids;
          exe_index = fill_index ids db.exe_index;
        }))

-- The loops over the candidate ids, generic in the test of one of them: `seen` holds those tried.
module _ {R : Type 0} (attempt : Bytes → Option R) where
  -- what the loop goes on with after an id
  abbrev pub found_or : Option R × List Bytes → Option R → List Bytes → Option R × List Bytes
  found_or rest none seen = rest
  found_or rest (some r) seen = (some r, seen)

  unfoldable pub walk_ids : List Bytes → List Bytes → Option R × List Bytes
  walk_ids [] seen = (none, seen)
  walk_ids (app_id ∷ ids) seen =
      let skip = walk_ids ids seen in
      let rest = walk_ids ids (seen ++ app_id ∷ []) in
      if any (λ s. bytes_eq s app_id) seen
      then skip
      else found_or rest (attempt app_id) (seen ++ app_id ∷ [])

  abbrev pub found_first : (List Bytes → Option R) → Option R × List Bytes → Option R
  found_first go (none, seen) = go seen
  found_first go (some r, seen) = some r

  abbrev pub on_ids : (List Bytes → Option R) → Option (List Bytes) → List Bytes → Option R
  on_ids go none seen = go seen
  on_ids go (some ids) seen = found_first go (walk_ids ids seen)

  unfoldable pub walk_names :
      (Bytes → Bool) → (Bytes → Option (List Bytes)) → List Bytes → List Bytes → Option R
  walk_names contains index [] seen = none
  walk_names contains index (exe_name ∷ names) seen =
      let rest = walk_names contains index names in
      if not (contains exe_name) then rest seen else on_ids rest (index exe_name) seen

-- The names that are looked up: the variants, and '>' with the file name.
unfoldable pub candidates : Bytes → List Bytes
candidates path =
    let filename = path_filename path in
    path_variants path ++ (if is_empty filename then [] else (b'>' ∷ filename) ∷ [])

abbrev pub contains : DetectableDb → Bytes → Bool
contains db name = any (λ key. bytes_eq key name) db.fst

module _ (rkyv : Rkyv) (path : Bytes) (args : List Bytes) where
  -- One candidate: its row of the apps table, read and tested.
  abbrev pub try_app : DetectableDb → Bytes → Option (Bytes × Bytes)
  try_app db app_id = get app_id db.apps >>= rkyv.access >>= λ archived.
      if archived_match (path_variants path) (path_filename path) args archived
      then some (archived.id, archived.name)
      else none

  unfoldable pub match_process : DetectableDb → Option (Bytes × Bytes)
  unfolding walk_names
  match_process db =
      if not (any (contains db) (candidates path))
      then none
      else walk_names (try_app db) (contains db) (λ name. get name db.exe_index) (candidates path)
          []
