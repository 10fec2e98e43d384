-- ===== src/Tests/Detect.antt =====
-- Tests of the matching of processes, with a serialisation of entries that have one plain
-- executable.
use dirpc.Prelude.{
  bytes_eq, Bool, true, false, Bytes, bytes_key, codes, Option, none, some, is_some, List, [], ◌∷◌,
  ◌++◌, ◌≡◌, ◌≢◌, refl, length, take, drop, not, if◌then◌else◌, take-append, drop-append,
}
use dirpc.Prelude.Assoc.{get, insert}
use dirpc.Paths.{path_variants, path_filename}
use dirpc.Detect
use dirpc.Detect.{Executable, DetectableEntry, archived_match}
use dirpc.Detect.Db.{
  DetectableDb, Rkyv, empty_db, ingest_entries, candidates, contains, try_app, match_process,
}
use dirpc.Detect.Db.Walk.{first_of}
use dirpc.Detect.Db.Ingest.{last_with}
use dirpc.Detect.Db.Refines.{declared_ids, attempt, match_process-ingest_entries}
use dirpc.Detect.Db.Reads
use dirpc.Detect.Db.Reads.{Reads, match_process-readable}
use dirpc.Detect.Db.Agrees.{match_process_agrees}

abbrev pub packed : Bytes → Bytes → Bytes → Bytes
packed id name exe = length id ∷ length name ∷ (id ++ (name ++ exe))

abbrev pub plain : Bytes → Bytes → Bytes → Bool → Option (List Bytes) → Option Bytes → Option Bytes
plain id name exe false none none = some (packed id name exe)
plain id name exe _ _ _ = none

abbrev pub single : Bytes → Bytes → List Executable → Option Bytes
single id name [] = none
single id name (x ∷ []) = plain id name x.name x.is_launcher x.arguments x.os
single id name (x ∷ y ∷ xs) = none

abbrev pub plain_exe : Bytes → Executable
plain_exe name = record { name = name; is_launcher = false; arguments = none; os = none }

abbrev pub unpack : Bytes → Option DetectableEntry
unpack [] = none
unpack (a ∷ []) = none
unpack (a ∷ b ∷ s) = some (record {
  id = take a s;
  name = take b (drop a s);
  executables = plain_exe (drop b (drop a s)) ∷ [];
})

unpack-packed :
    (id name exe : Bytes)
    → unpack (packed id name exe)
      ≡ some (record { id = id; name = name; executables = plain_exe exe ∷ [] })
unpack-packed id name exe =
    rw
      (
        take-append id (name ++ exe),
        drop-append id (name ++ exe),
        take-append name exe,
        drop-append name exe,
      )
      refl

unpack-plain :
    (id name exe : Bytes) (l : Bool) (a : Option (List Bytes)) (o : Option Bytes) (b : Bytes)
    → plain id name exe l a o ≡ some b
    → unpack b
      ≡ some (record {
        id = id;
        name = name;
        executables = record { name = exe; is_launcher = l; arguments = a; os = o } ∷ [];
      })
unpack-plain id name exe false none none b h = cc (unpack-packed id name exe, h)
unpack-plain id name exe true a o b h = cc
unpack-plain id name exe false (some a) o b h = cc
unpack-plain id name exe false none (some o) b h = cc

pub unpack-single :
    (id name : Bytes) (xs : List Executable) (b : Bytes)
    → single id name xs ≡ some b
    → unpack b ≡ some (record { id = id; name = name; executables = xs })
unpack-single id name [] b h = cc
unpack-single id name (x ∷ []) b h = unpack-plain id name x.name x.is_launcher x.arguments x.os b h
unpack-single id name (x ∷ y ∷ xs) b h = cc

abbrev pub plain_rkyv : Rkyv
plain_rkyv = record {
  to_bytes = λ e. single e.id e.name e.executables;
  access = unpack;
  access-to_bytes = λ e b h. unpack-single e.id e.name e.executables b h;
}

abbrev pub game_path : Bytes
game_path = codes "/games/a/run.x64"

abbrev pub entries : List DetectableEntry
entries =
    record { id = codes "1"; name = codes "Other"; executables = plain_exe (codes "other") ∷ [] }
    ∷ record {
      id = codes "2";
      name = codes "Game";
      executables = plain_exe (codes ">run.x64") ∷ [];
    }
    ∷ []

abbrev pub or_db : Option DetectableDb → DetectableDb
or_db none = empty_db
or_db (some db) = db

abbrev pub sample_db : DetectableDb
sample_db = or_db (ingest_entries plain_rkyv entries empty_db)

filled : ingest_entries plain_rkyv entries empty_db ≡ some sample_db
unfolding ingest_entries dirpc.Detect.Db.write_apps
filled = refl

match_process-ingest_entries_example :
    match_process plain_rkyv game_path [] sample_db
    ≡ first_of (attempt entries game_path []) (declared_ids (candidates game_path) entries)
match_process-ingest_entries_example =
    match_process-ingest_entries entries game_path [] plain_rkyv sample_db filled

looked_up : match_process plain_rkyv game_path [] sample_db ≡ some (codes "2", codes "Game")
unfolding match_process ingest_entries dirpc.Detect.Db.write_apps dirpc.Detect.Db.exe_to_ids
    dirpc.Detect.Db.push_id dirpc.Detect.Db.keys dirpc.Detect.Db.fill_index get insert candidates
    path_variants path_filename dirpc.Detect.match_archived dirpc.Detect.Db.walk_ids
looked_up = refl

named : path_filename game_path ≢ []
unfolding path_filename
named e = cc e

match_process_agrees_example :
    is_some (match_process plain_rkyv game_path [] sample_db)
    ≡ is_some (Detect.match_process game_path [] entries)
unfolding last_with
match_process_agrees_example =
    match_process_agrees plain_rkyv entries sample_db game_path [] filled (refl, (refl, tt)) named

-- A database whose first app cannot be read.
abbrev one_lost : Reads
one_lost = record {
  begin_read = true;
  open_table = true;
  get_ok = λ id. not (bytes_eq id (codes "1"));
}

found_anyway :
    Reads.match_process plain_rkyv one_lost game_path [] sample_db ≡ some (codes "2", codes "Game")
unfolding Reads.match_process candidates path_variants ingest_entries dirpc.Detect.Db.write_apps
    dirpc.Detect.Db.keys dirpc.Detect.Db.exe_to_ids dirpc.Detect.Db.push_id insert path_filename get
    dirpc.Detect.Db.fill_index dirpc.Detect.Db.walk_ids Detect.match_archived
found_anyway = refl

match_process-readable_example :
    Reads.match_process plain_rkyv one_lost game_path [] sample_db
    ≡ first_of
        (λ id. if not (bytes_eq id (codes "1")) then attempt entries game_path [] id else none)
        (declared_ids (candidates game_path) entries)
match_process-readable_example =
    match_process-readable plain_rkyv one_lost game_path [] entries sample_db filled
