-- ===== src/Scanner/Startup.antt =====
-- `start_process_scanner` of src/process/mod.rs: the database at the start, and the rounds of the loop
-- with the weekly refresh. A round is given by two readings of the clock, in seconds, and what the
-- world shows in it; the task that has returned is `none`.
pub mod Keeps
pub mod Idle
pub mod Interrupted
use dirpc.Prelude.{
  ℕ, ◌*◌, ◌-◌, String, Bool, true, false, Bytes, Option, none, some, ◌>>=◌, List, [], ◌∷◌, ltb,
  if◌then◌else◌,
}
use dirpc.Prelude.Assoc.{Assoc}
use dirpc.Json.{Numbers, Value}
use dirpc.Server.State.{ServerState}
use dirpc.Detect.{DetectableEntry}
use dirpc.Detect.Db.{Rkyv, DetectableDb, empty_db, ingest_entries}
use dirpc.Detect.Payload.{Entries, Reader}
use dirpc.Detect.Fetch.{Response, load_detectable_entries}
use dirpc.Scanner.{ProcessInfo, Times, scan_once}

abbrev pub is_empty_list {ℓ} : {A : Type ℓ} → List A → Bool
is_empty_list [] = true
is_empty_list (_ ∷ _) = false

-- `DetectableDb::is_empty`
abbrev pub is_empty : DetectableDb → Bool
is_empty db = is_empty_list db.fst

-- `DetectableDb::rebuild`: a fresh database with the entries. `create_ok` stands for all that can fail:
-- the removal of the old file, the new file and its transaction, the file of the FST; Detect/Files has
-- them one by one, with what they leave.
unfoldable pub rebuild : Rkyv → Bool → Entries → Option DetectableDb
rebuild rkyv create_ok es = if create_ok then ingest_entries rkyv es empty_db else none

-- What one load meets: the server's answer, whether the ETag file and the database can be written.
pub record Net : Type 0 where
  pub send : Option String → Option Response
  pub etag_failure : Option (Option String)
  pub create_ok : Bool

-- The database and the ETag file.
pub record Store : Type 0 where
  pub db : DetectableDb
  pub etag : Option String

pub record Round : Type 0 where
  pub now : ℕ
  pub later : ℕ
  pub net : Net
  pub processes : List ProcessInfo
  pub times : ℕ → Times

-- The store and the last refresh, the server, and the active games.
pub record State (N : Type 0) : Type 0 where
  pub store : Store
  pub last_refresh : ℕ
  pub server : ServerState N
  pub active : Assoc ℕ Bytes

module _ {M : Type 0} (reader : Reader M) (rkyv : Rkyv) where
  abbrev with_etag : Option String → Option DetectableDb → Option Store
  with_etag etag none = none
  with_etag etag (some db) = some (record { db = db; etag = etag })

  abbrev build : Net → Option String → Option Store
  build net etag =
      let (es, etag') = load_detectable_entries reader net.send net.etag_failure etag in
      with_etag etag' (rebuild rkyv net.create_ok es)

  -- The database of the file where it is opened and has names, or a new one.
  unfoldable pub initial_load : Net → Option DetectableDb → Option String → Option Store
  initial_load net none etag = build net etag
  initial_load net (some db) etag =
      let built = build net etag in
      if is_empty db then built else some (record { db = db; etag = etag })

  abbrev replaced : DetectableDb → Option DetectableDb → DetectableDb
  replaced db none = db
  replaced db (some new_db) = new_db

  abbrev kept : Net → DetectableDb → Entries → DetectableDb
  kept net db [] = db
  kept net db (e ∷ es) = replaced db (rebuild rkyv net.create_ok (e ∷ es))

  -- The refresh in a round, more than a week after the last one.
  unfoldable pub refresh : Round → Store × ℕ → Store × ℕ
  refresh r (s, last_refresh) =
      let (es, etag) = load_detectable_entries reader r.net.send r.net.etag_failure s.etag in
      if ltb (7 * 24 * 3600) (r.now - last_refresh)
      then (record { db = kept r.net s.db es; etag = etag }, r.later)
      else (s, last_refresh)

  module _ (num : Numbers) (text : Bytes → String)
      (to_string : Value num.Number → Option String) where
    unfoldable pub scan_loop : List Round → State num.Number → State num.Number
    scan_loop [] s = s
    scan_loop (r ∷ rs) s =
        let (store, last) = refresh r (s.store, s.last_refresh) in
        let (server, active) =
          scan_once num text to_string r.times rkyv store.db r.processes s.server s.active in
        scan_loop rs
          (record { store = store; last_refresh = last; server = server; active = active })

    abbrev scanning :
        ℕ → List Round → ServerState num.Number → Option Store → Option (State num.Number)
    scanning now rs server none = none
    scanning now rs server (some store) =
        some (
          scan_loop rs (record { store = store; last_refresh = now; server = server; active = [] }))

    -- `none` where the scanner returns at once.
    unfoldable pub start_process_scanner :
        Net
        → Option DetectableDb
        → Option String
        → ℕ
        → List Round
        → ServerState num.Number
        → Option (State num.Number)
    start_process_scanner net opened etag now rs server =
        scanning now rs server (initial_load net opened etag)
