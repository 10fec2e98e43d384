-- ===== src/Scanner/Startup/Idle.antt =====
-- A scanner whose database is missing while its ETag file is still there.
use dirpc.Prelude.{
  ℕ, ◌*◌, ◌-◌, String, Bool, true, Bytes, Option, none, some, List, [], ◌∷◌, ltb, ◌==◌, nat_eq, ◌≡◌,
  ◌∙◌, refl, ap, Bool-cases, inl, inr, All,
}
use dirpc.Json.{Numbers, Value}
use dirpc.Server.State.{ServerState}
use dirpc.Detect.{DetectableEntry}
use dirpc.Detect.Db.{Rkyv, DetectableDb, empty_db, ingest_entries, match_process, candidates}
use dirpc.Detect.Db.Refines.{attempt, declared_ids, match_process-ingest_entries}
use dirpc.Detect.Db.Walk.{first_of}
use dirpc.Detect.Payload.{Reader}
use dirpc.Detect.Fetch.{Response, load_detectable_entries-304}
use dirpc.Scanner.{
  ProcessInfo, Times, Scan, on_match, scan_all, scan_once, lost, retained, clear_lost,
}
use dirpc.Scanner.Startup.{
  is_empty, rebuild, Net, Store, State, initial_load, Round, refresh, scan_loop,
  start_process_scanner,
}

ingest-nothing : (rkyv : Rkyv) → ingest_entries rkyv [] empty_db ≡ some empty_db
unfolding ingest_entries dirpc.Detect.Db.write_apps dirpc.Detect.Db.exe_to_ids
    dirpc.Detect.Db.write_exes dirpc.Detect.Db.keys dirpc.Detect.Db.fill_index
ingest-nothing rkyv = refl

declared-nothing : (names : List Bytes) → declared_ids names [] ≡ []
unfolding declared_ids dirpc.Detect.Db.Ingest.ids_of
declared-nothing [] = refl
declared-nothing (n ∷ ns) = declared-nothing ns

-- Nothing matches in an empty database.
match_process-empty :
    (rkyv : Rkyv) (path : Bytes) (args : List Bytes) → match_process rkyv path args empty_db ≡ none
unfolding dirpc.Detect.Db.Walk.first_of
match_process-empty rkyv path args =
    match_process-ingest_entries [] path args rkyv empty_db (ingest-nothing rkyv)
    ∙ ap (first_of (attempt [] path args)) (declared-nothing (candidates path))

-- No process matches in the database.
abbrev pub IsBlind : Rkyv → DetectableDb → Type 0
IsBlind rkyv db = (path : Bytes) (args : List Bytes) → match_process rkyv path args db ≡ none

module _ (num : Numbers) (text : Bytes → String) (to_string : Value num.Number → Option String)
    (times : ℕ → Times) (rkyv : Rkyv) (db : DetectableDb) (blind : IsBlind rkyv db) where
  scan_all-blind :
      (ps : List ProcessInfo) (s : Scan num.Number)
      → scan_all num text to_string times rkyv db ps s ≡ s
  unfolding scan_all on_match
  scan_all-blind [] s = refl
  scan_all-blind (p ∷ ps) s = rw (blind p.path p.args) (scan_all-blind ps s)

  -- A scan with no match and no tracked game changes nothing.
  scan_once-blind :
      (ps : List ProcessInfo) (server : ServerState num.Number)
      → scan_once num text to_string times rkyv db ps server [] ≡ (server, [])
  unfolding scan_once lost retained clear_lost
  scan_once-blind ps server = rw (scan_all-blind ps) refl

-- There is no database, or it has no names.
abbrev pub needs_build : Option DetectableDb → Bool
needs_build none = true
needs_build (some db) = is_empty db

-- The answer to the tag is 304 Not Modified.
abbrev pub Unmodified : String → Net → Type 0
Unmodified tag net =
    (resp : Response) × (net.send (some tag) ≡ some resp) × ((resp.status == 304) ≡ true)

-- A database beside the ETag.
abbrev pub beside : String → DetectableDb → Store
beside tag db = record { db = db; etag = some tag }

module _ {M : Type 0} (reader : Reader M) (rkyv : Rkyv) (tag : String) where
  initial_load-304 :
      (net : Net) (opened : Option DetectableDb)
      → needs_build opened ≡ true
      → net.create_ok ≡ true
      → Unmodified tag net
      → initial_load reader rkyv net opened (some tag) ≡ some (beside tag empty_db)
  unfolding initial_load rebuild
  initial_load-304 net none need ok (resp, e, s) =
      rw
        (
          load_detectable_entries-304 reader net.send net.etag_failure (some tag) resp e s,
          ok,
          ingest-nothing rkyv,
        )
        refl
  initial_load-304 net (some db) need ok (resp, e, s) =
      rw
        (
          need,
          load_detectable_entries-304 reader net.send net.etag_failure (some tag) resp e s,
          ok,
          ingest-nothing rkyv,
        )
        refl

  refresh-304 :
      (db : DetectableDb) (r : Round) (last : ℕ)
      → Unmodified tag r.net
      → (refresh reader rkyv r (beside tag db, last)).0 ≡ beside tag db
  unfolding refresh
  refresh-304 db r last (resp, e, s) =
      rw (load_detectable_entries-304 reader r.net.send r.net.etag_failure (some tag) resp e s)
        (elim (Bool-cases (ltb (7 * 24 * 3600) (r.now - last))) [
          | inl y ↦ rw y refl
          | inr n ↦ rw n refl
        ])

  module _ (num : Numbers) (text : Bytes → String)
      (to_string : Value num.Number → Option String) where
    -- The scanner goes on with this database and this server, and tracks nothing.
    abbrev pub idle : DetectableDb → ServerState num.Number → ℕ → State num.Number
    idle db server last = record {
      store = beside tag db;
      last_refresh = last;
      server = server;
      active = [];
    }

    pub scan_loop-idle :
        (db : DetectableDb) (rs : List Round) (last : ℕ) (server : ServerState num.Number)
        → IsBlind rkyv db
        → All (λ r. Unmodified tag r.net) rs
        → (last' : ℕ) × (scan_loop reader rkyv num text to_string rs (idle db server last)
            ≡ idle db server last')
    unfolding scan_loop
    scan_loop-idle db [] last server blind h = (last, refl)
    scan_loop-idle db (r ∷ rs) last server blind (h, hs) =
        let (last', e) =
          scan_loop-idle db rs (refresh reader rkyv r (beside tag db, last)).1 server blind hs in
        (
          last',
          rw
              (
                refresh-304 db r last h,
                scan_once-blind num text to_string r.times rkyv db blind r.processes server,
              )
              e,
        )

    -- Where the database is missing or has no names, but the ETag of an earlier download is still
    -- there and the server answers 304 to it, the scanner starts with an empty database, keeps it
    -- through every refresh, and detects nothing: the server's state stays as it was.
    pub start_process_scanner-304 :
        (net : Net) (opened : Option DetectableDb) (now : ℕ) (rs : List Round)
        (server : ServerState num.Number)
        → needs_build opened ≡ true
        → net.create_ok ≡ true
        → Unmodified tag net
        → All (λ r. Unmodified tag r.net) rs
        → (last : ℕ) × (start_process_scanner reader rkyv num text to_string net opened
              (some tag)
              now
              rs
              server
            ≡ some (idle empty_db server last))
    unfolding start_process_scanner
    start_process_scanner-304 net opened now rs server need ok h hs =
        let (last, e) = scan_loop-idle empty_db rs now server (match_process-empty rkyv) hs in
        (last, rw (initial_load-304 net opened need ok h) (ap some e))
