-- ===== src/Scanner/Startup/Interrupted.antt =====
-- A scanner that starts after a rebuild which did not commit.
use dirpc.Prelude.{
  ℕ, String, Bool, true, Bytes, Option, none, some, List, ◌∷◌, nat_eq, ◌≡◌, ◌∙◌, refl, ap, All,
}
use dirpc.Json.{Numbers, Value}
use dirpc.Server.State.{ServerState}
use dirpc.Detect.{DetectableEntry}
use dirpc.Detect.Db.{Rkyv, DetectableDb, empty_db}
use dirpc.Detect.Db.Open.{valid_file}
use dirpc.Detect.Db.Writing.{Steps}
use dirpc.Detect.Files.{Files, Txn, Mapping, no_tables, removed, transaction, rebuild_with_fst}
use dirpc.Detect.Files.Opening.{open_with_fst}
use dirpc.Detect.Files.Rebuilds.{after}
use dirpc.Detect.Files.Opening.Reopens.{clean}
use dirpc.Detect.Files.Opening.Interrupted.{
  stale_index, match_process-stale_index, rebuild_with_fst-interrupted, open_with_fst-no_tables,
}
use dirpc.Detect.Payload.{Reader}
use dirpc.Scanner.Startup.{Net, State, initial_load, Round, start_process_scanner}
use dirpc.Scanner.Startup.Idle.{Unmodified, idle, scan_loop-idle}

module _ {M : Type 0} (reader : Reader M) (rkyv : Rkyv) (tag : String) (num : Numbers)
    (text : Bytes → String) (to_string : Value num.Number → Option String) (net : Net) (now : ℕ)
    (rs : List Round) (server : ServerState num.Number) where
  abbrev started : Option DetectableDb → Option (State num.Number)
  started opened =
      start_process_scanner reader rkyv num text to_string net opened (some tag) now rs server

  start-stale_index :
      (name : Bytes) (names : List Bytes)
      → All (λ r. Unmodified tag r.net) rs
      → (last : ℕ) × (started (some (stale_index (name ∷ names)))
          ≡ some (idle reader rkyv tag num text to_string (stale_index (name ∷ names)) server last))
  unfolding start_process_scanner initial_load
  start-stale_index name names h =
      let db = stale_index (name ∷ names) in
      let (last, e) =
        scan_loop-idle reader rkyv tag num text to_string db rs now server
          (match_process-stale_index rkyv (name ∷ names)) h in
      (last, ap some e)

  -- Where a rebuild removes the old database and creates the new one, but its transaction fails, and
  -- the old FST has names, the rebuild fails, and the next start takes those names for the database's:
  -- it builds nothing, and as long as the server answers 304 to the ETag that was saved with the new
  -- entries it detects nothing, through every refresh: the server's state stays as it was.
  pub start_process_scanner-interrupted :
      (txn : Txn) (steps repair : Steps) (m : Mapping) (remove_ok : Bool)
      (es : List DetectableEntry) (f : Files) (name : Bytes) (names : List Bytes)
      → (removed remove_ok f).redb ≡ none
      → (removed remove_ok f).index.target ≡ valid_file (name ∷ names)
      → transaction rkyv txn es empty_db ≡ none
      → All (λ r. Unmodified tag r.net) rs
      → ((rebuild_with_fst rkyv txn steps m remove_ok true es f).0 ≡ none)
        × (last : ℕ) × (started
              (open_with_fst repair clean
                (after f (rebuild_with_fst rkyv txn steps m remove_ok true es f).1)).0
            ≡ some
                (idle reader rkyv tag num text to_string (stale_index (name ∷ names)) server last))
  start_process_scanner-interrupted txn steps repair m remove_ok es f name names gone old failed h =
      let (last, e) = start-stale_index name names h in
      let left = rebuild_with_fst-interrupted rkyv txn steps m remove_ok es f gone failed in
      let f' : Files = record (removed remove_ok f) { redb = some no_tables } in
      (
        ap (λ p. p.0) left,
        last,
        ap (λ p. started (open_with_fst repair clean (after f p.1)).0) left
            ∙ ap started (open_with_fst-no_tables repair f' (name ∷ names) refl old)
            ∙ e,
      )
