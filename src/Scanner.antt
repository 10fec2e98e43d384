-- ===== src/Scanner.antt =====
-- `scan_once` of src/process/mod.rs: one scan of the running processes. The tracked games are a
-- finite map from pids to application ids, the present ones a list of pids.
pub mod Tracked
pub mod Events
pub mod Again
pub mod Startup
pub mod Listing
use dirpc.Prelude.{
  ℕ, String, Bool, true, false, Bytes, bytes_key, Option, none, some, List, [], ◌∷◌, ◌++◌, any,
  if◌then◌else◌, ◌==◌, nat_eq,
}
use dirpc.Prelude.Int.{ℤ}
use dirpc.Prelude.Assoc.{Assoc, get, insert}
use dirpc.Json.{Numbers, Value, null, string, number, object, end, field}
use dirpc.Types.{RpcMessage, empty_message}
use dirpc.Server.State.{ServerState}
use dirpc.Server.Handle.{handle_message}
use dirpc.Detect.Db.{Rkyv, DetectableDb, match_process}

pub record ProcessInfo : Type 0 where
  pub pid : ℕ
  pub path : Bytes
  pub args : List Bytes

-- What the clock shows while one process is handled: for the activity, and in the server.
pub record Times : Type 0 where
  pub shown : ℤ
  pub first : ℤ
  pub second : ℤ

pub record Scan (N : Type 0) : Type 0 where
  pub server : ServerState N
  pub active : Assoc ℕ Bytes
  pub present : List ℕ

abbrev pub is_present : List ℕ → ℕ → Bool
is_present present pid = any (λ p. p == pid) present

-- `retain`, and what it drops
retained : List ℕ → Assoc ℕ Bytes → Assoc ℕ Bytes
retained present [] = []
retained present ((pid, id) ∷ m) =
    let rest = retained present m in if is_present present pid then (pid, id) ∷ rest else rest

lost : List ℕ → Assoc ℕ Bytes → List (ℕ × Bytes)
lost present [] = []
lost present ((pid, id) ∷ m) =
    let rest = lost present m in if is_present present pid then rest else (pid, id) ∷ rest

-- `text` makes a string of the bytes of one.
module _ (num : Numbers) (text : Bytes → String) where
  abbrev found_message : Times → ℕ → Bytes → Bytes → RpcMessage num.Number
  found_message t pid id name = record empty_message {
    cmd = "SET_ACTIVITY";
    args = some (
        object (
          field "activity"
            (object (
              field "application_id" (string (text id)) (
                field "name" (string (text name)) (
                  field "timestamps" (object (field "start" (number (num.of_i64 t.shown)) end))
                    end))))
            (field "pid" (number (num.of_u64 pid)) end)));
  }

  abbrev lost_message : ℕ → RpcMessage num.Number
  lost_message pid = record empty_message {
    cmd = "SET_ACTIVITY";
    args = some (object (field "activity" null (field "pid" (number (num.of_u64 pid)) end)));
  }

  module _ (to_string : Value num.Number → Option String) (times : ℕ → Times) where
    abbrev tracked_as : Bytes → Option Bytes → Bool
    tracked_as id none = false
    tracked_as id (some prev) = prev == id

    -- a process that matches
    on_match : ℕ → Option (Bytes × Bytes) → Scan num.Number → Scan num.Number
    on_match pid none s = s
    on_match pid (some (id, name)) s =
        let t = times pid in
        let server =
          if tracked_as id (get pid s.active)
          then s.server
          else (handle_message num to_string 0 (text id) t.first t.second
              (found_message t pid id name) s.server).1 in
        record { server = server; active = insert pid id s.active; present = pid ∷ s.present }

    clear_lost : List (ℕ × Bytes) → ServerState num.Number → ServerState num.Number
    clear_lost [] s = s
    clear_lost ((pid, id) ∷ rest) s =
        let t = times pid in
        clear_lost rest
          (handle_message num to_string 0 (text id) t.first t.second (lost_message pid) s).1

    module _ (rkyv : Rkyv) (db : DetectableDb) where
      pub scan_all : List ProcessInfo → Scan num.Number → Scan num.Number
      scan_all [] s = s
      scan_all (proc ∷ rest) s =
          scan_all rest (on_match proc.pid (match_process rkyv proc.path proc.args db) s)

      abbrev settle : Scan num.Number → ServerState num.Number × Assoc ℕ Bytes
      settle s = (clear_lost (lost s.present s.active) s.server, retained s.present s.active)

      unfoldable pub scan_once :
          List ProcessInfo
          → ServerState num.Number
          → Assoc ℕ Bytes
          → ServerState num.Number × Assoc ℕ Bytes
      unfolding on_match scan_all retained lost clear_lost
      scan_once processes server active =
          settle (scan_all processes (record { server = server; active = active; present = [] }))
