-- ===== src/Scanner/Again.antt =====
-- A scan repeated on the same processes.
use dirpc.Prelude.{
  ℕ, String, false, Bytes, Option, none, some, is_some, List, [], ◌∷◌, ◌==◌, ==_refl, nat_eq, ◌≡◌,
  ◌∙◌, refl, sym, ap, All,
}
use dirpc.Prelude.Assoc.{Assoc, get}
use dirpc.Json.{Numbers, Value}
use dirpc.Server.State.{ServerState}
use dirpc.Detect.Db.{Rkyv, DetectableDb, match_process}
use dirpc.Scanner.{ProcessInfo, Times, scan_once}
use dirpc.Scanner.Tracked.{match_of, last_match, get-scan_once}
use dirpc.Scanner.Events.{IsTracked, IsSettled, scan_once_quiet}

-- No two processes have the same pid.
abbrev pub IsApart : List ProcessInfo → Type 0
IsApart [] = Unit
IsApart (p ∷ ps) = All (λ q. (q.pid == p.pid) ≡ false) ps × IsApart ps

match_of-other :
    (k pid : ℕ) (m : Option (Bytes × Bytes)) → (pid == k) ≡ false → match_of k pid m ≡ none
match_of-other k pid none e = refl
match_of-other k pid (some (id, name)) e = rw e refl

head-IsTracked :
    (active : Assoc ℕ Bytes) (pid : ℕ) (m : Option (Bytes × Bytes))
    → ((id : Bytes) → match_of pid pid m ≡ some id → get pid active ≡ some id)
    → IsTracked active pid m
head-IsTracked active pid none h = tt
head-IsTracked active pid (some (id, name)) h = h id (rw (==_refl pid) refl)

module _ (rkyv : Rkyv) (db : DetectableDb) where
  last_match-other :
      (k : ℕ) (ps : List ProcessInfo)
      → All (λ q. (q.pid == k) ≡ false) ps
      → last_match rkyv db k ps ≡ none
  unfolding last_match
  last_match-other k [] h = refl
  last_match-other k (p ∷ ps) (e, h) =
      rw (last_match-other k ps h, match_of-other k p.pid (match_process rkyv p.path p.args db) e)
        refl

  all-IsSettled :
      (active : Assoc ℕ Bytes) (ps : List ProcessInfo)
      → IsApart ps
      → ((k : ℕ) (id : Bytes) → last_match rkyv db k ps ≡ some id → get k active ≡ some id)
      → All (IsSettled rkyv db active) ps
  unfolding last_match
  all-IsSettled active [] apart h = tt
  all-IsSettled active (p ∷ ps) (apart, rest) h = (
    head-IsTracked active p.pid (match_process rkyv p.path p.args db)
        (λ id m. h p.pid id (rw (last_match-other p.pid ps apart, m) refl)),
    all-IsSettled active ps rest (λ k id m. h k id (rw m refl)),
  )

  module _ (num : Numbers) (text : Bytes → String) (to_string : Value num.Number → Option String)
      (times times' : ℕ → Times) where
    -- A second scan of the same processes, of different pids, at whatever time, broadcasts nothing
    -- and leaves the server as the first has left it.
    pub scan_once-scan_once :
        (ps : List ProcessInfo) (server : ServerState num.Number) (active : Assoc ℕ Bytes)
        → IsApart ps
        → (scan_once num text to_string times' rkyv db ps
            (scan_once num text to_string times rkyv db ps server active).0
            (scan_once num text to_string times rkyv db ps server active).1).0
          ≡ (scan_once num text to_string times rkyv db ps server active).0
    scan_once-scan_once ps server active apart =
        let (server', active') = scan_once num text to_string times rkyv db ps server active in
        let tracked : (k : ℕ) → get k active' ≡ last_match rkyv db k ps =
          λ k. get-scan_once rkyv db num text to_string times k ps server active in
        scan_once_quiet num text to_string times' rkyv db ps server' active'
          (all-IsSettled active' ps apart (λ k id m. tracked k ∙ m))
          (λ k t. ap is_some (sym (tracked k)) ∙ t)
