-- ===== src/Scanner/Events.antt =====
-- What a scan broadcasts.
use dirpc.Prelude.{
  ℕ, String, Bool, true, false, Bytes, Option, none, some, is_some, List, [], ◌∷◌, ◌++◌,
  append_assoc, append-nil, ◌||◌, ==_iff, ==_refl, nat_eq, ◌≡◌, ◌∙◌, refl, sym, ap, arith, All,
  All-append, Bool-cases, inl, inr,
}
use dirpc.Prelude.Int.{ℤ}
use dirpc.Prelude.Assoc.{Assoc, get, get-insert}
use dirpc.Json.{Numbers, Value}
use dirpc.Types.{RpcMessage, ActivityEvent}
use dirpc.Server.State.{ServerState}
use dirpc.Server.Handle.{handle_message}
use dirpc.Server.Handle.Effects.{IsEventOf, handle_message_events}
use dirpc.Detect.{or_rest}
use dirpc.Detect.Db.{Rkyv, DetectableDb, match_process}
use dirpc.Scanner.{
  ProcessInfo, Times, Scan, tracked_as, on_match, is_present, lost, clear_lost, scan_all, scan_once,
}
use dirpc.Scanner.Tracked.{last_match, scan_all_lem}

-- `t` has broadcast further events of socket 0 and is else as `s`.
abbrev pub Emits : {N : Type 0} → ServerState N → ServerState N → Type 0
Emits s t =
    (events : List (ActivityEvent _)) × (t ≡ record s { sent = s.sent ++ events })
    × All (λ e. e.socket_id ≡ 0) events

-- A process that matches is tracked as what it matches.
abbrev pub IsTracked : Assoc ℕ Bytes → ℕ → Option (Bytes × Bytes) → Type 0
IsTracked active pid none = Unit
IsTracked active pid (some (id, name)) = get pid active ≡ some id

abbrev pub IsSettled : Rkyv → DetectableDb → Assoc ℕ Bytes → ProcessInfo → Type 0
IsSettled rkyv db active p = IsTracked active p.pid (match_process rkyv p.path p.args db)

IsTracked-same :
    (a b : Assoc ℕ Bytes) (pid : ℕ) (m : Option (Bytes × Bytes))
    → get pid b ≡ get pid a
    → IsTracked a pid m
    → IsTracked b pid m
IsTracked-same a b pid none e h = tt
IsTracked-same a b pid (some (id, name)) e h = e ∙ h

Emits-refl : {N : Type 0} (s : ServerState N) → Emits s s
Emits-refl s = ([], rw (append-nil s.sent) refl, tt)

Emits-trans : {N : Type 0} (s t u : ServerState N) → Emits s t → Emits t u → Emits s u
Emits-trans s t u (a, p, h) (b, q, k) =
    (a ++ b, q ∙ rw (p, append_assoc s.sent a b) refl, All-append _ a b h k)

-- nothing is lost while everything tracked is present
lost-none :
    (present : List ℕ) (m : Assoc ℕ Bytes)
    → ((k : ℕ) → is_some (get k m) ≡ true → is_present present k ≡ true)
    → lost present m ≡ []
unfolding lost get
lost-none present [] h = refl
lost-none present ((pid, id) ∷ m) h =
    rw (h pid (rw (==_refl pid) refl), lost-none present m (λ k t. h k (ground arith))) refl

present_if :
    (l a g : Option Bytes) (b : Bool)
    → g ≡ or_rest l a
    → b ≡ (is_some l || false)
    → (is_some a ≡ true → is_some l ≡ true)
    → is_some g ≡ true
    → b ≡ true
present_if none a g b e f h t = cc (h (ap is_some (sym e) ∙ t))
present_if (some x) a g b e f h t = f

module _ (num : Numbers) (text : Bytes → String) (to_string : Value num.Number → Option String)
    (times : ℕ → Times) where
  message-Emits :
      (client_id : String) (now now' : ℤ) (msg : RpcMessage num.Number) (s : ServerState num.Number)
      → Emits s (handle_message num to_string 0 client_id now now' msg s).1
  message-Emits client_id now now' msg s =
      let (events, e, _, h) = handle_message_events num to_string 0 client_id now now' msg s in
      (events, e, sockets events h)
    where
      sockets :
          (events : List (ActivityEvent num.Number))
          → All (IsEventOf num to_string 0 msg) events
          → All (λ e. e.socket_id ≡ 0) events
      sockets [] h = tt
      sockets (e ∷ es) (h, hs) = (h.socket, sockets es hs)

  clear_lost-Emits :
      (gone : List (ℕ × Bytes)) (s : ServerState num.Number)
      → Emits s (clear_lost num text to_string times gone s)
  unfolding clear_lost
  clear_lost-Emits [] s = Emits-refl s
  clear_lost-Emits ((pid, id) ∷ gone) s =
      Emits-trans s _ _ (message-Emits (text id) _ _ _ s) (clear_lost-Emits gone _)

  on_match-Emits :
      (pid : ℕ) (m : Option (Bytes × Bytes)) (s : Scan num.Number)
      → Emits s.server (on_match num text to_string times pid m s).server
  unfolding on_match
  on_match-Emits pid none s = Emits-refl s.server
  on_match-Emits pid (some (id, name)) s =
      elim (Bool-cases (tracked_as num text to_string times id (get pid s.active))) [
        | inl e ↦ rw e (Emits-refl s.server)
        | inr e ↦ rw e (message-Emits (text id) _ _ _ s.server)
      ]

  module _ (rkyv : Rkyv) (db : DetectableDb) where
    scan_all-Emits :
        (ps : List ProcessInfo) (s : Scan num.Number)
        → Emits s.server (scan_all num text to_string times rkyv db ps s).server
    unfolding scan_all
    scan_all-Emits [] s = Emits-refl s.server
    scan_all-Emits (p ∷ ps) s =
        Emits-trans s.server _ _ (on_match-Emits p.pid _ s) (scan_all-Emits ps _)

    abbrev after : List ProcessInfo → ServerState num.Number → Assoc ℕ Bytes → Scan num.Number
    after ps server active =
        scan_all num text to_string times rkyv db ps
          (record { server = server; active = active; present = [] })

    -- A scan changes nothing of the server but its broadcasts, and all of these are of socket 0.
    pub scan_once-Emits :
        (ps : List ProcessInfo) (server : ServerState num.Number) (active : Assoc ℕ Bytes)
        → Emits server (scan_once num text to_string times rkyv db ps server active).0
    unfolding scan_once
    scan_once-Emits ps server active =
        Emits-trans server _ _
          (scan_all-Emits ps (record { server = server; active = active; present = [] }))
          (clear_lost-Emits (lost (after ps server active).present (after ps server active).active)
            _)

    on_match_quiet :
        (pid : ℕ) (m : Option (Bytes × Bytes)) (s : Scan num.Number)
        → IsTracked s.active pid m
        → ((on_match num text to_string times pid m s).server ≡ s.server)
          × ((k : ℕ) → get k (on_match num text to_string times pid m s).active ≡ get k s.active)
    unfolding on_match
    on_match_quiet pid none s h = (refl, λ k. refl)
    on_match_quiet pid (some (id, name)) s h =
        (rw (h, ==_refl id) refl, λ k. ground (arith, get-insert pid k id s.active, ==_iff pid k))

    scan_all_quiet :
        (ps : List ProcessInfo) (s : Scan num.Number) (active : Assoc ℕ Bytes)
        → ((k : ℕ) → get k s.active ≡ get k active)
        → All (IsSettled rkyv db active) ps
        → (scan_all num text to_string times rkyv db ps s).server ≡ s.server
    unfolding scan_all
    scan_all_quiet [] s active same h = refl
    scan_all_quiet (p ∷ ps) s active same (settled, h) =
        let (server, kept) =
          on_match_quiet p.pid (match_process rkyv p.path p.args db) s
            (IsTracked-same active s.active p.pid _ (same p.pid) settled) in
        scan_all_quiet ps _ active (λ k. kept k ∙ same k) h ∙ server

    -- A scan that finds each matching process tracked as what it matches, and nothing else tracked,
    -- broadcasts nothing.
    pub scan_once_quiet :
        (ps : List ProcessInfo) (server : ServerState num.Number) (active : Assoc ℕ Bytes)
        → All (IsSettled rkyv db active) ps
        → ((k : ℕ) → is_some (get k active) ≡ true → is_some (last_match rkyv db k ps) ≡ true)
        → (scan_once num text to_string times rkyv db ps server active).0 ≡ server
    unfolding scan_once
    scan_once_quiet ps server active settled only =
        let start : Scan num.Number = record { server = server; active = active; present = [] } in
        let gone : lost (after ps server active).present (after ps server active).active ≡ [] =
          lost-none (after ps server active).present (after ps server active).active (λ k t.
            let (got, here) = scan_all_lem rkyv db num text to_string times k ps start in
            present_if (last_match rkyv db k ps) (get k active) _ _ got here (only k) t) in
        rw (gone, clear_lost) (scan_all_quiet ps start active (λ k. refl) settled)
