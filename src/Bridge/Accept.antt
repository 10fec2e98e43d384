-- ===== src/Bridge/Accept.antt =====
-- The front of the bridge, src/bridge.rs: the loop that accepts clients, and the upgrade of a client
-- (`do_handshake`), which looks neither at the size of the request nor at its origin.
use dirpc.Prelude.{
  ℕ, suc, Bool, true, false, Bytes, List, [], ◌∷◌, ◌++◌, append_assoc, append-nil, if◌then◌else◌,
  ◌≡◌, ◌∙◌, refl, sym, ap,
}
use dirpc.Listen.{Accept, accepted, accept_error}
use dirpc.Websocket.Handshake.{
  Upgrade, Parsed, malformed, incomplete, request, Read, read_error, chunk, is_empty,
}
use dirpc.Websocket.Handshake.Allowed.{joined}
use dirpc.Websocket.Handshake.Fragments.{AllFull}

-- The loop has ended with an error, or not, and has started so many
-- tasks.
unfoldable pub accept_clients : List Accept → ℕ → Bool × ℕ
accept_clients [] tasks = (false, tasks)
accept_clients (accepted ∷ rest) tasks = accept_clients rest (suc tasks)
accept_clients (accept_error ∷ rest) tasks = (true, tasks)

-- `start_bridge` behind its feeding task: without the port it ends at once.
unfoldable pub listen : Bool → List Accept → Bool × ℕ
listen bind_ok accepts =
    let served = accept_clients accepts 0 in if bind_ok then served else (true, 0)

pub data Upgraded : Type 0 where
  waiting : Bytes → Upgraded
  failed : Upgraded
  upgraded : (written : List Bytes) → Upgraded

module _ (up : Upgrade) where
  answered : Bytes → Upgraded
  answered key =
      let response = up.response_to key in
      let written = response ∷ [] in
      if up.write_ok [] response
      then (if up.flush_ok written then upgraded written else failed)
      else failed

  after_parse : Upgraded → Parsed → Upgraded
  after_parse rest malformed = failed
  after_parse rest incomplete = rest
  after_parse rest (request key) = answered key

  unfoldable pub do_handshake : List Read → Bytes → Upgraded
  unfolding answered after_parse
  do_handshake [] buf = waiting buf
  do_handshake (read_error ∷ rs) buf = failed
  do_handshake (chunk s ∷ rs) buf =
      let buf' = buf ++ s in
      let rest = do_handshake rs buf' in
      if is_empty s then failed else after_parse rest (up.parse_request buf')

  -- The request is incomplete after each of the reads.
  abbrev pub StaysIncomplete : List Read → Bytes → Type 0
  StaysIncomplete [] buf = Unit
  StaysIncomplete (read_error ∷ rs) buf = ⊥
  StaysIncomplete (chunk s ∷ rs) buf =
      (up.parse_request (buf ++ s) ≡ incomplete) × StaysIncomplete rs (buf ++ s)

  waits :
      (rs : List Read) (buf : Bytes)
      → AllFull rs
      → StaysIncomplete rs buf
      → do_handshake rs buf ≡ waiting (buf ++ joined rs)
  unfolding do_handshake after_parse
  waits [] buf full inc = ap waiting (sym (append-nil buf))
  waits (read_error ∷ rs) buf full inc = absurd full
  waits (chunk s ∷ rs) buf (full, more) (e, inc) =
      rw (full, e) (waits rs (buf ++ s) more inc ∙ ap waiting (append_assoc buf s (joined rs)))

  -- However much a client of the bridge sends, while its request is incomplete the bridge keeps all of
  -- it and waits for more.
  do_handshake_unbounded :
      (rs : List Read)
      → AllFull rs
      → StaysIncomplete rs []
      → do_handshake rs [] ≡ waiting (joined rs)
  do_handshake_unbounded rs full inc = waits rs [] full inc

-- An error of one `accept` ends the bridge: no client that comes after it is served.
accept_clients-error :
    (before after : List Accept) (tasks : ℕ)
    → accept_clients (before ++ accept_error ∷ after) tasks
      ≡ (true, (accept_clients (before ++ accept_error ∷ []) tasks).1)
unfolding accept_clients
accept_clients-error [] after tasks = refl
accept_clients-error (accepted ∷ before) after tasks = accept_clients-error before after (suc tasks)
accept_clients-error (accept_error ∷ before) after tasks = refl
