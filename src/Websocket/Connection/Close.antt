-- ===== src/Websocket/Connection/Close.antt =====
-- A WebSocket client that has gone leaves the socket table as it found it.
use dirpc.Prelude.{
  ℕ, String, Bool, true, false, Option, none, some, List, [], ◌∷◌, ◌≡◌, ◌∙◌, refl, sym, arith,
  if◌then◌else◌, ◌==◌, nat_eq, ==_refl, Bool-cases, inl, inr,
}
use dirpc.Prelude.Assoc.{get, get-insert, get-remove}
use dirpc.Json.{Numbers}
use dirpc.Server.State.{
  Channel, new_channel, ready_payload, next_id, register_socket, unregister_socket,
}
use dirpc.Server.Handle.Keeps.{others-IsClosed}
use dirpc.Websocket.Connection.Rounds.{conn_of, round-closed}
use dirpc.Websocket.Handshake.{
  Upgrade, Read, Outcome, waiting, failed, panicked, accepted, do_handshake,
}
use dirpc.Websocket.Connection.{
  Client, Conn, Round, Flow, continue, break, round, after_round, main_loop, serve, after_handshake,
  handle_connection,
}

abbrev table : {N : Type 0} → ℕ → Conn N → Option Channel
table j c = get j c.server.sockets

module _ (num : Numbers) (client : Client num.Number) (socket_id : ℕ) (client_id : String) (j : ℕ)
    (differs : (socket_id == j) ≡ false) where
  -- A round touches no other socket.
  pub round_others :
      (r : Round) (c : Conn num.Number)
      → table j (conn_of (round num client socket_id client_id r c)) ≡ table j c
  round_others r c =
      round-closed num client socket_id client_id (λ s. get j s.sockets ≡ table j c)
        (others-IsClosed socket_id j differs (table j c)) r c refl

  after_round_others :
      (f : Flow num.Number) (c : Conn num.Number) (loop : Conn num.Number → Bool × Conn num.Number)
      → table j (conn_of f) ≡ table j c
      → ((d : Conn num.Number) → table j (loop d).1 ≡ table j d)
      → table j (after_round num client socket_id client_id loop f).1 ≡ table j c
  after_round_others (continue d) c loop e rec = rec d ∙ e
  after_round_others (break d) c loop e rec =
      unfold unregister_socket in get-remove socket_id j d.server.sockets ∙ rw differs e

  pub main_loop_others :
      (rs : List Round) (c : Conn num.Number)
      → table j (main_loop num client socket_id client_id rs c).1 ≡ table j c
  unfolding main_loop
  main_loop_others [] c = refl
  main_loop_others (r ∷ rs) c =
      after_round_others (round num client socket_id client_id r c) c
        (main_loop num client socket_id client_id rs) (round_others r c) (main_loop_others rs)

module _ (num : Numbers) (client : Client num.Number) (socket_id : ℕ) (client_id : String) where
  -- The loop has not ended, or its socket is gone.
  abbrev Unregistered : Bool × Conn num.Number → Type 0
  Unregistered (ended, d) = ended ≡ true → table socket_id d ≡ none

  after_round-Unregistered :
      (f : Flow num.Number) (loop : Conn num.Number → Bool × Conn num.Number)
      → ((d : Conn num.Number) → Unregistered (loop d))
      → Unregistered (after_round num client socket_id client_id loop f)
  after_round-Unregistered (continue d) loop rec = rec d
  after_round-Unregistered (break d) loop rec = λ _.
      unfold unregister_socket in
      rw (get-remove socket_id socket_id d.server.sockets, ==_refl socket_id)

  main_loop-Unregistered :
      (rs : List Round) (c : Conn num.Number)
      → Unregistered (main_loop num client socket_id client_id rs c)
  unfolding main_loop
  main_loop-Unregistered [] c = λ e. cc
  main_loop-Unregistered (r ∷ rs) c =
      after_round-Unregistered (round num client socket_id client_id r c)
        (main_loop num client socket_id client_id rs) (main_loop-Unregistered rs)

module _ (num : Numbers) (client : Client num.Number) (up : Upgrade) where
  abbrev Restores : Conn num.Number → Bool × Conn num.Number → Type 0
  Restores c (ended, d) = ended ≡ true → (j : ℕ) → table j d ≡ table j c

  -- the loop, from the state in which the socket has been registered
  registered-Restores :
      (id : ℕ) (client_id : String) (rs : List Round) (c d : Conn num.Number)
      → get id c.server.sockets ≡ none
      → ((j : ℕ) → table j d ≡ (if id == j then some new_channel else table j c))
      → Restores c (main_loop num client id client_id rs d)
  registered-Restores id client_id rs c d fresh reg ended j = elim (Bool-cases (id == j)) [
    | inl same ↦
        let q : id ≡ j = ground arith in
        rw (← q) (main_loop-Unregistered num client id client_id rs d ended ∙ sym fresh)
    | inr differs ↦ main_loop_others num client id client_id j differs rs d ∙ reg j ∙ rw differs
  ]

  serve-Restores :
      (rs : List Round) (client_id : String) (c : Conn num.Number)
      → get (next_id c.server).0 c.server.sockets ≡ none
      → Restores c (serve num client up rs client_id c)
  unfolding serve next_id register_socket
  serve-Restores rs client_id c fresh = elim (Bool-cases (client.send_ok c.sent ready_payload)) [
    | inl e ↦ rw e (
        registered-Restores c.server.next_socket_id client_id rs c _ fresh
          (λ j. get-insert c.server.next_socket_id j new_channel c.server.sockets))
    | inr e ↦ rw e (λ ended j. refl)
  ]

  after_handshake-Restores :
      (rs : List Round) (o : Outcome) (c : Conn num.Number)
      → get (next_id c.server).0 c.server.sockets ≡ none
      → Restores c (after_handshake num client up rs o c)
  unfolding after_handshake
  after_handshake-Restores rs (waiting _) c fresh = λ ended j. refl
  after_handshake-Restores rs (failed _) c fresh = λ ended j. refl
  after_handshake-Restores rs panicked c fresh = λ ended j. refl
  after_handshake-Restores rs (accepted client_id) c fresh =
      serve-Restores rs (client.as_string client_id) c fresh

  -- When a WebSocket connection has ended, by a refused handshake, an error, a close or a full stop of
  -- the stream, the socket table is as before it, provided that the id it would be given was free.
  pub handle_connection_restores :
      (reads : List Read) (rs : List Round) (c : Conn num.Number)
      → get (next_id c.server).0 c.server.sockets ≡ none
      → (handle_connection num client up reads rs c).0 ≡ true
      → (j : ℕ)
      → get j (handle_connection num client up reads rs c).1.server.sockets ≡ get j c.server.sockets
  unfolding handle_connection
  handle_connection_restores reads rs c fresh =
      after_handshake-Restores rs (do_handshake up reads [] []).0 c fresh
