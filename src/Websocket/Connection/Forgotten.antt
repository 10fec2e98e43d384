-- ===== src/Websocket/Connection/Forgotten.antt =====
-- A WebSocket client that has gone is forgotten by the bridge.
use dirpc.Prelude.{ℕ, String, Bool, true, List, [], ◌∷◌, ◌≡◌, Bool-cases, inl, inr}
use dirpc.Json.{Numbers}
use dirpc.Server.State.{ready_payload, next_id}
use dirpc.Websocket.Handshake.{
  Upgrade, Read, Outcome, waiting, failed, panicked, accepted, do_handshake,
}
use dirpc.Websocket.Connection.{
  Client, Conn, Round, Flow, continue, break, round, after_round, main_loop, serve, after_handshake,
  handle_connection,
}
use dirpc.Presence.{IsForgotten, Serialises, unregister_socket-IsForgotten}

module _ (num : Numbers) (client : Client num.Number) (up : Upgrade)
    (serialises : Serialises num client.to_string) where
  -- The run has not ended, or the client is forgotten.
  abbrev Leaves : ℕ → Bool × Conn num.Number → Type 0
  Leaves id (ended, d) = ended ≡ true → IsForgotten num client.to_string id d.server

  after_round-Leaves :
      (id : ℕ) (client_id : String) (f : Flow num.Number)
      (loop : Conn num.Number → Bool × Conn num.Number)
      → ((d : Conn num.Number) → Leaves id (loop d))
      → Leaves id (after_round num client id client_id loop f)
  after_round-Leaves id client_id (continue d) loop rec = rec d
  after_round-Leaves id client_id (break d) loop rec =
      λ _. unregister_socket-IsForgotten num client.to_string serialises id d.server

  main_loop-Leaves :
      (id : ℕ) (client_id : String) (rs : List Round) (c : Conn num.Number)
      → Leaves id (main_loop num client id client_id rs c)
  unfolding main_loop
  main_loop-Leaves id client_id [] c = λ e. cc
  main_loop-Leaves id client_id (r ∷ rs) c =
      after_round-Leaves id client_id (round num client id client_id r c)
        (main_loop num client id client_id rs) (main_loop-Leaves id client_id rs)

  serve-Leaves :
      (rs : List Round) (client_id : String) (c : Conn num.Number)
      → IsForgotten num client.to_string (next_id c.server).0 c.server
      → Leaves (next_id c.server).0 (serve num client up rs client_id c)
  unfolding serve next_id
  serve-Leaves rs client_id c before = elim (Bool-cases (client.send_ok c.sent ready_payload)) [
    | inl e ↦ rw e (main_loop-Leaves c.server.next_socket_id client_id rs _)
    | inr e ↦ rw e (λ _. before)
  ]

  after_handshake-Leaves :
      (rs : List Round) (o : Outcome) (c : Conn num.Number)
      → IsForgotten num client.to_string (next_id c.server).0 c.server
      → Leaves (next_id c.server).0 (after_handshake num client up rs o c)
  unfolding after_handshake
  after_handshake-Leaves rs (waiting _) c before = λ _. before
  after_handshake-Leaves rs (failed _) c before = λ _. before
  after_handshake-Leaves rs panicked c before = λ _. before
  after_handshake-Leaves rs (accepted id) c before = serve-Leaves rs (client.as_string id) c before

  -- Once a WebSocket connection has ended, whatever the client did and however it ended, the bridge
  -- remembers no message of its socket when it has received all that the server has sent, if it
  -- remembered none before.
  pub handle_connection-IsForgotten :
      (reads : List Read) (rs : List Round) (c : Conn num.Number)
      → IsForgotten num client.to_string (next_id c.server).0 c.server
      → (handle_connection num client up reads rs c).0 ≡ true
      → IsForgotten num client.to_string
          (next_id c.server).0
          (handle_connection num client up reads rs c).1.server
  unfolding handle_connection
  handle_connection-IsForgotten reads rs c before =
      after_handshake-Leaves rs (do_handshake up reads [] []).0 c before
