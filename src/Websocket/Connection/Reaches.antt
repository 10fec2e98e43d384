-- ===== src/Websocket/Connection/Reaches.antt =====
-- A WebSocket connection takes the server through its own steps only.
use dirpc.Prelude.{ℕ, ◌+◌, ◌<◌, ◌^◌, String, Bool, List, [], ◌∷◌, nat_eq, Bool-cases, inl, inr}
use dirpc.Json.{Numbers}
use dirpc.Server.State.{ready_payload, next_id}
use dirpc.Server.State.Reach.{Reach, next, unregister}
use dirpc.Server.Handle.Reaches.{Reach-IsClosed, next_id-Reach, registered-Reach}
use dirpc.Websocket.Connection.Rounds.{conn_of, round-closed}
use dirpc.Websocket.Handshake.{
  Upgrade, Read, Outcome, waiting, failed, panicked, accepted, do_handshake,
}
use dirpc.Websocket.Connection.{
  Client, Conn, Round, Flow, continue, break, round, after_round, main_loop, serve, after_handshake,
  handle_connection,
}

module _ (num : Numbers) (client : Client num.Number) (socket_id : ℕ) (client_id : String) where
  abbrev Goes : Flow num.Number → Type 0
  Goes f = Reach (conn_of f).server

  -- A round of a connection takes a reachable server to a reachable one, whatever the other
  -- connections did in front of it.
  pub round-Reach :
      (k : Round) (c : Conn num.Number)
      → Reach c.server
      → Reach (conn_of (round num client socket_id client_id k c)).server
  round-Reach k c r =
      round-closed num client socket_id client_id Reach (Reach-IsClosed socket_id) k c r

  after_round-Goes :
      (f : Flow num.Number) (loop : Conn num.Number → Bool × Conn num.Number)
      → Goes f
      → ((d : Conn num.Number) → Reach d.server → Reach (loop d).1.server)
      → Reach (after_round num client socket_id client_id loop f).1.server
  after_round-Goes (continue d) loop r rec = rec d r
  after_round-Goes (break d) loop r rec = next r (unregister d.server socket_id)

  main_loop-Reach :
      (ks : List Round) (c : Conn num.Number)
      → Reach c.server
      → Reach (main_loop num client socket_id client_id ks c).1.server
  unfolding main_loop
  main_loop-Reach [] c r = r
  main_loop-Reach (k ∷ ks) c r =
      after_round-Goes (round num client socket_id client_id k c)
        (main_loop num client socket_id client_id ks) (round-Reach k c r) (main_loop-Reach ks)

module _ (num : Numbers) (client : Client num.Number) (up : Upgrade) where
  serve-Reach :
      (ks : List Round) (client_id : String) (c : Conn num.Number)
      → c.server.next_socket_id + 1 < 2 ^ 64
      → Reach c.server
      → Reach (serve num client up ks client_id c).1.server
  unfolding serve
  serve-Reach ks client_id c room r = elim (Bool-cases (client.send_ok c.sent ready_payload)) [
    | inl e ↦ rw e (
        main_loop-Reach num client (next_id c.server).0 client_id ks _
          (registered-Reach c.server room r))
    | inr e ↦ rw e (next_id-Reach c.server room r)
  ]

  after_handshake-Reach :
      (ks : List Round) (o : Outcome) (c : Conn num.Number)
      → c.server.next_socket_id + 1 < 2 ^ 64
      → Reach c.server
      → Reach (after_handshake num client up ks o c).1.server
  unfolding after_handshake
  after_handshake-Reach ks (waiting _) c room r = r
  after_handshake-Reach ks (failed _) c room r = r
  after_handshake-Reach ks panicked c room r = r
  after_handshake-Reach ks (accepted id) c room r = serve-Reach ks (client.as_string id) c room r

  -- Whatever its client sends, a WebSocket connection takes the server only through the server's own
  -- steps: from a reachable state, with room in the 64-bit counter, it ends or stands in a reachable
  -- state.
  handle_connection-Reach :
      (reads : List Read) (ks : List Round) (c : Conn num.Number)
      → c.server.next_socket_id + 1 < 2 ^ 64
      → Reach c.server
      → Reach (handle_connection num client up reads ks c).1.server
  unfolding handle_connection
  handle_connection-Reach reads ks c room r =
      after_handshake-Reach ks (do_handshake up reads [] []).0 c room r
