-- ===== src/Websocket/Connection.antt =====
-- `handle_connection` of src/transports/websocket.rs: READY, the registration, the select loop and
-- the clean-up. The frames are sockudo_ws's: the reader is a list of messages, and what is sent is a
-- text. `select!` is a list of rounds, each with the branch that completes.
pub mod Close
pub mod Rounds
pub mod Views
pub mod Reaches
pub mod Forgotten
use dirpc.Prelude.{
  ℕ, String, Bool, true, false, Option, none, some, Bytes, List, [], ◌∷◌, ◌++◌, if◌then◌else◌, ◌==◌,
  nat_eq,
}
use dirpc.Prelude.Int.{ℤ}
use dirpc.Prelude.Assoc.{get}
use dirpc.Json.{Numbers, Value}
use dirpc.Types.{RpcMessage}
use dirpc.Server.State.{
  ServerState, Channel, new_channel, ready_payload, next_id, register_socket, unregister_socket,
  pop,
}
use dirpc.Server.Handle.Answer.{answer}
use dirpc.Text.{Chars}
use dirpc.Websocket.Handshake.{
  Upgrade, Read, Outcome, waiting, failed, panicked, accepted, do_handshake,
}

-- What `reader.next()` yields; the end of the list is `None`.
pub data Inbound : Type 0 where
  text : Bytes → Inbound
  close : Inbound
  other : Inbound
  failure : Inbound

pub record Client (N : Type 0) : Type 0 where
  pub parse_message : Bytes → Option (RpcMessage N)
  pub to_string : Value N → Option String
  pub send_ok : List String → String → Bool
  pub as_string : Chars → String

pub record Conn (N : Type 0) : Type 0 where
  pub reader : List Inbound
  pub sent : List String
  pub server : ServerState N

pub data Round : Type 0 where
  outbound : Round
  inbound : ℤ → ℤ → Round

pub data Flow (N : Type 0) : Type 0 where
  continue : Conn N → Flow N
  break : Conn N → Flow N

module _ (num : Numbers) (client : Client num.Number) (socket_id : ℕ) (client_id : String) where
  abbrev C : Type 0
  C = Conn num.Number

  send_text : String → C → Flow num.Number
  send_text json c =
      if client.send_ok c.sent json
      then continue (record c { sent = c.sent ++ json ∷ [] })
      else break c

  popped : Option (String × ServerState num.Number) → C → Flow num.Number
  popped none c = continue c
  popped (some (json, server)) c = send_text json (record c { server = server })

  -- The branch is not ready while nothing is queued; it ends the loop once the sender is gone.
  on_outbound : Option Channel → C → Flow num.Number
  on_outbound none c = break c
  on_outbound (some ch) c = popped (pop socket_id ch ch.queue c.server) c

  on_message : ℤ → ℤ → Option (RpcMessage num.Number) → C → C
  on_message now now' msg c = record c {
    server = answer num client.to_string socket_id client_id now now' msg c.server;
  }

  on_inbound : ℤ → ℤ → List Inbound → C → Flow num.Number
  on_inbound now now' [] c = break c
  on_inbound now now' (text t ∷ rest) c =
      continue (on_message now now' (client.parse_message t) (record c { reader = rest }))
  on_inbound now now' (close ∷ rest) c = break (record c { reader = rest })
  on_inbound now now' (other ∷ rest) c = continue (record c { reader = rest })
  on_inbound now now' (failure ∷ rest) c = break (record c { reader = rest })

  unfoldable pub round : Round → C → Flow num.Number
  unfolding send_text popped on_outbound on_message on_inbound
  round outbound c = on_outbound (get socket_id c.server.sockets) c
  round (inbound now now') c = on_inbound now now' c.reader c

  -- The loop and the clean-up behind it. The flag tells that the connection has ended.
  abbrev finish : C → Bool × C
  finish c = (true, record c { server = unregister_socket socket_id c.server })

  abbrev pub after_round : (C → Bool × C) → Flow num.Number → Bool × C
  after_round loop (continue c) = loop c
  after_round loop (break c) = finish c

  unfoldable pub main_loop : List Round → C → Bool × C
  unfolding round
  main_loop [] c = (false, c)
  main_loop (r ∷ rs) c = after_round (main_loop rs) (round r c)

module _ (num : Numbers) (client : Client num.Number) (up : Upgrade) where
  serve : List Round → String → Conn num.Number → Bool × Conn num.Number
  serve rounds client_id c =
      let (socket_id, s) = next_id c.server in
      if client.send_ok c.sent ready_payload
      then main_loop num client socket_id client_id rounds (record c {
        sent = c.sent ++ ready_payload ∷ [];
        server = register_socket socket_id new_channel s;
      })
      else (true, record c { server = s })

  -- The handshake that fails or panics ends the task, one that waits does not.
  after_handshake : List Round → Outcome → Conn num.Number → Bool × Conn num.Number
  after_handshake rounds (waiting _) c = (false, c)
  after_handshake rounds (failed _) c = (true, c)
  after_handshake rounds panicked c = (true, c)
  after_handshake rounds (accepted client_id) c = serve rounds (client.as_string client_id) c

  unfoldable pub handle_connection :
      List Read → List Round → Conn num.Number → Bool × Conn num.Number
  unfolding serve after_handshake
  handle_connection reads rounds c = after_handshake rounds (do_handshake up reads [] []).0 c
