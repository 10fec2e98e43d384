-- ===== src/Websocket/Connection/Rounds.antt =====
-- What a round of a WebSocket connection keeps of the server.
use dirpc.Prelude.{
  ℕ, String, Option, none, some, List, [], ◌∷◌, ◌≡◌, refl, nat_eq, Bool-cases, inl, inr,
}
use dirpc.Prelude.Int.{ℤ}
use dirpc.Prelude.Assoc.{get}
use dirpc.Json.{Numbers}
use dirpc.Server.State.{ServerState, Channel, pop}
use dirpc.Server.Handle.Closed.{IsClosed, answer-closed}
use dirpc.Websocket.Connection.{
  Inbound, text, close, other, failure, Client, Conn, Round, outbound, inbound, Flow, continue,
  break, send_text, popped, on_outbound, on_message, on_inbound, round,
}

abbrev pub conn_of : {N : Type 0} → Flow N → Conn N
conn_of (continue c) = c
conn_of (break c) = c

module _ (num : Numbers) (client : Client num.Number) (socket_id : ℕ) (client_id : String)
    (P : ServerState num.Number → Type 0) (closed : IsClosed socket_id P) where
  abbrev Goes : Flow num.Number → Type 0
  Goes f = P (conn_of f).server

  send_text-Goes :
      (json : String) (c : Conn num.Number)
      → P c.server
      → Goes (send_text num client socket_id client_id json c)
  unfolding send_text
  send_text-Goes json c r = elim (Bool-cases (client.send_ok c.sent json)) [
    | inl e ↦ rw e r
    | inr e ↦ rw e r
  ]

  popped-Goes :
      (c : Conn num.Number) (ch : Channel) (o : Option (String × ServerState num.Number))
      → get socket_id c.server.sockets ≡ some ch
      → pop socket_id ch ch.queue c.server ≡ o
      → P c.server
      → Goes (popped num client socket_id client_id o c)
  unfolding popped
  popped-Goes c ch none e p r = r
  popped-Goes c ch (some (t, s)) e p r = send_text-Goes t _ (closed.pops c.server s ch t e p r)

  on_outbound-Goes :
      (c : Conn num.Number) (o : Option Channel)
      → get socket_id c.server.sockets ≡ o
      → P c.server
      → Goes (on_outbound num client socket_id client_id o c)
  unfolding on_outbound
  on_outbound-Goes c none e r = r
  on_outbound-Goes c (some ch) e r = popped-Goes c ch _ e refl r

  on_inbound-Goes :
      (now now' : ℤ) (q : List Inbound) (c : Conn num.Number)
      → P c.server
      → Goes (on_inbound num client socket_id client_id now now' q c)
  unfolding on_inbound on_message
  on_inbound-Goes now now' [] c r = r
  on_inbound-Goes now now' (text t ∷ rest) c r =
      answer-closed num client.to_string socket_id client_id P closed now now'
        (client.parse_message t) c.server r
  on_inbound-Goes now now' (close ∷ rest) c r = r
  on_inbound-Goes now now' (other ∷ rest) c r = r
  on_inbound-Goes now now' (failure ∷ rest) c r = r

  -- A round keeps what its three effects on the server keep.
  pub round-closed :
      (k : Round) (c : Conn num.Number)
      → P c.server
      → P (conn_of (round num client socket_id client_id k c)).server
  unfolding round
  round-closed outbound c r = on_outbound-Goes c _ refl r
  round-closed (inbound now now') c r = on_inbound-Goes now now' c.reader c r
