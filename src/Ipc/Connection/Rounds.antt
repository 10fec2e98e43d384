-- ===== src/Ipc/Connection/Rounds.antt =====
-- What a round of an IPC connection keeps of the server.
use dirpc.Prelude.{
  ℕ, String, Bytes, Option, none, some, [], ◌≡◌, refl, nat_eq, Bool-cases, Option-cases, inl, inr,
}
use dirpc.Prelude.Int.{ℤ}
use dirpc.Prelude.Assoc.{get}
use dirpc.Json.{Numbers}
use dirpc.Types.{IpcOpcode, handshake, frame, close, ping, pong, as_i32, from_i32}
use dirpc.Words.{as_bytes}
use dirpc.Ipc.Codec.{encode, read_frame}
use dirpc.Server.State.{ServerState, Channel, pop}
use dirpc.Server.Handle.Closed.{IsClosed, answer-closed}
use dirpc.Ipc.Connection.{
  Env, Conn, Round, outbound, inbound, Flow, continue, break, send_frame, popped, on_outbound,
  on_message, on_ping, on_opcode, on_read, round,
}

abbrev pub conn_of : {N : Type 0} → Flow N → Conn N
conn_of (continue c) = c
conn_of (break c) = c

module _ (num : Numbers) (env : Env num) (socket_id : ℕ) (client_id : String)
    (P : ServerState num.Number → Type 0) (closed : IsClosed socket_id P) where
  abbrev Goes : Flow num.Number → Type 0
  Goes f = P (conn_of f).server

  send_frame-Goes :
      (json : String) (c : Conn num.Number)
      → P c.server
      → Goes (send_frame num env socket_id client_id json c)
  unfolding send_frame
  send_frame-Goes json c r =
      elim (Bool-cases (env.write_ok c.written (encode (as_i32 frame) (as_bytes json)))) [
        | inl e ↦ rw e r
        | inr e ↦ rw e r
      ]

  popped-Goes :
      (taken : ℕ) (c : Conn num.Number) (ch : Channel)
      → get socket_id c.server.sockets ≡ some ch
      → P c.server
      → Goes (popped num env socket_id client_id taken (pop socket_id ch ch.queue c.server) c)
  unfolding popped
  popped-Goes taken c ch e r = go (pop socket_id ch ch.queue c.server) refl
    where
      go :
          (o : Option (String × ServerState num.Number))
          → pop socket_id ch ch.queue c.server ≡ o
          → Goes (popped num env socket_id client_id taken o c)
      go none p = r
      go (some (t, s)) p = send_frame-Goes t _ (closed.pops c.server s ch t e p r)

  on_outbound-Goes :
      (taken : ℕ) (c : Conn num.Number)
      → P c.server
      → Goes (on_outbound num env socket_id client_id taken c)
  on_outbound-Goes taken c r = elim (Option-cases (get socket_id c.server.sockets)) [
    | inl e ↦ unfold on_outbound in rw (e, on_outbound) r
    | inr (ch, e) ↦ unfold on_outbound in rw (e, on_outbound) (popped-Goes taken c ch e r)
  ]

  on_opcode-Goes :
      (now now' : ℤ) (op : Option IpcOpcode) (body : Bytes) (c : Conn num.Number)
      → P c.server
      → Goes (on_opcode num env socket_id client_id now now' op body c)
  unfolding on_opcode on_ping on_message
  on_opcode-Goes now now' none body c r = r
  on_opcode-Goes now now' (some handshake) body c r = r
  on_opcode-Goes now now' (some frame) body c r =
      answer-closed num env.to_string socket_id client_id P closed now now' (env.parse_message body)
        c.server r
  on_opcode-Goes now now' (some close) body c r = r
  on_opcode-Goes now now' (some ping) body c r =
      elim (Bool-cases (env.write_ok c.written (encode (as_i32 pong) []))) [
        | inl e ↦ rw e r
        | inr e ↦ rw e r
      ]
  on_opcode-Goes now now' (some pong) body c r = r

  on_read-Goes :
      (now now' : ℤ) (o : Option ((ℕ × Bytes) × Bytes)) (c : Conn num.Number)
      → P c.server
      → Goes (on_read num env socket_id client_id now now' o c)
  unfolding on_read
  on_read-Goes now now' none c r = r
  on_read-Goes now now' (some ((op, body), rest)) c r =
      on_opcode-Goes now now' (from_i32 op) body (record c { reader = rest }) r

  -- A round keeps what its three effects on the server keep.
  pub round-closed :
      (k : Round) (c : Conn num.Number)
      → P c.server
      → P (conn_of (round num env socket_id client_id k c)).server
  unfolding round
  round-closed (outbound taken) c r = on_outbound-Goes taken c r
  round-closed (inbound now now') c r = on_read-Goes now now' (read_frame c.reader) c r
