-- ===== src/Ipc/Connection.antt =====
-- `handle_ipc_io` of src/transports/ipc.rs: the handshake and the select loop of one client. The
-- reader is the bytes that the client sends and the server has not read: a read that finds too few is
-- one of a client that has closed, since no round stands for a read that waits. `select!` is a list of
-- rounds, each with the branch that completes: where the outbound branch does, the read in progress
-- is dropped together with the bytes that it has taken.
pub mod Close
pub mod Rounds
pub mod Views
pub mod Reaches
pub mod Forgotten
pub mod Frames
pub mod Drain
use dirpc.Prelude.{
  ℕ, String, Bool, true, false, Bytes, Option, none, some, List, [], ◌∷◌, ◌++◌, take, drop,
  if◌then◌else◌, ◌==◌, nat_eq,
}
use dirpc.Prelude.Int.{ℤ}
use dirpc.Prelude.Assoc.{get}
use dirpc.Json.{Numbers, Value}
use dirpc.Types.{
  RpcMessage, Handshake, IpcOpcode, handshake, frame, close, ping, pong, as_i32, from_i32,
}
use dirpc.Words.{as_bytes}
use dirpc.Ipc.Codec.{encode, read_frame}
use dirpc.Server.State.{
  ServerState, Channel, new_channel, ready_payload, next_id, register_socket, unregister_socket,
  send_to_socket, pop,
}
use dirpc.Server.Handle.Answer.{answer}

-- What the connection takes from elsewhere: serde_json, the socket's writes, the READY text.
-- `write_ok` tells whether the next `write_all` succeeds after what was written, and `partial` how
-- many bytes of it are written where it fails.
pub record Env (num : Numbers) : Type 0 where
  pub to_string : Value num.Number → Option String
  pub parse_message : Bytes → Option (RpcMessage num.Number)
  pub parse_handshake : Bytes → Option Handshake
  pub write_ok : List Bytes → Bytes → Bool
  pub partial : List Bytes → Bytes → ℕ

pub record Conn (N : Type 0) : Type 0 where
  pub reader : Bytes
  pub written : List Bytes
  pub server : ServerState N

-- `outbound taken`: `rx.recv()` completes after the pending read has taken so many bytes.
-- `inbound now now'`: the read completes, or fails; the clock shows these times.
pub data Round : Type 0 where
  outbound : ℕ → Round
  inbound : ℤ → ℤ → Round

-- `break` and the end of a round
pub data Flow (N : Type 0) : Type 0 where
  continue : Conn N → Flow N
  break : Conn N → Flow N

-- What a failing write leaves behind what was written.
abbrev pub cut : {num : Numbers} → Env num → List Bytes → Bytes → List Bytes
cut env written bytes = written ++ take (env.partial written bytes) bytes ∷ []

module _ (num : Numbers) (env : Env num) (socket_id : ℕ) (client_id : String) where
  abbrev C : Type 0
  C = Conn num.Number

  -- the write of an outbound frame
  send_frame : String → C → Flow num.Number
  send_frame json c =
      let bytes = encode (as_i32 frame) (as_bytes json) in
      if env.write_ok c.written bytes
      then continue (record c { written = c.written ++ bytes ∷ [] })
      else break (record c { written = cut env c.written bytes })

  popped : ℕ → Option (String × ServerState num.Number) → C → Flow num.Number
  popped taken none c = continue c
  popped taken (some (json, server)) c =
      send_frame json (record c { server = server; reader = drop taken c.reader })

  -- The branch is not ready while nothing is queued; it ends the loop once the sender is gone.
  on_outbound : ℕ → C → Flow num.Number
  on_outbound taken c = elim (get socket_id c.server.sockets) [
    | none ↦ break c
    | some ch ↦ popped taken (pop socket_id ch ch.queue c.server) c
  ]

  on_message : ℤ → ℤ → Option (RpcMessage num.Number) → C → C
  on_message now now' msg c = record c {
    server = answer num env.to_string socket_id client_id now now' msg c.server;
  }

  -- The result of writing a pong is ignored.
  on_ping : C → C
  on_ping c =
      let bytes = encode (as_i32 pong) [] in
      if env.write_ok c.written bytes
      then record c { written = c.written ++ bytes ∷ [] }
      else record c { written = cut env c.written bytes }

  pub on_opcode : ℤ → ℤ → Option IpcOpcode → Bytes → C → Flow num.Number
  on_opcode now now' none body c = break c
  on_opcode now now' (some handshake) body c = continue c
  on_opcode now now' (some frame) body c = continue (on_message now now' (env.parse_message body) c)
  on_opcode now now' (some close) body c = break c
  on_opcode now now' (some ping) body c = continue (on_ping c)
  on_opcode now now' (some pong) body c = continue c

  on_read : ℤ → ℤ → Option ((ℕ × Bytes) × Bytes) → C → Flow num.Number
  on_read now now' none c = break c
  on_read now now' (some ((op, body), rest)) c =
      on_opcode now now' (from_i32 op) body (record c { reader = rest })

  unfoldable pub round : Round → C → Flow num.Number
  unfolding send_frame popped on_outbound on_message on_ping on_opcode on_read
  round (outbound taken) c = on_outbound taken c
  round (inbound now now') c = on_read now now' (read_frame c.reader) c

  -- The loop and the clean-up behind it. The flag tells that the connection has ended.
  abbrev finish : C → Bool × C
  finish c = (true, record c { server = unregister_socket socket_id c.server })

  abbrev pub after_round : (C → Bool × C) → Flow num.Number → Bool × C
  after_round loop (continue c) = loop c
  after_round loop (break c) = finish c

  unfoldable pub main_loop : List Round → C → Bool × C
  unfolding round
  main_loop [] c = (false, c)
  main_loop (r ∷ rs) c = after_round (main_loop rs) (round r c)

-- DISPATCH/READY, as a frame
pub ready_frame : Bytes
ready_frame = encode (as_i32 frame) (as_bytes ready_payload)

module _ (num : Numbers) (env : Env num) where
  -- Once the handshake is accepted: the id, READY, the registration, the loop.
  accepted : List Round → String → Conn num.Number → Bool × Conn num.Number
  accepted rounds client_id c =
      let (socket_id, s) = next_id c.server in
      if env.write_ok c.written ready_frame
      then main_loop num env socket_id client_id rounds (record c {
        written = c.written ++ ready_frame ∷ [];
        server = register_socket socket_id new_channel s;
      })
      else (true, record c { written = cut env c.written ready_frame; server = s })

  check_version : List Round → Option Handshake → Conn num.Number → Bool × Conn num.Number
  check_version rounds none c = (true, c)
  check_version rounds (some h) c = if h.v == 1 then accepted rounds h.client_id c else (true, c)

  check_opcode : List Round → Option IpcOpcode → Bytes → Conn num.Number → Bool × Conn num.Number
  check_opcode rounds (some handshake) body c = check_version rounds (env.parse_handshake body) c
  check_opcode rounds _ body c = (true, c)

  first_frame : List Round → Option ((ℕ × Bytes) × Bytes) → Conn num.Number → Bool × Conn num.Number
  first_frame rounds none c = (true, c)
  first_frame rounds (some ((op, body), rest)) c =
      check_opcode rounds (from_i32 op) body (record c { reader = rest })

  -- The result tells whether the connection has ended.
  unfoldable pub handle_ipc_io : List Round → Conn num.Number → Bool × Conn num.Number
  unfolding accepted check_version check_opcode first_frame
  handle_ipc_io rounds c = first_frame rounds (read_frame c.reader) c
