-- ===== src/Ipc/Connection/Reaches.antt =====
-- An IPC connection takes the server through its own steps only.
use dirpc.Prelude.{
  ℕ, ◌+◌, ◌<◌, ◌^◌, String, Bool, Bytes, Option, none, some, List, [], ◌∷◌, ◌==◌, nat_eq,
  Bool-cases, inl, inr,
}
use dirpc.Json.{Numbers}
use dirpc.Types.{Handshake, IpcOpcode, handshake, from_i32}
use dirpc.Ipc.Codec.{read_frame}
use dirpc.Server.State.{next_id}
use dirpc.Server.State.Reach.{Reach, next, unregister}
use dirpc.Server.Handle.Reaches.{Reach-IsClosed, next_id-Reach, registered-Reach}
use dirpc.Ipc.Connection.Rounds.{conn_of, round-closed}
use dirpc.Ipc.Connection.{
  Env, Conn, Round, Flow, continue, break, round, after_round, main_loop, ready_frame, accepted,
  check_version, check_opcode, first_frame, handle_ipc_io,
}

module _ (num : Numbers) (env : Env num) (socket_id : ℕ) (client_id : String) where
  abbrev Goes : Flow num.Number → Type 0
  Goes f = Reach (conn_of f).server

  -- A round of a connection takes a reachable server to a reachable one, whatever the other
  -- connections did in front of it.
  pub round-Reach :
      (k : Round) (c : Conn num.Number)
      → Reach c.server
      → Reach (conn_of (round num env socket_id client_id k c)).server
  round-Reach k c r =
      round-closed num env socket_id client_id Reach (Reach-IsClosed socket_id) k c r

  after_round-Goes :
      (f : Flow num.Number) (loop : Conn num.Number → Bool × Conn num.Number)
      → Goes f
      → ((d : Conn num.Number) → Reach d.server → Reach (loop d).1.server)
      → Reach (after_round num env socket_id client_id loop f).1.server
  after_round-Goes (continue d) loop r rec = rec d r
  after_round-Goes (break d) loop r rec = next r (unregister d.server socket_id)

  main_loop-Reach :
      (ks : List Round) (c : Conn num.Number)
      → Reach c.server
      → Reach (main_loop num env socket_id client_id ks c).1.server
  unfolding main_loop
  main_loop-Reach [] c r = r
  main_loop-Reach (k ∷ ks) c r =
      after_round-Goes (round num env socket_id client_id k c)
        (main_loop num env socket_id client_id ks) (round-Reach k c r) (main_loop-Reach ks)

module _ (num : Numbers) (env : Env num) where
  -- The 64-bit counter has room, and the state is reachable.
  abbrev Ready : Conn num.Number → Type 0
  Ready c = (c.server.next_socket_id + 1 < 2 ^ 64) × Reach c.server

  accepted-Reach :
      (ks : List Round) (client_id : String) (c : Conn num.Number)
      → Ready c
      → Reach (accepted num env ks client_id c).1.server
  unfolding accepted
  accepted-Reach ks client_id c (room, r) = elim (Bool-cases (env.write_ok c.written ready_frame)) [
    | inl e ↦ rw e (
        main_loop-Reach num env (next_id c.server).0 client_id ks _
          (registered-Reach c.server room r))
    | inr e ↦ rw e (next_id-Reach c.server room r)
  ]

  check_version-Reach :
      (ks : List Round) (h : Option Handshake) (c : Conn num.Number)
      → Ready c
      → Reach (check_version num env ks h c).1.server
  unfolding check_version
  check_version-Reach ks none c (room, r) = r
  check_version-Reach ks (some h) c (room, r) = elim (Bool-cases (h.v == 1)) [
    | inl e ↦ rw e (accepted-Reach ks h.client_id c (room, r))
    | inr e ↦ rw e r
  ]

  check_opcode-Reach :
      (ks : List Round) (op : Option IpcOpcode) (body : Bytes) (c : Conn num.Number)
      → Ready c
      → Reach (check_opcode num env ks op body c).1.server
  unfolding check_opcode
  check_opcode-Reach ks (some handshake) body c ready =
      check_version-Reach ks (env.parse_handshake body) c ready
  check_opcode-Reach ks _ body c (room, r) = r

  first_frame-Reach :
      (ks : List Round) (o : Option ((ℕ × Bytes) × Bytes)) (c : Conn num.Number)
      → Ready c
      → Reach (first_frame num env ks o c).1.server
  unfolding first_frame
  first_frame-Reach ks none c (room, r) = r
  first_frame-Reach ks (some ((op, body), rest)) c ready =
      check_opcode-Reach ks (from_i32 op) body (record c { reader = rest }) ready

  -- Whatever its client sends, an IPC connection takes the server only through the server's own
  -- steps: from a reachable state, with room in the 64-bit counter, it ends or stands in a reachable
  -- state, so that what holds of all reachable states holds there.
  pub handle_ipc_io-Reach :
      (ks : List Round) (c : Conn num.Number)
      → c.server.next_socket_id + 1 < 2 ^ 64
      → Reach c.server
      → Reach (handle_ipc_io num env ks c).1.server
  unfolding handle_ipc_io
  handle_ipc_io-Reach ks c room r = first_frame-Reach ks (read_frame c.reader) c (room, r)
