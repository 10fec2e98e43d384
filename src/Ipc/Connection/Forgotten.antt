-- ===== src/Ipc/Connection/Forgotten.antt =====
-- An IPC client that has gone is forgotten by the bridge.
use dirpc.Prelude.{
  ℕ, String, Bool, true, Bytes, Option, none, some, List, [], ◌∷◌, ◌≡◌, Bool-cases, inl, inr, ◌==◌,
  nat_eq,
}
use dirpc.Json.{Numbers}
use dirpc.Types.{Handshake, IpcOpcode, handshake, from_i32}
use dirpc.Ipc.Codec.{read_frame}
use dirpc.Server.State.{next_id}
use dirpc.Ipc.Connection.{
  Env, Conn, Round, Flow, continue, break, round, after_round, main_loop, ready_frame, accepted,
  check_version, check_opcode, first_frame, handle_ipc_io,
}
use dirpc.Presence.{IsForgotten, Serialises, unregister_socket-IsForgotten}

module _ (num : Numbers) (env : Env num) (serialises : Serialises num env.to_string) where
  -- The run has not ended, or the client is forgotten.
  abbrev Leaves : ℕ → Bool × Conn num.Number → Type 0
  Leaves id (ended, d) = ended ≡ true → IsForgotten num env.to_string id d.server

  after_round-Leaves :
      (id : ℕ) (client_id : String) (f : Flow num.Number)
      (loop : Conn num.Number → Bool × Conn num.Number)
      → ((d : Conn num.Number) → Leaves id (loop d))
      → Leaves id (after_round num env id client_id loop f)
  after_round-Leaves id client_id (continue d) loop rec = rec d
  after_round-Leaves id client_id (break d) loop rec =
      λ _. unregister_socket-IsForgotten num env.to_string serialises id d.server

  main_loop-Leaves :
      (id : ℕ) (client_id : String) (rs : List Round) (c : Conn num.Number)
      → Leaves id (main_loop num env id client_id rs c)
  unfolding main_loop
  main_loop-Leaves id client_id [] c = λ e. cc
  main_loop-Leaves id client_id (r ∷ rs) c =
      after_round-Leaves id client_id (round num env id client_id r c)
        (main_loop num env id client_id rs) (main_loop-Leaves id client_id rs)

  abbrev own : Conn num.Number → ℕ
  own c = (next_id c.server).0

  abbrev Before : Conn num.Number → Type 0
  Before c = IsForgotten num env.to_string (own c) c.server

  accepted-Leaves :
      (rs : List Round) (client_id : String) (c : Conn num.Number)
      → Before c
      → Leaves (own c) (accepted num env rs client_id c)
  unfolding accepted next_id
  accepted-Leaves rs client_id c before = elim (Bool-cases (env.write_ok c.written ready_frame)) [
    | inl e ↦ rw e (main_loop-Leaves c.server.next_socket_id client_id rs _)
    | inr e ↦ rw e (λ _. before)
  ]

  check_version-Leaves :
      (rs : List Round) (h : Option Handshake) (c : Conn num.Number)
      → Before c
      → Leaves (own c) (check_version num env rs h c)
  unfolding check_version
  check_version-Leaves rs none c before = λ _. before
  check_version-Leaves rs (some h) c before = elim (Bool-cases (h.v == 1)) [
    | inl e ↦ rw e (accepted-Leaves rs h.client_id c before)
    | inr e ↦ rw e (λ _. before)
  ]

  check_opcode-Leaves :
      (rs : List Round) (op : Option IpcOpcode) (body : Bytes) (c : Conn num.Number)
      → Before c
      → Leaves (own c) (check_opcode num env rs op body c)
  unfolding check_opcode
  check_opcode-Leaves rs (some handshake) body c before =
      check_version-Leaves rs (env.parse_handshake body) c before
  check_opcode-Leaves rs _ body c before = λ _. before

  first_frame-Leaves :
      (rs : List Round) (r : Option ((ℕ × Bytes) × Bytes)) (c : Conn num.Number)
      → Before c
      → Leaves (own c) (first_frame num env rs r c)
  unfolding first_frame
  first_frame-Leaves rs none c before = λ _. before
  first_frame-Leaves rs (some ((op, body), rest)) c before =
      check_opcode-Leaves rs (from_i32 op) body (record c { reader = rest }) before

  -- Once an IPC connection has ended, whatever the client did and however it ended: a bridge that has
  -- received every event that the server has sent, missing none by a lag, remembers no message of its
  -- socket, if with every event sent before the connection it remembered none, and every message can be
  -- serialised.
  pub handle_ipc_io-IsForgotten :
      (rs : List Round) (c : Conn num.Number)
      → IsForgotten num env.to_string (next_id c.server).0 c.server
      → (handle_ipc_io num env rs c).0 ≡ true
      → IsForgotten num env.to_string (next_id c.server).0 (handle_ipc_io num env rs c).1.server
  unfolding handle_ipc_io
  handle_ipc_io-IsForgotten rs c before = first_frame-Leaves rs (read_frame c.reader) c before
