-- ===== src/Ipc/Connection/Close.antt =====
-- A connection that has ended leaves the socket table as it found it.
use dirpc.Prelude.{
  ℕ, String, Bool, true, false, Bytes, Option, none, some, List, [], ◌∷◌, ◌≡◌, ◌∙◌, refl, sym,
  arith, if◌then◌else◌, ◌==◌, nat_eq, ==_refl, Bool-cases, inl, inr,
}
use dirpc.Prelude.Assoc.{get, get-insert, get-remove}
use dirpc.Json.{Numbers}
use dirpc.Types.{Handshake, IpcOpcode, handshake, from_i32}
use dirpc.Ipc.Codec.{read_frame}
use dirpc.Server.State.{Channel, new_channel, next_id, register_socket, unregister_socket}
use dirpc.Server.Handle.Keeps.{others-IsClosed}
use dirpc.Ipc.Connection.Rounds.{conn_of, round-closed}
use dirpc.Ipc.Connection.{
  Env, Conn, Round, Flow, continue, break, round, after_round, main_loop, ready_frame, accepted,
  check_version, check_opcode, first_frame, handle_ipc_io,
}

abbrev table : {N : Type 0} → ℕ → Conn N → Option Channel
table j c = get j c.server.sockets

module _ (num : Numbers) (env : Env num) (socket_id : ℕ) (client_id : String) (j : ℕ)
    (other : (socket_id == j) ≡ false) where
  -- A round touches no other socket.
  pub round_others :
      (r : Round) (c : Conn num.Number)
      → table j (conn_of (round num env socket_id client_id r c)) ≡ table j c
  round_others r c =
      round-closed num env socket_id client_id (λ s. get j s.sockets ≡ table j c)
        (others-IsClosed socket_id j other (table j c)) r c refl

  main_loop_others :
      (rs : List Round) (c : Conn num.Number)
      → table j (main_loop num env socket_id client_id rs c).1 ≡ table j c
  unfolding main_loop
  main_loop_others [] c = refl
  main_loop_others (r ∷ rs) c =
      go (round num env socket_id client_id r c) (round_others r c) (main_loop_others rs)
    where
      go :
          (f : Flow num.Number)
          → table j (conn_of f) ≡ table j c
          → ((d : Conn num.Number)
              → table j (main_loop num env socket_id client_id rs d).1 ≡ table j d)
          → table j
              (after_round num env socket_id client_id
                (λ d. main_loop num env socket_id client_id rs d)
                f).1
            ≡ table j c
      go (continue d) e rec = rec d ∙ e
      go (break d) e rec =
          unfold unregister_socket in get-remove socket_id j d.server.sockets ∙ rw other e

module _ (num : Numbers) (env : Env num) where
  -- The socket of a loop that has ended is not registered.
  main_loop_own :
      (socket_id : ℕ) (client_id : String) (rs : List Round) (c : Conn num.Number)
      → (main_loop num env socket_id client_id rs c).0 ≡ true
      → table socket_id (main_loop num env socket_id client_id rs c).1 ≡ none
  unfolding main_loop
  main_loop_own socket_id client_id [] c = λ e. cc
  main_loop_own socket_id client_id (r ∷ rs) c =
      go (round num env socket_id client_id r c) (main_loop_own socket_id client_id rs)
    where
      go :
          (f : Flow num.Number)
          → ((d : Conn num.Number)
              → (main_loop num env socket_id client_id rs d).0 ≡ true
              → table socket_id (main_loop num env socket_id client_id rs d).1 ≡ none)
          → (after_round num env socket_id client_id (main_loop num env socket_id client_id rs) f).0
            ≡ true
          → table socket_id
              (after_round num env socket_id client_id
                (main_loop num env socket_id client_id rs)
                f).1
            ≡ none
      go (continue d) rec = rec d
      go (break d) rec = λ _.
          unfold unregister_socket in
          rw (get-remove socket_id socket_id d.server.sockets, ==_refl socket_id)

  abbrev Restores : Conn num.Number → Bool × Conn num.Number → Type 0
  Restores c (ended, d) = ended ≡ true → (j : ℕ) → table j d ≡ table j c

  -- the loop, from the state in which the socket has been registered
  registered-Restores :
      (id : ℕ) (client_id : String) (rs : List Round) (c d : Conn num.Number)
      → get id c.server.sockets ≡ none
      → ((j : ℕ) → table j d ≡ (if id == j then some new_channel else table j c))
      → Restores c (main_loop num env id client_id rs d)
  registered-Restores id client_id rs c d fresh reg ended j = elim (Bool-cases (id == j)) [
    | inl same ↦
        let q : id ≡ j = ground arith in
        rw (← q) (main_loop_own id client_id rs d ended ∙ sym fresh)
    | inr other ↦ main_loop_others num env id client_id j other rs d ∙ reg j ∙ rw other
  ]

  accepted-Restores :
      (rs : List Round) (client_id : String) (c : Conn num.Number)
      → get (next_id c.server).0 c.server.sockets ≡ none
      → Restores c (accepted num env rs client_id c)
  unfolding accepted next_id register_socket
  accepted-Restores rs client_id c fresh = elim (Bool-cases (env.write_ok c.written ready_frame)) [
    | inl e ↦ rw e (
        registered-Restores c.server.next_socket_id client_id rs c _ fresh
          (λ j. get-insert c.server.next_socket_id j new_channel c.server.sockets))
    | inr e ↦ rw e (λ ended j. refl)
  ]

  check_version-Restores :
      (rs : List Round) (h : Option Handshake) (c : Conn num.Number)
      → get (next_id c.server).0 c.server.sockets ≡ none
      → Restores c (check_version num env rs h c)
  unfolding check_version
  check_version-Restores rs none c fresh = λ ended j. refl
  check_version-Restores rs (some h) c fresh = elim (Bool-cases (h.v == 1)) [
    | inl e ↦ rw e (accepted-Restores rs h.client_id c fresh)
    | inr e ↦ rw e (λ ended j. refl)
  ]

  check_opcode-Restores :
      (rs : List Round) (op : Option IpcOpcode) (body : Bytes) (c : Conn num.Number)
      → get (next_id c.server).0 c.server.sockets ≡ none
      → Restores c (check_opcode num env rs op body c)
  unfolding check_opcode
  check_opcode-Restores rs (some handshake) body c fresh =
      check_version-Restores rs (env.parse_handshake body) c fresh
  check_opcode-Restores rs _ body c fresh = λ ended j. refl

  first_frame-Restores :
      (rs : List Round) (r : Option ((ℕ × Bytes) × Bytes)) (c : Conn num.Number)
      → get (next_id c.server).0 c.server.sockets ≡ none
      → Restores c (first_frame num env rs r c)
  unfolding first_frame
  first_frame-Restores rs none c fresh = λ ended j. refl
  first_frame-Restores rs (some ((op, body), rest)) c fresh =
      check_opcode-Restores rs (from_i32 op) body (record c { reader = rest }) fresh

  -- When a connection has ended, by whatever error, refusal or close, the socket table is as before
  -- it, provided that the id it would be given was free.
  pub handle_ipc_io_restores :
      (rs : List Round) (c : Conn num.Number)
      → get (next_id c.server).0 c.server.sockets ≡ none
      → (handle_ipc_io num env rs c).0 ≡ true
      → (j : ℕ) → get j (handle_ipc_io num env rs c).1.server.sockets ≡ get j c.server.sockets
  unfolding handle_ipc_io
  handle_ipc_io_restores rs c fresh = first_frame-Restores rs (read_frame c.reader) c fresh
