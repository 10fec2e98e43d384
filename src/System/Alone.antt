-- ===== src/System/Alone.antt =====
-- A connection that is alone in the program goes the way of `handle_ipc_io`.
use dirpc.Prelude.{
  ℕ, String, Bool, true, Bytes, some, List, [], ◌∷◌, ◌++◌, if◌then◌else◌, ◌==◌, nat_eq, ==_refl,
  ◌≡◌, ◌∙◌, refl, sym, ap, Bool-cases, inl, inr,
}
use dirpc.Prelude.Assoc.{get, insert, remove}
use dirpc.Json.{Numbers}
use dirpc.Types.{Handshake, handshake, from_i32}
use dirpc.Ipc.Codec.{read_frame}
use dirpc.Server.State.{ServerState, new_channel, next_id, register_socket, unregister_socket}
use dirpc.Ipc.Connection.{ready_frame}
use dirpc.Ipc.Connection as Ipc
use dirpc.Websocket.Connection as Websocket
use dirpc.System.{
  Phase, opening, running, closing, ipc, Link, Turn, start, finish, ipc_round, Event, connect, turn,
  System, on_start, ipc_flow, on_ipc_round, on_finish, take_turn, put, step, run,
}

-- Rounds, and the clean-up.
abbrev loop_turns : {N : Type 0} → ℕ → List Ipc.Round → List (Event N)
loop_turns id [] = turn id finish ∷ []
loop_turns id (k ∷ ks) = turn id (ipc_round k) ∷ loop_turns id ks

abbrev pub lifetime : {N : Type 0} → ℕ → String → Ipc.Conn N → List Ipc.Round → List (Event N)
lifetime id client_id c ks =
    connect client_id (ipc c.reader c.written) ∷ turn id start ∷ loop_turns id ks

module _ (num : Numbers) (env : ℕ → Ipc.Env num) (client : ℕ → Websocket.Client num.Number) (id : ℕ)
    (client_id : String) where
  abbrev alone : Phase → Ipc.Conn num.Number → System num.Number
  alone phase c = record {
    server = c.server;
    links =
        (id, record { phase = phase; client_id = client_id; pipe = ipc c.reader c.written }) ∷ [];
  }

  alone_turn :
      (t : Turn) (phase : Phase) (c : Ipc.Conn num.Number)
      → step num env client (turn id t) (alone phase c)
        ≡ put num env client id
            (take_turn num env client id t
              (record { phase = phase; client_id = client_id; pipe = ipc c.reader c.written })
              c.server)
            (alone phase c).links
  unfolding step get
  alone_turn t phase c = rw (==_refl id) refl

  put_flow :
      (f : Ipc.Flow num.Number) (l : Link)
      → put num env client id (ipc_flow num env client client_id f) ((id, l) ∷ [])
        ≡ elim f [ Ipc.continue d ↦ alone running d | Ipc.break d ↦ alone closing d ]
  unfolding insert
  put_flow (Ipc.continue d) l = rw (==_refl id) refl
  put_flow (Ipc.break d) l = rw (==_refl id) refl

  -- Behind the loop only the clean-up does something.
  closed_loop :
      (ks : List Ipc.Round) (c : Ipc.Conn num.Number)
      → (run num env client (loop_turns id ks) (alone closing c)).server
        ≡ unregister_socket id c.server
  unfolding run take_turn on_finish on_ipc_round insert
  closed_loop [] c = ap (λ (s : System num.Number). s.server) (alone_turn finish closing c)
  closed_loop (k ∷ ks) c =
      ap (λ s. (run num env client (loop_turns id ks) s).server)
        (alone_turn (ipc_round k) closing c ∙ rw (==_refl id) refl)
      ∙ closed_loop ks c

  open_loop :
      (ks : List Ipc.Round) (c : Ipc.Conn num.Number)
      → (Ipc.main_loop num (env id) id client_id ks c).0 ≡ true
      → (run num env client (loop_turns id ks) (alone running c)).server
        ≡ (Ipc.main_loop num (env id) id client_id ks c).1.server
  unfolding run Ipc.main_loop take_turn on_ipc_round
  open_loop [] c h = cc
  open_loop (k ∷ ks) c h =
      ap (λ s. (run num env client (loop_turns id ks) s).server)
        (alone_turn (ipc_round k) running c ∙ put_flow (Ipc.round num (env id) id client_id k c) _)
      ∙ go (Ipc.round num (env id) id client_id k c) h (open_loop ks)
    where
      go :
          (f : Ipc.Flow num.Number)
          → (Ipc.after_round num
              (env id)
              id
              client_id
              (Ipc.main_loop num (env id) id client_id ks)
              f).0
            ≡ true
          → ((d : Ipc.Conn num.Number)
              → (Ipc.main_loop num (env id) id client_id ks d).0 ≡ true
              → (run num env client (loop_turns id ks) (alone running d)).server
                ≡ (Ipc.main_loop num (env id) id client_id ks d).1.server)
          → (run num env client
              (loop_turns id ks)
              (elim f [ Ipc.continue d ↦ alone running d | Ipc.break d ↦ alone closing d ])).server
            ≡ (Ipc.after_round num
                (env id)
                id
                client_id
                (Ipc.main_loop num (env id) id client_id ks)
                f).1.server
      go (Ipc.continue d) h rec = rec d h
      go (Ipc.break d) h rec = closed_loop ks d

  -- Without the connection nothing happens.
  gone_loop :
      (ks : List Ipc.Round) (server : ServerState num.Number)
      → (run num env client (loop_turns id ks) (record { server = server; links = [] })).server
        ≡ server
  unfolding run step get
  gone_loop [] server = refl
  gone_loop (k ∷ ks) server = gone_loop ks server

-- An accepted handshake.
accepted_lem :
    (num : Numbers) (env : Ipc.Env num) (ks : List Ipc.Round) (c : Ipc.Conn num.Number) (op : ℕ)
    (body rest : Bytes) (h : Handshake)
    → read_frame c.reader ≡ some ((op, body), rest)
    → from_i32 op ≡ some handshake
    → env.parse_handshake body ≡ some h
    → (h.v == 1) ≡ true
    → Ipc.handle_ipc_io num env ks c ≡ (
        if env.write_ok c.written ready_frame
        then Ipc.main_loop num env (next_id c.server).0 h.client_id ks (record {
          reader = rest;
          written = c.written ++ ready_frame ∷ [];
          server = register_socket (next_id c.server).0 new_channel (next_id c.server).1;
        })
        else (
          true,
          record {
            reader = rest;
            written = Ipc.cut env c.written ready_frame;
            server = (next_id c.server).1;
          },
        ))
unfolding Ipc.handle_ipc_io
accepted_lem num env ks c op body rest h e1 e2 e3 e4 = rw (e1, e2, e3, e4) refl

module _ (num : Numbers) (env : ℕ → Ipc.Env num) (client : ℕ → Websocket.Client num.Number)
    (ks : List Ipc.Round) (client_id : String) (c : Ipc.Conn num.Number) where
  abbrev id : ℕ
  id = c.server.next_socket_id

  -- What an accepted connection does, and whether it has ended.
  abbrev served : Bool × Ipc.Conn num.Number
  served =
      if (env id).write_ok c.written ready_frame
      then Ipc.main_loop num (env id) id client_id ks (record {
        reader = c.reader;
        written = c.written ++ ready_frame ∷ [];
        server = register_socket id new_channel (next_id c.server).1;
      })
      else (
        true,
        record {
          reader = c.reader;
          written = Ipc.cut (env id) c.written ready_frame;
          server = (next_id c.server).1;
        },
      )

  served_alone :
      served.0 ≡ true
      → (run num env client
          (lifetime id client_id c ks)
          (record { server = c.server; links = [] })).server
        ≡ served.1.server
  unfolding run step insert next_id remove take_turn on_start
  served_alone ended =
      let connected : Ipc.Conn num.Number = record c { server = (next_id c.server).1 } in
      let opened = alone num env client id client_id opening connected in
      elim (Bool-cases ((env id).write_ok c.written ready_frame)) [
        | inl e ↦
            let c' : Ipc.Conn num.Number = record {
              reader = c.reader;
              written = c.written ++ ready_frame ∷ [];
              server = register_socket id new_channel connected.server;
            } in
            let begun : step num env client (turn id start) opened
                ≡ alone num env client id client_id running c' =
              alone_turn num env client id client_id start opening connected
              ∙ rw (e, ==_refl id) refl in
            ap (λ s. (run num env client (loop_turns id ks) s).server) begun
            ∙ rw e (open_loop num env client id client_id ks c' (rw e at ended))
        | inr e ↦
            let refused : step num env client (turn id start) opened
                ≡ record { server = connected.server; links = [] } =
              alone_turn num env client id client_id start opening connected
              ∙ rw (e, ==_refl id) refl in
            ap (λ s. (run num env client (loop_turns id ks) s).server) refused
            ∙ rw e (gone_loop num env client id client_id ks connected.server)
      ]

-- A client with an accepted handshake, alone in the program: where `handle_ipc_io` has ended after these
-- rounds, the events of its life (it connects, is started, goes through these rounds and is cleaned up)
-- leave the same server.
pub lifetime-handle_ipc_io :
    (num : Numbers) (env : ℕ → Ipc.Env num) (client : ℕ → Websocket.Client num.Number)
    (ks : List Ipc.Round) (c : Ipc.Conn num.Number) (op : ℕ) (body rest : Bytes) (h : Handshake)
    → read_frame c.reader ≡ some ((op, body), rest)
    → from_i32 op ≡ some handshake
    → (env c.server.next_socket_id).parse_handshake body ≡ some h
    → (h.v == 1) ≡ true
    → (Ipc.handle_ipc_io num (env c.server.next_socket_id) ks c).0 ≡ true
    → (run num env client
        (lifetime c.server.next_socket_id h.client_id (record c { reader = rest }) ks)
        (record { server = c.server; links = [] })).server
      ≡ (Ipc.handle_ipc_io num (env c.server.next_socket_id) ks c).1.server
unfolding next_id
lifetime-handle_ipc_io num env client ks c op body rest h e1 e2 e3 e4 ended =
    let same = accepted_lem num (env c.server.next_socket_id) ks c op body rest h e1 e2 e3 e4 in
    served_alone num env client ks h.client_id (record c { reader = rest })
      (sym (ap (λ r. r.0) same) ∙ ended)
    ∙ sym (ap (λ r. r.1.server) same)
