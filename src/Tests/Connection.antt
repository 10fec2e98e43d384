-- ===== src/Tests/Connection.antt =====
-- Tests of the IPC connection.
use dirpc.Prelude.{◌≡◌, some, List, [], ◌∷◌, true, false, refl, arith, nat_eq}
use dirpc.Prelude.Int.{ℤ, pos}
use dirpc.Prelude.Assoc.{get}
use dirpc.Types.{IpcOpcode, ping, frame, as_i32}
use dirpc.Words.{as_bytes}
use dirpc.Ipc.Codec.{encode}
use dirpc.Ipc.Connection.{
  Conn, Round, inbound, outbound, continue, break, round, main_loop, handle_ipc_io,
}
use dirpc.Ipc.Connection.Close.{handle_ipc_io_restores}
use dirpc.Ipc.Connection.Frames.{interrupted_ping}
use dirpc.Ipc.Connection.Drain.{frame_of, main_loop_drains}
use dirpc.Tests.{integers, env, short_visit}

-- A client behind its handshake that has sent a PING, with a text for it in its queue.
abbrev pinging : Conn ℤ
pinging = record {
  reader = encode (as_i32 ping) [];
  written = [];
  server = record {
    next_socket_id = 2;
    sent = [];
    sockets = (1, record { queue = "hello" ∷ []; closed = false }) ∷ [];
  };
}

abbrev pub one_read : List Round
one_read = inbound (pos 5) (pos 6) ∷ []

pub ended : (handle_ipc_io integers env one_read short_visit).0 ≡ true
unfolding handle_ipc_io main_loop dirpc.Ipc.Codec.read_frame encode dirpc.Words.to_le_bytes
    dirpc.Words.from_le_bytes as_bytes dirpc.Types.from_i32
ended = refl

handle_ipc_io_restores_example :
    get 1 (handle_ipc_io integers env one_read short_visit).1.server.sockets
    ≡ get 1 short_visit.server.sockets
unfolding get
handle_ipc_io_restores_example =
    handle_ipc_io_restores integers env one_read short_visit refl ended 1

interrupted_ping_example :
    (d : Conn ℤ) × (round integers env 1 "42" (outbound 4) pinging ≡ continue d)
    × (d.written ≡ encode (as_i32 frame) (as_bytes "hello") ∷ [])
    × (round integers env 1 "42" (inbound (pos 5) (pos 6)) d ≡ break d)
unfolding get
interrupted_ping_example =
    interrupted_ping integers env 1 "42" (pos 5) (pos 6) 4 pinging
      (record { queue = "hello" ∷ []; closed = false }) "hello" [] (omega arith) (omega arith) refl
      refl refl refl

main_loop_drains_example :
    (d : Conn ℤ) × (main_loop integers env 1 "42" (outbound 3 ∷ []) pinging ≡ (false, d))
    × (d.written ≡ frame_of "hello" ∷ [])
    × (get 1 d.server.sockets ≡ some (record { queue = []; closed = false }))
unfolding get
main_loop_drains_example =
    main_loop_drains integers env 1 "42" (λ w b. refl) ("hello" ∷ []) (3 ∷ []) pinging
      (record { queue = "hello" ∷ []; closed = false }) refl refl refl
