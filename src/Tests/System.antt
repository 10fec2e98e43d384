-- ===== src/Tests/System.antt =====
-- Tests of the program at work: an IPC client and a WebSocket client at once.
use dirpc.Prelude.{
  ℕ, ◌≤◌, arith, false, codes, some, is_some, List, [], ◌∷◌, ◌++◌, length, nat_eq, ◌≡◌, ◌≢◌, refl,
}
use dirpc.Prelude.Int.{ℤ, pos}
use dirpc.Prelude.Assoc.{get}
use dirpc.Words.{as_bytes}
use dirpc.Types.{frame, as_i32, from_i32}
use dirpc.Ipc.Codec.{encode, read_frame}
use dirpc.Ipc.Connection as Ipc
use dirpc.Ipc.Connection.{handle_ipc_io}
use dirpc.Websocket.Connection as Websocket
use dirpc.Server.State.{Channel, next_id, socket_queue_capacity}
use dirpc.System.{
  ipc, websocket, start, finish, ipc_round, websocket_round, Event, connect, turn, System, initial,
  run,
}
use dirpc.System.Turns.{has_socket}
use dirpc.System.Owned.{run_owned}
use dirpc.System.Isolated.{seen_of, own_turns, run-own_turns}
use dirpc.System.Forgotten.{run-IsForgotten}
use dirpc.Presence.{IsForgotten}
use dirpc.Tests.{integers, fixed_text, env}
use dirpc.Tests.Presence.{always}
use dirpc.Tests.Websocket.{client}

abbrev envs : ℕ → Ipc.Env integers
envs id = env

abbrev clients : ℕ → Websocket.Client ℤ
clients id = client

abbrev both : List (Event ℤ)
both =
    connect "42" (ipc (encode (as_i32 frame) (as_bytes "{}")) [])
    ∷ connect "43" (websocket (Websocket.text (codes "{}") ∷ Websocket.close ∷ []) [])
    ∷ []

-- Both are started, the two sets of rounds are mixed, and the first ends.
abbrev mixed : List (Event ℤ)
mixed =
    turn 2 start
    ∷ turn 1 start
    ∷ turn 2 (websocket_round (Websocket.inbound (pos 5) (pos 6)))
    ∷ turn 1 (ipc_round (Ipc.inbound (pos 5) (pos 6)))
    ∷ turn 2 (websocket_round Websocket.outbound)
    ∷ turn 1 (ipc_round (Ipc.inbound (pos 7) (pos 8)))
    ∷ turn 1 finish
    ∷ []

run_owned_example :
    let s = run integers envs clients (both ++ mixed) initial in
    ((id : ℕ) → is_some (get id s.server.sockets) ≡ has_socket (get id s.links))
    × ((id : ℕ) (c : Channel)
        → get id s.server.sockets ≡ some c
        → length c.queue ≤ socket_queue_capacity)
    × (is_some (get (next_id s.server).0 s.links) ≡ false)
run_owned_example = run_owned integers envs clients (both ++ mixed) (omega arith)

abbrev connected : System ℤ
connected = run integers envs clients both initial

third : connected.server.next_socket_id ≡ 3
unfolding run dirpc.System.step next_id
third = refl

run-own_turns_example :
    seen_of 1 (run integers envs clients mixed connected)
    ≡ seen_of 1 (run integers envs clients (own_turns 1 mixed) connected)
run-own_turns_example =
    run-own_turns integers envs clients 1 mixed connected (omega (arith, third))
      (omega (arith, third))

-- The IPC client has come, sent its activity and gone; the WebSocket client is still in its loop.
left : has_socket (get 1 (run integers envs clients (both ++ mixed) initial).links) ≡ false
unfolding run dirpc.System.step get dirpc.Prelude.Assoc.insert dirpc.Prelude.Assoc.remove next_id
    dirpc.System.take_turn Websocket.round Ipc.round read_frame dirpc.Ipc.Codec.read_exact encode
    dirpc.Words.to_le_bytes as_bytes dirpc.Words.from_le_bytes from_i32
    dirpc.Server.Handle.Answer.answer dirpc.Server.Handle.handle_message
    dirpc.Server.State.send_to_socket dirpc.Server.State.register_socket
    dirpc.Server.State.unregister_socket dirpc.Server.State.pop
left = refl

run-IsForgotten_example :
    IsForgotten integers fixed_text 1 (run integers envs clients (both ++ mixed) initial).server
run-IsForgotten_example =
    run-IsForgotten integers envs clients fixed_text always (both ++ mixed) (omega arith) 1
      (omega arith) left
