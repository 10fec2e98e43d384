-- ===== src/Tests/Server.antt =====
-- Tests of the server state, the clock and the message handler.
use dirpc.Prelude.{
  ◌≡◌, ◌^◌, ◌++◌, string_eq, nat_eq, some, List, refl, arith, length, ltb, if◌then◌else◌, All,
}
use dirpc.Prelude.Int.{ℤ, pos, unsigned_abs}
use dirpc.Types.{ActivityEvent}
use dirpc.Server.Time.{digit_count, maybe_to_ms, times_1000}
use dirpc.Server.Time.Scale.{maybe_to_ms_today}
use dirpc.Server.State.{ServerState, new, new_channel, next_id, register_socket}
use dirpc.Server.Handle.{handle_message}
use dirpc.Server.Handle.Tells.{IsTold, handle_message_tells}
use dirpc.Tests.{integers, fixed_text, set_message}

maybe_to_ms_test : maybe_to_ms (pos 1700000000000) (pos 1600000000) ≡ pos 1600000000000
unfolding maybe_to_ms digit_count
maybe_to_ms_test = refl

maybe_to_ms_today_example : maybe_to_ms (pos 1700000000000) (pos 1600000000) ≡ (
    if ltb (unsigned_abs (pos 1600000000)) (10 ^ 10)
    then times_1000 (pos 1600000000)
    else pos 1600000000)
maybe_to_ms_today_example =
    maybe_to_ms_today 1700000000000 (pos 1600000000) (omega arith) (omega arith) (omega arith)

-- a server with one idle socket
abbrev one_socket : ServerState ℤ
one_socket = register_socket 1 new_channel (next_id new).1

handle_message_tells_example :
    (events : List (ActivityEvent ℤ)) × ((handle_message integers fixed_text 1 "42"
        (pos 5)
        (pos 6)
        set_message
        one_socket).1
      ≡ record one_socket { sent = one_socket.sent ++ events })
    × (length events ≡ 1)
    × All (IsTold integers "42" (pos 5) (pos 6) 1 set_message) events
unfolding dirpc.Json.lookup
handle_message_tells_example =
    handle_message_tells integers fixed_text 1 "42" (pos 5) (pos 6) set_message one_socket
      (refl, (refl, tt))

answered :
    (handle_message integers fixed_text 1 "42" (pos 5) (pos 6) set_message one_socket).0 ≡ some "{}"
unfolding handle_message
answered = refl
