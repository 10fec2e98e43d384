-- ===== src/Tests/Presence.antt =====
-- Tests of the way of an activity to the bridge.
use dirpc.Prelude.{some, [], ◌∷◌, ◌++◌, nat_eq, string_eq, ◌≡◌, refl}
use dirpc.Prelude.Int.{ℤ, pos}
use dirpc.Prelude.Assoc.{get}
use dirpc.Types.{ActivityEvent}
use dirpc.Server.State.{new, next_id}
use dirpc.Server.Handle.Tells.{IsTold}
use dirpc.Server.Handle.Answer.{answer}
use dirpc.Bridge
use dirpc.Bridge.{feed}
use dirpc.Presence.{IsForgotten, Serialises, received, shown, answer_shown}
use dirpc.Ipc.Connection.{handle_ipc_io}
use dirpc.Ipc.Connection.Forgotten.{handle_ipc_io-IsForgotten}
use dirpc.Tests.{integers, fixed_text, env, short_visit, set_message}
use dirpc.Tests.Connection.{one_read, ended}

abbrev pub always : Serialises integers fixed_text
always = λ e. ("{}", refl)

nothing_yet : IsForgotten integers fixed_text 1 new
unfolding feed get
nothing_yet = refl

handle_ipc_io-IsForgotten_example :
    IsForgotten integers fixed_text
      (next_id short_visit.server).0
      (handle_ipc_io integers env one_read short_visit).1.server
unfolding next_id
handle_ipc_io-IsForgotten_example =
    handle_ipc_io-IsForgotten integers env always one_read short_visit nothing_yet ended

answer_shown_example :
    (e : ActivityEvent ℤ) × ((answer integers fixed_text 1 "42"
        (pos 5)
        (pos 6)
        (some set_message)
        new).sent
      ≡ new.sent ++ e ∷ [])
    × IsTold integers "42" (pos 5) (pos 6) 1 set_message e
    × (get 1
          (feed integers fixed_text
            (received
              (answer integers fixed_text 1 "42" (pos 5) (pos 6) (some set_message) new).sent)
            dirpc.Bridge.new).last_msgs
        ≡ shown e.activity "{}")
unfolding dirpc.Json.lookup
answer_shown_example =
    answer_shown integers fixed_text always 1 "42" (pos 5) (pos 6) set_message new refl
      (refl, (refl, tt))
