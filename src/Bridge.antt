-- ===== src/Bridge.antt =====
-- The bridge, src/bridge.rs: the task that feeds activity events to the last messages and to the
-- connected clients. `last_msgs` maps a socket id to its last message; the broadcast sender is the
-- list of what was sent.
pub mod Feed
pub mod Accept
pub mod Client
use Prim.Native.String
use dirpc.Prelude.{
  ℕ, zero, suc, ◌+◌, ◌/◌, ◌%◌, String, Bool, Option, none, some, List, [], ◌∷◌, ◌++◌, ltb,
  if◌then◌else◌, ◌==◌, nat_eq,
}
use dirpc.Prelude.Assoc.{Assoc, insert, remove}
use dirpc.Json.{Numbers, Value, null, string, number, object, end, field}
use dirpc.Types.{ActivityEvent}

pub record BridgeState : Type 0 where
  pub last_msgs : Assoc ℕ String
  pub sent : List String

-- `BridgeState::new()`
abbrev pub new : BridgeState
new = record { last_msgs = []; sent = [] }

-- What `broadcast::Receiver::recv` yields.
pub data Received {ℓ} (A : Type ℓ) : Type ℓ where
  ok : A → Received A
  lagged : ℕ → Received A
  closed : Received A

-- `u64::to_string`, with fuel for twenty digits
unfoldable pub digit_text : ℕ → String
digit_text d =
    if d == 0
    then "0"
    else if d == 1
    then "1"
    else if d == 2
    then "2"
    else if d == 3
    then "3"
    else if d == 4
    then "4"
    else if d == 5
    then "5"
    else if d == 6
    then "6"
    else if d == 7
    then "7"
    else if d == 8
    then "8"
    else "9"

unfoldable pub decimal_loop : ℕ → ℕ → String
decimal_loop zero n = ""
decimal_loop (suc fuel) n =
    let front = decimal_loop fuel (n / 10) in
    if ltb n 10 then digit_text n else String.◌++◌ front (digit_text (n % 10))

unfoldable pub decimal : ℕ → String
unfolding decimal_loop digit_text
decimal n = decimal_loop 20 n

module _ (num : Numbers) where
  abbrev pub opt_value : Option (Value num.Number) → Value num.Number
  opt_value none = null
  opt_value (some v) = v

  abbrev opt_number : Option ℕ → Value num.Number
  opt_number none = null
  opt_number (some n) = number (num.of_u64 n)

  -- The message for the clients.
  unfoldable pub bridge_msg : ActivityEvent num.Number → Value num.Number
  bridge_msg event = object (
      field "activity" (opt_value event.activity) (
        field "pid" (opt_number event.pid)
          (field "socketId" (string (decimal event.socket_id)) end)))

  -- An event without activity forgets its socket's message.
  unfoldable pub remember : ℕ → Option (Value num.Number) → String → Assoc ℕ String → Assoc ℕ String
  remember key none json last_msgs = remove key last_msgs
  remember key (some _) json last_msgs = insert key json last_msgs

  module _ (to_string : Value num.Number → Option String) where
    publish : ActivityEvent num.Number → Option String → BridgeState → BridgeState
    publish event none s = s
    publish event (some json) s = record {
      last_msgs = remember event.socket_id event.activity json s.last_msgs;
      sent = s.sent ++ json ∷ [];
    }

    -- One event. One that cannot be serialised is skipped.
    unfoldable pub handle_event : ActivityEvent num.Number → BridgeState → BridgeState
    unfolding remember publish
    handle_event event s = publish event (to_string (bridge_msg event)) s

    -- The feeding task, over what its receiver yields.
    unfoldable pub feed : List (Received (ActivityEvent num.Number)) → BridgeState → BridgeState
    feed [] s = s
    feed (ok event ∷ rest) s = feed rest (handle_event event s)
    feed (lagged n ∷ rest) s = feed rest s
    feed (closed ∷ rest) s = s
