-- ===== src/Server/Handle.antt =====
-- `ServerState::handle_message` of src/server.rs, the whole handler.
pub mod Effects
pub mod Tells
pub mod Answer
pub mod Closed
pub mod Keeps
pub mod Agrees
pub mod Reaches
use dirpc.Prelude.{
  ℕ, ◌%◌, ◌^◌, String, Bool, Option, none, some, ◌>>=◌, if◌then◌else◌, ◌==◌, string_eq,
}
use dirpc.Prelude.Int.{ℤ}
use dirpc.Json.{
  Numbers, Value, Items, Fields, null, bool, number, string, array, object, end, field, get,
  as_number,
}
use dirpc.Types.{RpcMessage, ActivityEvent}
use dirpc.Server.State.{ServerState, broadcast}
use dirpc.Server.Activity.{
  map_buttons, translate_timestamps, full_activity, resp_data, object_or_empty,
}

module _ (num : Numbers) where
  abbrev J : Type 0
  J = Value num.Number

  -- A text or `null`, as `json!` renders an `Option`.
  abbrev pub opt_string : Option String → J
  opt_string none = null
  opt_string (some t) = string t

  -- The envelope of every response.
  abbrev pub response : RpcMessage num.Number → J → J → J
  response msg payload evt = object (
      field "cmd" (string msg.cmd)
        (field "data" payload (field "evt" evt (field "nonce" (opt_string msg.nonce) end))))

  abbrev pub args_of : RpcMessage num.Number → J
  args_of msg = elim msg.args [ none ↦ null | some v ↦ v ]

  -- `v as u32` keeps the low 32 bits.
  abbrev pub pid_of : RpcMessage num.Number → Option ℕ
  pid_of msg = get "pid" (args_of msg) >>= as_number >>= num.as_u64 >>= λ n. some (n % 2 ^ 32)

  -- `None | Some(Value::Null)` clears the activity.
  abbrev pub raw_activity : RpcMessage num.Number → Option J
  raw_activity msg = elim (get "activity" (args_of msg)) [
    | none ↦ none
    | some v ↦ elim v [
      | null ↦ none
      | bool b ↦ some (bool b)
      | number n ↦ some (number n)
      | string t ↦ some (string t)
      | array xs ↦ some (array xs)
      | object m ↦ some (object m)
    ]
  ]

  -- The SET_ACTIVITY branch: the activity of the event and the data of the response.
  unfoldable pub set_activity : String → ℤ → ℤ → Option J → Option J × J
  set_activity client_id now now' none = (none, null)
  set_activity client_id now now' (some raw) =
      let canonical = object_or_empty num raw in
      let buttons = map_buttons num canonical in
      let translated = translate_timestamps num now now' canonical in
      (
        some (object (full_activity num client_id buttons translated)),
        object (resp_data num client_id translated),
      )

  -- `to_string` is `serde_json::to_string(..).ok()`; `now` and `now'` are what the clock shows.
  module _ (to_string : J → Option String) where
    unfoldable pub handle_message :
        ℕ
        → String
        → ℤ
        → ℤ
        → RpcMessage num.Number
        → ServerState num.Number
        → Option String × ServerState num.Number
    unfolding broadcast
    handle_message socket_id client_id now now' msg s =
        if msg.cmd == "SET_ACTIVITY"
        then (let (activity, payload) = set_activity client_id now now' (raw_activity msg) in
            (
              to_string (response msg payload null),
              broadcast (record { activity = activity; pid = pid_of msg; socket_id = socket_id }) s,
            ))
        else if msg.cmd == "CONNECTIONS_CALLBACK"
        then (
          to_string (
              response msg (object (field "code" (number (num.of_u64 1000)) end)) (string "ERROR")),
          s,
        )
        else (none, s)
