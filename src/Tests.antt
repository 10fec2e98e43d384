-- ===== src/Tests.antt =====
-- Sample data for the tests: numbers, messages, connections.
mod Codec
mod Connection
mod Paths
mod Server
mod Activity
mod Bridge
mod Detect
mod Scanner
mod Websocket
mod Listen
mod Files
mod Payload
mod Presence
mod System
use Prim.Native.String
use dirpc.Prelude.{
  ℕ, zero, suc, String, Bool, true, false, Bytes, Option, none, some, is_some, List, [], ◌∷◌, ◌++◌,
  ◌==◌, nat_eq, refl,
}
use dirpc.Prelude.Int.{ℤ, pos, negsuc}
use dirpc.Json.{Numbers, Value, Fields, null, string, number, object, end, field}
use dirpc.Types.{RpcMessage, ActivityEvent, Handshake, as_i32, handshake, close}
use dirpc.Words.{as_bytes}
use dirpc.Ipc.Codec.{encode}
use dirpc.Server.State.{ServerState, new}
use dirpc.Ipc.Connection.{Env, Conn}

abbrev natural : ℤ → Option ℕ
natural (pos n) = some n
natural (negsuc n) = none

-- JSON numbers that are integers
abbrev pub integers : Numbers
integers = record {
  Number = ℤ;
  as_u64 = natural;
  as_i64 = λ z. some z;
  of_u64 = pos;
  of_i64 = λ z. z;
  as_i64-of_i64 = λ z. refl;
  as_u64-of_u64 = λ n. refl;
}

abbrev pub fixed_text : Value ℤ → Option String
fixed_text v = some "{}"

abbrev pub playing : Fields ℤ
playing =
    field "name" (string "chess")
      (field "timestamps" (object (field "start" (number (pos 1700000000)) end)) end)

abbrev pub set_message : RpcMessage ℤ
set_message = record {
  cmd = "SET_ACTIVITY";
  nonce = some "n1";
  args = some (object (field "pid" (number (pos 42)) (field "activity" (object playing) end)));
  payload = null;
  evt = none;
}

abbrev pub set_event : ActivityEvent ℤ
set_event = record { activity = some (object playing); pid = some 42; socket_id = 3 }

abbrev pub clear_event : ActivityEvent ℤ
clear_event = record { activity = none; pid = none; socket_id = 3 }

-- Every write succeeds, every frame holds the sample message, every handshake is of version 1.
abbrev pub env : Env integers
env = record {
  to_string = fixed_text;
  parse_message = λ b. some set_message;
  parse_handshake = λ b. some (record { v = 1; client_id = "42" });
  write_ok = λ written b. true;
  partial = λ written b. 0;
}

-- A client that shakes hands and leaves.
abbrev pub short_visit : Conn ℤ
short_visit = record {
  reader = encode (as_i32 handshake) (as_bytes "{}") ++ encode (as_i32 close) [];
  written = [];
  server = new;
}
