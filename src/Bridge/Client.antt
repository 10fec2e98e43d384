-- ===== src/Bridge/Client.antt =====
-- A bridge client, `handle_client` of src/bridge.rs: after the handshake it subscribes, is sent the
-- remembered messages, and then what the feeding task broadcasts.
pub mod World
pub mod Effects
pub mod Converge
use dirpc.Prelude.{
  ℕ, String, Bool, true, false, Option, none, some, List, [], ◌∷◌, ◌++◌, ◌≡◌, if◌then◌else◌, nat_eq,
}
use dirpc.Prelude.Assoc.{Assoc, insert, remove}
use dirpc.Json.{Numbers, Value}
use dirpc.Types.{ActivityEvent}
use dirpc.Bridge.{BridgeState, Received, ok, lagged, closed, remember}

-- What the client's own socket yields.
pub data Incoming : Type 0 where
  close_frame other_frame ended failed : Incoming

-- Which branch of `select!` is ready.
pub data Ready : Type 0 where
  broadcast : Received String → Ready
  incoming : Incoming → Ready

-- `last_msgs.iter().map(|(_, v)| v.clone())`
unfoldable pub values : Assoc ℕ String → List String
values [] = []
values ((k, v) ∷ m) = v ∷ values m

-- `accepts` tells whether the next write succeeds, given what was written before.
module _ (accepts : List String → String → Bool) where
  -- `for payload in &snapshot { writer.send(..).await? }`
  send_snapshot : List String → List String → Option (List String)
  send_snapshot [] written = some written
  send_snapshot (p ∷ ps) written =
      let rest = send_snapshot ps (written ++ p ∷ []) in if accepts written p then rest else none

  -- the loop; its result is all that was written
  client_loop : List Ready → List String → List String
  client_loop [] written = written
  client_loop (broadcast (ok p) ∷ rest) written =
      let more = client_loop rest (written ++ p ∷ []) in if accepts written p then more else written
  client_loop (broadcast (lagged n) ∷ rest) written = client_loop rest written
  client_loop (broadcast closed ∷ rest) written = written
  client_loop (incoming close_frame ∷ rest) written = written
  client_loop (incoming ended ∷ rest) written = written
  client_loop (incoming failed ∷ rest) written = written
  client_loop (incoming other_frame ∷ rest) written = client_loop rest written

  -- The client after its handshake, with the messages remembered at that time. `none`: a write of
  -- the snapshot failed.
  unfoldable pub handle_client : BridgeState → List Ready → Option (List String)
  unfolding send_snapshot client_loop values
  handle_client s ready = elim (send_snapshot (values s.last_msgs) []) [
    | none ↦ none
    | some written ↦ some (client_loop ready written)
  ]
