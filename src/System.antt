-- ===== src/System.antt =====
-- The program at work: any number of connections of both transports (src/transports) and the scanner
-- (src/process/mod.rs) over one server, interleaved. An accepted client is given its id; then READY is
-- written and its socket registered; then its loop runs in rounds until one ends it; then its socket is
-- unregistered. Each of these is one event, and so is each message that the scanner hands to the server:
-- a list of events is a schedule.
pub mod Turns
pub mod Owned
pub mod Views
pub mod Isolated
pub mod Forgotten
pub mod Alone
use dirpc.Prelude.{
  ℕ, String, Bool, true, false, Bytes, Option, none, some, List, [], ◌∷◌, ◌++◌, if◌then◌else◌,
  nat_eq,
}
use dirpc.Prelude.Int.{ℤ}
use dirpc.Prelude.Assoc.{Assoc, get, insert, remove}
use dirpc.Json.{Numbers}
use dirpc.Types.{RpcMessage}
use dirpc.Server.State
use dirpc.Server.State.{
  ServerState, new_channel, ready_payload, next_id, register_socket, unregister_socket,
}
use dirpc.Server.Handle.{handle_message}
use dirpc.Ipc.Connection as Ipc
use dirpc.Ipc.Connection.{ready_frame}
use dirpc.Websocket.Connection as Websocket

-- Before the registration, in the loop, and between the loop and the clean-up.
pub data Phase : Type 0 where
  opening running closing : Phase

-- What the client has sent and the server has not read, and what the server has written.
pub data Pipe : Type 0 where
  ipc : Bytes → List Bytes → Pipe
  websocket : List Websocket.Inbound → List String → Pipe

pub record Link : Type 0 where
  pub phase : Phase
  pub client_id : String
  pub pipe : Pipe

pub data Turn : Type 0 where
  start finish : Turn
  ipc_round : Ipc.Round → Turn
  websocket_round : Websocket.Round → Turn
  ipc_bytes : Bytes → Turn
  websocket_message : Websocket.Inbound → Turn

pub data Event (N : Type 0) : Type 0 where
  connect : String → Pipe → Event N
  turn : ℕ → Turn → Event N
  scanned : String → ℤ → ℤ → RpcMessage N → Event N

pub record System (N : Type 0) : Type 0 where
  pub server : ServerState N
  pub links : Assoc ℕ Link

abbrev pub initial : {N : Type 0} → System N
initial = record { server = State.new; links = [] }

-- What serde_json and the writes of each connection answer.
module _ (num : Numbers) (env : ℕ → Ipc.Env num) (client : ℕ → Websocket.Client num.Number) where
  -- A connection after its turn, `none` once it is gone, and the server.
  abbrev Result : Type 0
  Result = Option Link × ServerState num.Number

  abbrev linked : Phase → String → Pipe → Link
  linked phase client_id pipe = record { phase = phase; client_id = client_id; pipe = pipe }

  abbrev same : Phase → String → Pipe → ServerState num.Number → Result
  same phase client_id pipe s = (some (linked phase client_id pipe), s)

  -- READY, then the registration
  on_start : ℕ → Phase → String → Pipe → ServerState num.Number → Result
  on_start id opening client_id (ipc reader written) s =
      if (env id).write_ok written ready_frame
      then (
        some (linked running client_id (ipc reader (written ++ ready_frame ∷ []))),
        register_socket id new_channel s,
      )
      else (none, s)
  on_start id opening client_id (websocket reader sent) s =
      if (client id).send_ok sent ready_payload
      then (
        some (linked running client_id (websocket reader (sent ++ ready_payload ∷ []))),
        register_socket id new_channel s,
      )
      else (none, s)
  on_start id running client_id pipe s = same running client_id pipe s
  on_start id closing client_id pipe s = same closing client_id pipe s

  abbrev ipc_flow : String → Ipc.Flow num.Number → Result
  ipc_flow client_id (Ipc.continue c) =
      (some (linked running client_id (ipc c.reader c.written)), c.server)
  ipc_flow client_id (Ipc.break c) =
      (some (linked closing client_id (ipc c.reader c.written)), c.server)

  on_ipc_round : ℕ → Ipc.Round → Phase → String → Pipe → ServerState num.Number → Result
  on_ipc_round id k running client_id (ipc reader written) s = ipc_flow client_id (
      Ipc.round num (env id) id client_id k
        (record { reader = reader; written = written; server = s }))
  on_ipc_round id k running client_id (websocket reader sent) s =
      same running client_id (websocket reader sent) s
  on_ipc_round id k opening client_id pipe s = same opening client_id pipe s
  on_ipc_round id k closing client_id pipe s = same closing client_id pipe s

  abbrev websocket_flow : String → Websocket.Flow num.Number → Result
  websocket_flow client_id (Websocket.continue c) =
      (some (linked running client_id (websocket c.reader c.sent)), c.server)
  websocket_flow client_id (Websocket.break c) =
      (some (linked closing client_id (websocket c.reader c.sent)), c.server)

  on_websocket_round : ℕ → Websocket.Round → Phase → String → Pipe → ServerState num.Number → Result
  on_websocket_round id k running client_id (websocket reader sent) s = websocket_flow client_id (
      Websocket.round num (client id) id client_id k
        (record { reader = reader; sent = sent; server = s }))
  on_websocket_round id k running client_id (ipc reader written) s =
      same running client_id (ipc reader written) s
  on_websocket_round id k opening client_id pipe s = same opening client_id pipe s
  on_websocket_round id k closing client_id pipe s = same closing client_id pipe s

  on_finish : ℕ → Phase → String → Pipe → ServerState num.Number → Result
  on_finish id closing client_id pipe s = (none, unregister_socket id s)
  on_finish id opening client_id pipe s = same opening client_id pipe s
  on_finish id running client_id pipe s = same running client_id pipe s

  -- The client sends more.
  abbrev ipc_arrives : Bytes → Pipe → Pipe
  ipc_arrives more (ipc reader written) = ipc (reader ++ more) written
  ipc_arrives more (websocket reader sent) = websocket reader sent

  abbrev websocket_arrives : Websocket.Inbound → Pipe → Pipe
  websocket_arrives m (ipc reader written) = ipc reader written
  websocket_arrives m (websocket reader sent) = websocket (reader ++ m ∷ []) sent

  unfoldable pub take_turn : ℕ → Turn → Link → ServerState num.Number → Result
  unfolding on_start on_ipc_round on_websocket_round on_finish
  take_turn id start l s = on_start id l.phase l.client_id l.pipe s
  take_turn id finish l s = on_finish id l.phase l.client_id l.pipe s
  take_turn id (ipc_round k) l s = on_ipc_round id k l.phase l.client_id l.pipe s
  take_turn id (websocket_round k) l s = on_websocket_round id k l.phase l.client_id l.pipe s
  take_turn id (ipc_bytes more) l s = (some (record l { pipe = ipc_arrives more l.pipe }), s)
  take_turn id (websocket_message m) l s =
      (some (record l { pipe = websocket_arrives m l.pipe }), s)

  abbrev pub put : ℕ → Result → Assoc ℕ Link → System num.Number
  put id (none, server) links = record { server = server; links = remove id links }
  put id (some l, server) links = record { server = server; links = insert id l links }

  abbrev pub with_link : ℕ → Turn → Option Link → System num.Number → System num.Number
  with_link id t none s = s
  with_link id t (some l) s = put id (take_turn id t l s.server) s.links

  unfoldable pub step : Event num.Number → System num.Number → System num.Number
  step (connect client_id pipe) s =
      let (id, server) = next_id s.server in
      record { server = server; links = insert id (linked opening client_id pipe) s.links }
  step (turn id t) s = with_link id t (get id s.links) s
  step (scanned client_id now now' msg) s = record s {
    server = (handle_message num (env 0).to_string 0 client_id now now' msg s.server).1;
  }

  unfoldable pub run : List (Event num.Number) → System num.Number → System num.Number
  run [] s = s
  run (e ∷ es) s = run es (step e s)
