-- ===== src/Server/State.antt =====
-- `ServerState` of src/server.rs and its socket operations. The broadcast sender is the list of the
-- events that were sent; the result of `send` is ignored by the source. Each registered socket owns
-- the sending half of a bounded channel, whose queue is kept with it.
pub mod Sockets
pub mod Reach
use dirpc.Prelude.{
  ℕ, ◌+◌, ◌%◌, ◌^◌, ◌≤◌, String, Bool, true, false, Option, none, some, List, [], ◌∷◌, ◌++◌, length,
  leb, if◌then◌else◌, nat_eq,
}
use dirpc.Prelude.Assoc.{Assoc, get, insert, remove}
use dirpc.Types.{ActivityEvent}

abbrev pub socket_queue_capacity : ℕ
socket_queue_capacity = 128

-- `READY_PAYLOAD`
abbrev pub ready_payload : String
ready_payload =
    "{\"cmd\":\"DISPATCH\",\"data\":{\"v\":1,\"config\":{\"cdn_host\":\"cdn.discordapp.com\",\"api_endpoint\":\"//discord.com/api\",\"environment\":\"production\"},\"user\":{\"id\":\"1045800378228281345\",\"username\":\"arrpc\",\"discriminator\":\"0\",\"global_name\":\"arRPC\",\"avatar\":\"cfefa4d9839fb4bdf030f91c2a13e95c\",\"avatar_decoration_data\":null,\"bot\":false,\"flags\":0,\"premium_type\":0}},\"evt\":\"READY\",\"nonce\":null}"

-- An `mpsc` channel: what is queued, oldest first, and whether its receiver is gone.
pub record Channel : Type 0 where
  pub queue : List String
  pub closed : Bool

-- `mpsc::channel(SOCKET_QUEUE_CAPACITY)`
abbrev pub new_channel : Channel
new_channel = record { queue = []; closed = false }

pub record ServerState (N : Type 0) : Type 0 where
  pub next_socket_id : ℕ
  pub sent : List (ActivityEvent N)
  pub sockets : Assoc ℕ Channel

-- `try_send` drops the message if the channel is closed or full.
pub try_send : Channel → String → Channel
try_send c msg =
    if c.closed
    then c
    else if leb socket_queue_capacity (length c.queue)
    then c
    else record c { queue = c.queue ++ msg ∷ [] }

module _ {N : Type 0} where
  abbrev pub new : ServerState N
  new = record { next_socket_id = 1; sent = []; sockets = [] }

  -- `activity_tx.send(event)`
  unfoldable pub broadcast : ActivityEvent N → ServerState N → ServerState N
  broadcast event s = record s { sent = s.sent ++ event ∷ [] }

  -- `fetch_add(1)` on an AtomicU64 wraps.
  unfoldable pub next_id : ServerState N → ℕ × ServerState N
  next_id s = (s.next_socket_id, record s { next_socket_id = (s.next_socket_id + 1) % 2 ^ 64 })

  unfoldable pub register_socket : ℕ → Channel → ServerState N → ServerState N
  register_socket socket_id tx s = record s { sockets = insert socket_id tx s.sockets }

  unfoldable pub unregister_socket : ℕ → ServerState N → ServerState N
  unfolding broadcast
  unregister_socket socket_id s =
      broadcast (record { activity = none; pid = none; socket_id = socket_id })
        (record s { sockets = remove socket_id s.sockets })

  unfoldable pub send_to_socket : ℕ → String → ServerState N → ServerState N
  unfolding try_send
  send_to_socket socket_id msg s = elim (get socket_id s.sockets) [
    | none ↦ s
    | some tx ↦ record s { sockets = insert socket_id (try_send tx msg) s.sockets }
  ]

  unfoldable pub pop : ℕ → Channel → List String → ServerState N → Option (String × ServerState N)
  pop socket_id c [] s = none
  pop socket_id c (msg ∷ rest) s =
      some (msg, record s { sockets = insert socket_id (record c { queue = rest }) s.sockets })

  -- `rx.recv()` of the connection that holds the receiver: `none` while nothing is queued, or when
  -- the sender is gone.
  unfoldable pub recv : ℕ → ServerState N → Option (String × ServerState N)
  unfolding pop
  recv socket_id s = elim (get socket_id s.sockets) [
    | none ↦ none
    | some c ↦ pop socket_id c c.queue s
  ]
