-- ===== src/Server/Handle/Reaches.antt =====
-- What a transport does with a message, and with its queue, are steps of the server.
use dirpc.Prelude.{ℕ, ◌+◌, ◌<◌, ◌^◌, String, some, nat_eq, string_eq, ◌≡◌, ◌∙◌, arith}
use dirpc.Prelude.Assoc.{get}
use dirpc.Server.State.{ServerState, Channel, new_channel, next_id, register_socket, pop}
use dirpc.Server.State.Reach.{Reach, next, allocate, register, send, receive, emit, recv-pop}
use dirpc.Server.Handle.Closed.{IsClosed}

-- A text that is taken from a registered socket's queue.
pop-Reach :
    {N : Type 0} (id : ℕ) (c : Channel) (s s' : ServerState N) (msg : String)
    → get id s.sockets ≡ some c
    → pop id c c.queue s ≡ some (msg, s')
    → Reach s
    → Reach s'
pop-Reach id c s s' msg e p r = next r (receive s id msg s' (recv-pop s id c e ∙ p))

-- The new id, and its registration.
pub next_id-Reach :
    {N : Type 0} (s : ServerState N) → s.next_socket_id + 1 < 2 ^ 64 → Reach s → Reach (next_id s).1
next_id-Reach s room r = next r (allocate s room)

pub registered-Reach :
    {N : Type 0} (s : ServerState N)
    → s.next_socket_id + 1 < 2 ^ 64
    → Reach s
    → Reach (register_socket (next_id s).0 new_channel (next_id s).1)
unfolding next_id
registered-Reach s room r =
    next (next_id-Reach s room r) (register (next_id s).1 s.next_socket_id (omega arith))

-- The three effects of a round are steps.
pub Reach-IsClosed : {N : Type 0} (id : ℕ) → IsClosed {N = N} id Reach
Reach-IsClosed id = record {
  emits = λ s e own r. next r (emit s e);
  sends = λ s msg r. next r (send s id msg);
  pops = λ s s' c msg e p r. pop-Reach id c s s' msg e p r;
}
