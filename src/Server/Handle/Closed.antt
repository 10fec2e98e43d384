-- ===== src/Server/Handle/Closed.antt =====
-- What a connection's round does to the server: it broadcasts events, queues texts for its own socket,
-- and takes texts from its own queue. Whatever these keep, a message keeps.
use dirpc.Prelude.{
  ℕ, ◌≤◌, String, Option, none, some, List, [], ◌∷◌, ◌++◌, append-nil, length, All, nat_eq,
  string_eq, ◌≡◌, sym, subst, arith,
}
use dirpc.Prelude.Int.{ℤ}
use dirpc.Prelude.Assoc.{get}
use dirpc.Json.{Numbers, Value}
use dirpc.Types.{RpcMessage, ActivityEvent}
use dirpc.Server.State.{ServerState, Channel, broadcast, send_to_socket, pop}
use dirpc.Server.Handle.{handle_message}
use dirpc.Server.Handle.Effects.{IsEventOf, handle_message_events}
use dirpc.Server.Handle.Answer.{reply, answer}

pub record IsClosed {N : Type 0} (id : ℕ) (P : ServerState N → Type 0) : Type 0 where
  pub emits : (s : ServerState N) (e : ActivityEvent N) → e.socket_id ≡ id → P s → P (broadcast e s)
  pub sends : (s : ServerState N) (msg : String) → P s → P (send_to_socket id msg s)
  pub pops :
      (s s' : ServerState N) (c : Channel) (msg : String)
      → get id s.sockets ≡ some c
      → pop id c c.queue s ≡ some (msg, s')
      → P s
      → P s'

module _ {N : Type 0} {id : ℕ} (P : ServerState N → Type 0) (closed : IsClosed id P) where
  events-closed :
      (s : ServerState N) (events : List (ActivityEvent N))
      → length events ≤ 1
      → All (λ e. e.socket_id ≡ id) events
      → P s
      → P (record s { sent = s.sent ++ events })
  events-closed s [] h own p = rw (append-nil s.sent) p
  events-closed s (e ∷ []) h (own, _) p = unfold broadcast in closed.emits s e own p
  events-closed s (e ∷ f ∷ es) h own p = absurd (omega arith)

own_events :
    (num : Numbers) (to_string : Value num.Number → Option String) (id : ℕ)
    (msg : RpcMessage num.Number) (es : List (ActivityEvent num.Number))
    → All (IsEventOf num to_string id msg) es
    → All (λ e. e.socket_id ≡ id) es
own_events num to_string id msg [] h = tt
own_events num to_string id msg (e ∷ es) (h, hs) = (h.socket, own_events num to_string id msg es hs)

module _ (num : Numbers) (to_string : Value num.Number → Option String) (socket_id : ℕ)
    (client_id : String) (P : ServerState num.Number → Type 0) (closed : IsClosed socket_id P) where
  reply-closed :
      (o : Option String) (s : ServerState num.Number)
      → P s
      → P (reply num to_string socket_id client_id o s)
  unfolding reply
  reply-closed none s p = p
  reply-closed (some resp) s p = closed.sends s resp p

  pub handle_message-closed :
      (now now' : ℤ) (msg : RpcMessage num.Number) (s : ServerState num.Number)
      → P s
      → P (handle_message num to_string socket_id client_id now now' msg s).1
  handle_message-closed now now' msg s p =
      let (events, state, count, own) =
        handle_message_events num to_string socket_id client_id now now' msg s in
      subst P (sym state) (
        events-closed P closed s events (ground (arith, count))
          (own_events num to_string socket_id msg events own) p)

  pub answer-closed :
      (now now' : ℤ) (m : Option (RpcMessage num.Number)) (s : ServerState num.Number)
      → P s
      → P (answer num to_string socket_id client_id now now' m s)
  unfolding answer
  answer-closed now now' none s p = p
  answer-closed now now' (some msg) s p = reply-closed _ _ (handle_message-closed now now' msg s p)
