-- ===== src/Server/Handle/Answer.antt =====
-- What the transports of src/transports do with a message that they have parsed: handle it, and queue
-- the answer for the socket that sent it.
use dirpc.Prelude.{Option-cases, inl, inr, ℕ, String, Option, none, some, ◌≡◌, refl, nat_eq}
use dirpc.Prelude.Int.{ℤ}
use dirpc.Prelude.Assoc.{get}
use dirpc.Json.{Numbers, Value}
use dirpc.Types.{RpcMessage}
use dirpc.Server.State.{ServerState, send_to_socket}
use dirpc.Server.Handle.{handle_message}

module _ (num : Numbers) (to_string : Value num.Number → Option String) (socket_id : ℕ)
    (client_id : String) where
  unfoldable pub reply : Option String → ServerState num.Number → ServerState num.Number
  reply none s = s
  reply (some resp) s = send_to_socket socket_id resp s

  unfoldable pub answer :
      ℤ → ℤ → Option (RpcMessage num.Number) → ServerState num.Number → ServerState num.Number
  unfolding reply
  answer now now' none s = s
  answer now now' (some msg) s =
      let (resp, s') = handle_message num to_string socket_id client_id now now' msg s in
      reply resp s'

  send_to_socket_sent :
      (resp : String) (s : ServerState num.Number) → (send_to_socket socket_id resp s).sent ≡ s.sent
  unfolding send_to_socket
  send_to_socket_sent resp s = elim (Option-cases (get socket_id s.sockets)) [
    | inl e ↦ rw (e, send_to_socket) refl
    | inr (c, e) ↦ rw (e, send_to_socket) refl
  ]

  -- Queueing the answer broadcasts nothing.
  pub answer_sent :
      (now now' : ℤ) (msg : RpcMessage num.Number) (s : ServerState num.Number)
      → (answer now now' (some msg) s).sent
        ≡ (handle_message num to_string socket_id client_id now now' msg s).1.sent
  unfolding answer reply
  answer_sent now now' msg s = go (handle_message num to_string socket_id client_id now now' msg s)
    where
      go : (r : Option String × ServerState num.Number) → (reply r.0 r.1).sent ≡ r.1.sent
      go (none, s') = refl
      go (some resp, s') = send_to_socket_sent resp s'
