-- ===== src/Server/Handle/Agrees.antt =====
-- What a message does to its own socket depends on the message and that socket's queue only.
use dirpc.Prelude.{
  ℕ, String, Option, none, some, [], ◌∷◌, ◌++◌, if◌then◌else◌, ◌==◌, nat_eq, string_eq, ◌≡◌, ◌∙◌,
  refl, sym, ap, Bool-cases, inl, inr,
}
use dirpc.Prelude.Int.{ℤ}
use dirpc.Prelude.Assoc.{get}
use dirpc.Json.{Numbers, Value}
use dirpc.Types.{RpcMessage}
use dirpc.Server.State.{ServerState, Channel}
use dirpc.Server.State.Sockets.{takes, send_to_socket-get}
use dirpc.Server.Handle.{handle_message}
use dirpc.Server.Handle.Effects.{handle_message_events}
use dirpc.Server.Handle.Answer.{reply, answer}

-- The queues of a socket in two servers are the same.
abbrev pub Agree : {N : Type 0} → ℕ → ServerState N → ServerState N → Type 0
Agree id s t = get id s.sockets ≡ get id t.sockets

module _ (num : Numbers) (to_string : Value num.Number → Option String) (socket_id : ℕ)
    (client_id : String) (now now' : ℤ) where
  handle_message_response :
      (msg : RpcMessage num.Number) (s t : ServerState num.Number)
      → (handle_message num to_string socket_id client_id now now' msg s).0
        ≡ (handle_message num to_string socket_id client_id now now' msg t).0
  unfolding handle_message
  handle_message_response msg s t = elim (Bool-cases (msg.cmd == "SET_ACTIVITY")) [
    | inl e ↦ rw e refl
    | inr e ↦ elim (Bool-cases (msg.cmd == "CONNECTIONS_CALLBACK")) [
      | inl f ↦ rw (e, f) refl
      | inr f ↦ rw (e, f) refl
    ]
  ]

  handle_message_agrees :
      (msg : RpcMessage num.Number) (s t : ServerState num.Number)
      → Agree socket_id s t
      → Agree socket_id
          (handle_message num to_string socket_id client_id now now' msg s).1
          (handle_message num to_string socket_id client_id now now' msg t).1
  handle_message_agrees msg s t same =
      let (_, left, _, _) =
        handle_message_events num to_string socket_id client_id now now' msg s in
      let (_, right, _, _) =
        handle_message_events num to_string socket_id client_id now now' msg t in
      ap (λ u. get socket_id u.sockets) left ∙ same ∙ sym (ap (λ u. get socket_id u.sockets) right)

  reply_agrees :
      (o : Option String) (s t : ServerState num.Number)
      → Agree socket_id s t
      → Agree socket_id
          (reply num to_string socket_id client_id o s)
          (reply num to_string socket_id client_id o t)
  unfolding reply
  reply_agrees none s t same = same
  reply_agrees (some r) s t same =
      let queued : Option Channel → Option Channel = λ o. elim o [
        | none ↦ none
        | some c ↦ some (
            if socket_id == socket_id
            then (if takes c then record c { queue = c.queue ++ r ∷ [] } else c)
            else c)
      ] in
      send_to_socket-get socket_id r s socket_id
      ∙ ap queued same
      ∙ sym (send_to_socket-get socket_id r t socket_id)

  pub answer_agrees :
      (m : Option (RpcMessage num.Number)) (s t : ServerState num.Number)
      → Agree socket_id s t
      → Agree socket_id
          (answer num to_string socket_id client_id now now' m s)
          (answer num to_string socket_id client_id now now' m t)
  unfolding answer
  answer_agrees none s t same = same
  answer_agrees (some msg) s t same =
      reply_agrees _ _ _ (handle_message_agrees msg s t same)
      ∙ ap
          (λ o.
            get socket_id
              (reply num to_string socket_id client_id o
                (handle_message num to_string socket_id client_id now now' msg t).1).sockets)
          (handle_message_response msg s t)
