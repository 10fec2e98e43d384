-- ===== src/Server/State/Sockets.antt =====
-- What the socket operations do to each queue.
use dirpc.Prelude.{
  ℕ, String, Bool, true, false, none, some, [], ◌∷◌, ◌++◌, ◌≡◌, arith, length, leb, if◌then◌else◌,
  nat_eq, ==_iff, ==_refl, ◌==◌, Option-cases, inl, inr,
}
use dirpc.Prelude.Assoc.{get, insert, get-insert, get-remove}
use dirpc.Server.State.{
  Channel, ServerState, socket_queue_capacity, try_send, unregister_socket, send_to_socket,
}

-- A channel takes a message while its receiver lives and it is not full.
abbrev pub takes : Channel → Bool
takes c =
    if c.closed then false else if leb socket_queue_capacity (length c.queue) then false else true

module _ {N : Type 0} (id : ℕ) (msg : String) (s : ServerState N) where
  send_none : get id s.sockets ≡ none → send_to_socket id msg s ≡ s
  unfolding send_to_socket
  send_none e = rw (e, send_to_socket)

  send_some :
      (c : Channel)
      → get id s.sockets ≡ some c
      → send_to_socket id msg s ≡ record s { sockets = insert id (try_send c msg) s.sockets }
  unfolding send_to_socket
  send_some c e = rw (e, send_to_socket)

  -- A message goes to the end of its own socket's queue if that socket is registered, its receiver
  -- lives and fewer than 128 messages wait; otherwise it is dropped. No other queue changes.
  pub send_to_socket-get :
      (j : ℕ)
      → get j (send_to_socket id msg s).sockets ≡ elim (get j s.sockets) [
        | none ↦ none
        | some c ↦ some (
            if id == j
            then (if takes c then record c { queue = c.queue ++ msg ∷ [] } else c)
            else c)
      ]
  unfolding send_to_socket
  send_to_socket-get j = elim (Option-cases (get id s.sockets)) [
    | inl e ↦ rw (send_none e) (ground (arith, ==_iff id j))
    | inr (c, e) ↦ rw (send_some c e, get-insert) (unfold try_send in ground (arith, ==_iff id j))
  ]

  -- After its socket is gone a message changes nothing, and the removal itself sends one event that
  -- clears the socket's activity.
  send_to_socket-unregister_socket :
      send_to_socket id msg (unregister_socket id s) ≡ unregister_socket id s
  send_to_socket-unregister_socket =
      send_none' (unfold unregister_socket in rw (get-remove id id s.sockets, ==_refl id))
    where
      send_none' :
          get id (unregister_socket id s).sockets ≡ none
          → send_to_socket id msg (unregister_socket id s) ≡ unregister_socket id s
      send_none' e = unfold send_to_socket in rw (e, send_to_socket)
