-- ===== src/Server/State/Reach.antt =====
-- The socket table in every reachable state: ids are fresh, queues are bounded.
use mathlib.Core.Path.{subst, ap, sym, ◌∙◌}
use dirpc.Prelude.{
  ℕ, ◌+◌, ◌≤◌, ◌<◌, ◌^◌, String, Option, none, some, true, List, [], ◌∷◌, ◌≡◌, ◌≢◌, arith, length,
  length-append, nat_eq, ==_iff, Option-cases, inl, inr,
}
use dirpc.Prelude.Assoc.{get, get-insert, get-remove}
use dirpc.Types.{ActivityEvent}
use dirpc.Server.State.{
  Channel, ServerState, new, new_channel, socket_queue_capacity, try_send, broadcast, next_id,
  register_socket, unregister_socket, send_to_socket, pop, recv,
}

length-try_send :
    (c : Channel) (msg : String)
    → length c.queue ≤ socket_queue_capacity
    → length (try_send c msg).queue ≤ socket_queue_capacity
unfolding try_send
length-try_send c msg h = ground (arith, length-append c.queue (msg ∷ []))

module _ {N : Type 0} where
  -- One operation of a connection, of the scanner, or of the bridge's producer. An id is registered
  -- by the connection that was given it; the 64-bit counter has room.
  pub data Step : ServerState N → ServerState N → Type 0 where
    allocate : (s : ServerState N) → s.next_socket_id + 1 < 2 ^ 64 → Step s (next_id s).1
    register :
        (s : ServerState N) (id : ℕ)
        → id < s.next_socket_id
        → Step s (register_socket id new_channel s)
    unregister : (s : ServerState N) (id : ℕ) → Step s (unregister_socket id s)
    send : (s : ServerState N) (id : ℕ) (msg : String) → Step s (send_to_socket id msg s)
    receive :
        (s : ServerState N) (id : ℕ) (msg : String) (s' : ServerState N)
        → recv id s ≡ some (msg, s')
        → Step s s'
    close :
        (s : ServerState N) (id : ℕ) (c : Channel)
        → get id s.sockets ≡ some c
        → Step s (register_socket id (record c { closed = true }) s)
    emit : (s : ServerState N) (e : ActivityEvent N) → Step s (broadcast e s)

  pub data Reach : ServerState N → Type 0 where
    start : Reach new
    next : {s t : ServerState N} → Reach s → Step s t → Reach t

  pub record IsValid (s : ServerState N) : Type 0 where
    pub known : (id : ℕ) (c : Channel) → get id s.sockets ≡ some c → id < s.next_socket_id
    pub bounded :
        (id : ℕ) (c : Channel) → get id s.sockets ≡ some c → length c.queue ≤ socket_queue_capacity

  -- writing one channel keeps the table valid
  put-IsValid :
      (s : ServerState N) (id : ℕ) (c : Channel)
      → IsValid s
      → id < s.next_socket_id
      → length c.queue ≤ socket_queue_capacity
      → IsValid (register_socket id c s)
  unfolding register_socket
  put-IsValid s id c v lt fits = record {
    known = λ j d e. ground (arith, get-insert id j c s.sockets, ==_iff id j, v.known j d);
    bounded = λ j d e. ground (arith, get-insert id j c s.sockets, ==_iff id j, v.bounded j d);
  }

  send-IsValid :
      (s : ServerState N) (id : ℕ) (msg : String) → IsValid s → IsValid (send_to_socket id msg s)
  send-IsValid s id msg v = elim (Option-cases (get id s.sockets)) [
    | inl e ↦ unfold send_to_socket in rw (e, send_to_socket) v
    | inr (c, e) ↦
        unfold send_to_socket in
        rw (e, send_to_socket)
          (unfold register_socket in
            put-IsValid s id (try_send c msg) v (v.known id c e)
              (length-try_send c msg (v.bounded id c e)))
  ]

  abbrev state_or : ServerState N → Option (String × ServerState N) → ServerState N
  state_or s none = s
  state_or s (some (_, s')) = s'

  pop-IsValid :
      (s : ServerState N) (id : ℕ) (c : Channel) (q : List String) {msg : String}
      {s' : ServerState N}
      → IsValid s
      → id < s.next_socket_id
      → length q ≤ socket_queue_capacity
      → pop id c q s ≡ some (msg, s')
      → IsValid s'
  unfolding pop
  pop-IsValid s id c [] v lt fits e = cc
  pop-IsValid s id c (m ∷ q) {msg} {s'} v lt fits e =
      subst IsValid (ap (λ o. state_or s o) e)
        (unfold register_socket in put-IsValid s id (record c { queue = q }) v lt (omega arith))

  recv-none : (s : ServerState N) (id : ℕ) → get id s.sockets ≡ none → recv id s ≡ none
  unfolding recv
  recv-none s id g = rw (g, recv)

  pub recv-pop :
      (s : ServerState N) (id : ℕ) (c : Channel)
      → get id s.sockets ≡ some c
      → recv id s ≡ pop id c c.queue s
  unfolding recv
  recv-pop s id c g = rw (g, recv)

  recv-IsValid :
      (s : ServerState N) (id : ℕ) (msg : String) (s' : ServerState N)
      → IsValid s
      → recv id s ≡ some (msg, s')
      → IsValid s'
  recv-IsValid s id msg s' v e = elim (Option-cases (get id s.sockets)) [
    | inl g ↦ cc (recv-none s id g)
    | inr (c, g) ↦
        pop-IsValid s id c c.queue v (v.known id c g) (v.bounded id c g)
          (sym (recv-pop s id c g) ∙ e)
  ]

  Step-IsValid : {s t : ServerState N} → Step s t → IsValid s → IsValid t
  Step-IsValid (allocate s room) v =
      unfold next_id in
      record { known = λ j d e. let k = v.known j d e in omega arith; bounded = v.bounded }
  Step-IsValid (register s id lt) v = put-IsValid s id new_channel v lt (omega arith)
  Step-IsValid (unregister s id) v =
      unfold unregister_socket in
      record {
        known = λ j d e. ground (arith, get-remove id j s.sockets, v.known j d);
        bounded = λ j d e. ground (arith, get-remove id j s.sockets, v.bounded j d);
      }
  Step-IsValid (send s id msg) v = send-IsValid s id msg v
  Step-IsValid (receive s id msg s' e) v = recv-IsValid s id msg s' v e
  Step-IsValid (close s id c e) v =
      put-IsValid s id (record c { closed = true }) v (v.known id c e) (v.bounded id c e)
  Step-IsValid (emit s e) v = unfold broadcast in record { known = v.known; bounded = v.bounded }

  Reach-IsValid : {s : ServerState N} → Reach s → IsValid s
  Reach-IsValid start = record {
    known = λ j d e. unfold get in cc e;
    bounded = λ j d e. unfold get in cc e;
  }
  Reach-IsValid (next r st) = Step-IsValid st (Reach-IsValid r)

  -- In every state that is reached while the 64-bit counter has room, the queue of a registered
  -- socket holds at most 128 messages, and the id that the next connection is given is not that
  -- socket's.
  pub Reach_lem :
      {s : ServerState N} {id : ℕ} {c : Channel}
      → Reach s
      → get id s.sockets ≡ some c
      → (length c.queue ≤ socket_queue_capacity) × ((next_id s).0 ≢ id)
  unfolding next_id
  Reach_lem {s} {id} {c} r e =
      let v = Reach-IsValid r in (v.bounded id c e, λ same. let k = v.known id c e in omega arith)
