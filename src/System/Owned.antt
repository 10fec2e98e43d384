-- ===== src/System/Owned.antt =====
-- Which sockets are registered, in every state of the program.
use dirpc.Prelude.{
  ℕ, ◌+◌, ◌%◌, ◌<◌, ◌≤◌, ◌^◌, String, true, false, Option, none, some, is_some, List, [], ◌∷◌,
  length, ◌==◌, nat_eq, ==_refl, ==_iff, ◌≡◌, ◌∙◌, refl, sym, ap, subst, arith, Bool-cases,
  Option-cases, inl, inr,
}
use dirpc.Prelude.Int.{ℤ}
use dirpc.Prelude.Assoc.{get, insert, remove, get-insert, get-remove}
use dirpc.Json.{Numbers}
use dirpc.Types.{RpcMessage}
use dirpc.Server.State.{ServerState, Channel, socket_queue_capacity, next_id}
use dirpc.Server.State.Reach.{Reach, start, next, allocate, Reach_lem}
use dirpc.Server.Handle.Effects.{handle_message_events}
use dirpc.Server.Handle.Closed.{handle_message-closed}
use dirpc.Server.Handle.Reaches.{Reach-IsClosed}
use dirpc.Ipc.Connection as Ipc
use dirpc.Websocket.Connection as Websocket
use dirpc.System.{
  opening, Pipe, Link, Turn, Event, connect, turn, scanned, System, initial, linked, take_turn, put,
  with_link, step, run,
}
use dirpc.System.Turns.{has_socket, Sound, take_turn-Sound}

-- A socket is registered exactly for the connections in their loop or behind it, and no id was given to
-- two of the connections.
pub record IsOwned {N : Type 0} (s : System N) : Type 0 where
  pub reached : Reach s.server
  pub given : (id : ℕ) → is_some (get id s.links) ≡ true → id < s.server.next_socket_id
  pub owned : (id : ℕ) → is_some (get id s.server.sockets) ≡ has_socket (get id s.links)

next-unregistered :
    {N : Type 0} (s : ServerState N) → Reach s → is_some (get s.next_socket_id s.sockets) ≡ false
unfolding next_id
next-unregistered s r = elim (Option-cases (get s.next_socket_id s.sockets)) [
  | inl e ↦ rw e refl
  | inr (c, e) ↦ absurd ((Reach_lem r e).1 refl)
]

pub next-unused :
    {N : Type 0} (s : System N) → IsOwned s → is_some (get s.server.next_socket_id s.links) ≡ false
next-unused s v = elim (Bool-cases (is_some (get s.server.next_socket_id s.links))) [
  | inl e ↦ let lt = v.given s.server.next_socket_id e in absurd (omega arith)
  | inr e ↦ e
]

module _ (num : Numbers) (env : ℕ → Ipc.Env num) (client : ℕ → Websocket.Client num.Number) where
  -- the own connection, and the others
  split : (id j : ℕ) (P : ℕ → Type 0) → P id → ((id == j) ≡ false → P j) → P j
  split id j P own other = elim (Bool-cases (id == j)) [
    | inl e ↦ subst P ((==_iff id j).0 e) own
    | inr e ↦ other e
  ]

  turn-IsOwned :
      (id : ℕ) (l : Link) (s : System num.Number) (r : Option Link × ServerState num.Number)
      → get id s.links ≡ some l
      → Sound id (has_socket (some l)) s.server r
      → IsOwned s
      → IsOwned (put num env client id r s.links)
  turn-IsOwned id l s (none, server) e sound v =
      let here = v.given id (rw e refl) in
      record {
        reached = sound.steps v.reached here;
        given = λ j g. ground (arith, get-remove id j s.links, v.given j, sound.ids, here);
        owned = λ j.
            split id j
              (λ i. is_some (get i server.sockets) ≡ has_socket (get i (remove id s.links)))
              (rw (get-remove id id s.links, ==_refl id) (sound.own (v.owned id ∙ ap has_socket e)))
              (λ h.
                rw (get-remove id j s.links, h)
                  (ap (λ o. is_some o) (sound.others j h) ∙ v.owned j));
      }
  turn-IsOwned id l s (some k, server) e sound v =
      let here = v.given id (rw e refl) in
      record {
        reached = sound.steps v.reached here;
        given = λ j g.
            ground (arith, get-insert id j k s.links, ==_iff id j, v.given j, sound.ids, here);
        owned = λ j.
            split id j
              (λ i. is_some (get i server.sockets) ≡ has_socket (get i (insert id k s.links)))
              (rw (get-insert id id k s.links, ==_refl id)
                (sound.own (v.owned id ∙ ap has_socket e)))
              (λ h.
                rw (get-insert id j k s.links, h)
                  (ap (λ o. is_some o) (sound.others j h) ∙ v.owned j));
      }

  with_link-IsOwned :
      (id : ℕ) (t : Turn) (s : System num.Number) (o : Option Link)
      → get id s.links ≡ o
      → IsOwned s
      → IsOwned (with_link num env client id t o s)
  with_link-IsOwned id t s none e v = v
  with_link-IsOwned id t s (some l) e v =
      turn-IsOwned id l s (take_turn num env client id t l s.server) e
        (take_turn-Sound num env client id t l s.server) v

  -- The new connection has no socket yet, and its id is no other connection's.
  connect-IsOwned :
      (client_id : String) (pipe : Pipe) (s : System num.Number)
      → s.server.next_socket_id + 1 < 2 ^ 64
      → IsOwned s
      → IsOwned (step num env client (connect client_id pipe) s)
  unfolding step next_id
  connect-IsOwned client_id pipe s room v =
      let id = s.server.next_socket_id in
      let l = linked num env client opening client_id pipe in
      record {
        reached = unfold next_id in next v.reached (allocate s.server room);
        given = λ j g.
            let wrap : (id + 1) % 2 ^ 64 ≡ id + 1 = omega arith in
            rw wrap (ground (arith, get-insert id j l s.links, ==_iff id j, v.given j));
        owned = λ j.
            split id j
              (λ i. is_some (get i s.server.sockets) ≡ has_socket (get i (insert id l s.links)))
              (rw (get-insert id id l s.links, ==_refl id) (next-unregistered s.server v.reached))
              (λ h. rw (get-insert id j l s.links, h) (v.owned j));
      }

  -- The scanner's messages touch no socket.
  scanned-IsOwned :
      (client_id : String) (now now' : ℤ) (msg : RpcMessage num.Number) (s : System num.Number)
      → IsOwned s
      → IsOwned (step num env client (scanned client_id now now' msg) s)
  unfolding step
  scanned-IsOwned client_id now now' msg s v =
      let (events, state, _, _) =
        handle_message_events num (env 0).to_string 0 client_id now now' msg s.server in
      record {
        reached =
            handle_message-closed num (env 0).to_string 0 client_id Reach (Reach-IsClosed 0) now
              now' msg s.server v.reached;
        given = λ j g. subst (λ t. j < t.next_socket_id) (sym state) (v.given j g);
        owned = λ j. ap (λ t. is_some (get j t.sockets)) state ∙ v.owned j;
      }

  pub step-IsOwned :
      (e : Event num.Number) (s : System num.Number)
      → s.server.next_socket_id + 1 < 2 ^ 64
      → IsOwned s
      → IsOwned (step num env client e s)
  step-IsOwned (connect client_id pipe) s room v = connect-IsOwned client_id pipe s room v
  step-IsOwned (turn id t) s room v =
      unfold step in with_link-IsOwned id t s (get id s.links) refl v
  step-IsOwned (scanned client_id now now' msg) s room v =
      scanned-IsOwned client_id now now' msg s v

  pub with_link-ids :
      (id : ℕ) (t : Turn) (o : Option Link) (s : System num.Number)
      → (with_link num env client id t o s).server.next_socket_id ≡ s.server.next_socket_id
  with_link-ids id t none s = refl
  with_link-ids id t (some l) s =
      put_ids (take_turn num env client id t l s.server)
      ∙ (take_turn-Sound num env client id t l s.server).ids
    where
      put_ids :
          (r : Option Link × ServerState num.Number)
          → (put num env client id r s.links).server.next_socket_id ≡ r.1.next_socket_id
      put_ids (none, server) = refl
      put_ids (some l, server) = refl

  -- Only a new connection takes an id.
  pub step-ids :
      (e : Event num.Number) (s : System num.Number)
      → (step num env client e s).server.next_socket_id ≤ s.server.next_socket_id + 1
  unfolding step next_id
  step-ids (connect client_id pipe) s = omega arith
  step-ids (turn id t) s = omega (arith, with_link-ids id t (get id s.links) s)
  step-ids (scanned client_id now now' msg) s =
      let (events, state, _, _) =
        handle_message_events num (env 0).to_string 0 client_id now now' msg s.server in
      omega (arith, ap (λ t. t.next_socket_id) state)

  run-IsOwned :
      (es : List (Event num.Number)) (s : System num.Number)
      → s.server.next_socket_id + length es < 2 ^ 64
      → IsOwned s
      → IsOwned (run num env client es s)
  unfolding run
  run-IsOwned [] s room v = v
  run-IsOwned (e ∷ es) s room v =
      run-IsOwned es (step num env client e s) (omega (arith, step-ids e s))
        (step-IsOwned e s (omega arith) v)

  pub initial-IsOwned : IsOwned (initial {N = num.Number})
  unfolding get
  initial-IsOwned = record { reached = start; given = λ j g. cc; owned = λ j. refl }

  -- After any schedule of fewer than 2 ^ 64 - 1 events: a socket is registered exactly if it is that of
  -- a connection in its loop or behind it and before the clean-up, at most 128 texts wait in its queue,
  -- and the id that the next connection is given is no connection's.
  pub run_owned :
      (es : List (Event num.Number))
      → 1 + length es < 2 ^ 64
      → let s = run num env client es initial in
        ((id : ℕ) → is_some (get id s.server.sockets) ≡ has_socket (get id s.links))
        × ((id : ℕ) (c : Channel)
            → get id s.server.sockets ≡ some c
            → length c.queue ≤ socket_queue_capacity)
        × (is_some (get (next_id s.server).0 s.links) ≡ false)
  unfolding next_id
  run_owned es room =
      let v = run-IsOwned es initial room initial-IsOwned in
      (v.owned, λ id c e. (Reach_lem v.reached e).0, next-unused _ v)
