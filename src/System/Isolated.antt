-- ===== src/System/Isolated.antt =====
-- The connections do not see one another.
use dirpc.Prelude.{
  ℕ, ◌+◌, ◌<◌, ◌≤◌, ◌^◌, Bool, true, false, Option, none, some, List, [], ◌∷◌, length, filter, ◌==◌,
  nat_eq, ==_refl, ==_iff, ◌≡◌, ◌∙◌, refl, sym, ap, subst, arith, Bool-cases, inl, inr,
}
use dirpc.Prelude.Assoc.{Assoc, get, get-insert, get-remove}
use dirpc.Json.{Numbers}
use dirpc.Server.State.{ServerState, next_id}
use dirpc.Server.Handle.Effects.{handle_message_events}
use dirpc.Ipc.Connection as Ipc
use dirpc.Websocket.Connection as Websocket
use dirpc.System.{
  Link, Turn, Event, connect, turn, scanned, System, take_turn, put, with_link, step, run,
}
use dirpc.System.Turns.{take_turn-Sound}
use dirpc.System.Owned.{with_link-ids, step-ids}
use dirpc.System.Views.{Seen, seen, take_turn_alike}

abbrev pub seen_of : {N : Type 0} → ℕ → System N → Seen
seen_of id s = (get id s.links, get id s.server.sockets)

-- The turns of one connection, among the events.
abbrev is_own : {N : Type 0} → ℕ → Event N → Bool
is_own id (connect _ _) = false
is_own id (turn j _) = j == id
is_own id (scanned _ _ _ _) = false

abbrev pub own_turns : {N : Type 0} → ℕ → List (Event N) → List (Event N)
own_turns id es = filter (is_own id) es

module _ (num : Numbers) (env : ℕ → Ipc.Env num) (client : ℕ → Websocket.Client num.Number) where
  seen_of-put :
      (id : ℕ) (r : Option Link × ServerState num.Number) (links : Assoc ℕ Link)
      → seen_of id (put num env client id r links) ≡ seen id r
  seen_of-put id (none, server) links = rw (get-remove id id links, ==_refl id) refl
  seen_of-put id (some l, server) links = rw (get-insert id id l links, ==_refl id) refl

  with_link_alike :
      (id : ℕ) (t : Turn) (o : Option Link) (s u : System num.Number)
      → seen_of id s ≡ seen_of id u
      → seen_of id (with_link num env client id t o s)
        ≡ seen_of id (with_link num env client id t o u)
  with_link_alike id t none s u same = same
  with_link_alike id t (some l) s u same =
      seen_of-put id _ s.links
      ∙ take_turn_alike num env client id t l s.server u.server (ap (λ (v : Seen). v.1) same)
      ∙ sym (seen_of-put id _ u.links)

  -- An own turn, in two systems that look the same to the connection.
  own_step :
      (id : ℕ) (t : Turn) (s u : System num.Number)
      → seen_of id s ≡ seen_of id u
      → seen_of id (step num env client (turn id t) s)
        ≡ seen_of id (step num env client (turn id t) u)
  unfolding step
  own_step id t s u same =
      ap (λ o. seen_of id (with_link num env client id t o s)) (ap (λ (v : Seen). v.0) same)
      ∙ with_link_alike id t (get id u.links) s u same

  put_others :
      (id j : ℕ) (s : System num.Number) (r : Option Link × ServerState num.Number)
      → (j == id) ≡ false
      → get id r.1.sockets ≡ get id s.server.sockets
      → seen_of id (put num env client j r s.links) ≡ seen_of id s
  put_others id j s (none, server) other e =
      rw (get-remove j id s.links, other) (ap (λ c. (get id s.links, c)) e)
  put_others id j s (some l, server) other e =
      rw (get-insert j id l s.links, other) (ap (λ c. (get id s.links, c)) e)

  with_link_others :
      (id j : ℕ) (t : Turn) (o : Option Link) (s : System num.Number)
      → (j == id) ≡ false
      → seen_of id (with_link num env client j t o s) ≡ seen_of id s
  with_link_others id j t none s other = refl
  with_link_others id j t (some l) s other =
      put_others id j s (take_turn num env client j t l s.server) other
        ((take_turn-Sound num env client j t l s.server).others id other)

  -- Any other event, once the connection has its id.
  other_step :
      (id : ℕ) (e : Event num.Number) (s : System num.Number)
      → is_own id e ≡ false
      → id < s.server.next_socket_id
      → seen_of id (step num env client e s) ≡ seen_of id s
  unfolding step next_id
  other_step id (connect client_id pipe) s other lt =
      let differs : (s.server.next_socket_id == id) ≡ false = ground arith in
      rw (get-insert s.server.next_socket_id id _ s.links, differs) refl
  other_step id (turn j t) s other lt = with_link_others id j t (get j s.links) s other
  other_step id (scanned client_id now now' msg) s other lt =
      let (_, state, _, _) =
        handle_message_events num (env 0).to_string 0 client_id now now' msg s.server in
      ap (λ t. (get id s.links, get id t.sockets)) state

  -- No id is given twice while the counter has room.
  ids_grow :
      (e : Event num.Number) (s : System num.Number)
      → s.server.next_socket_id + 1 < 2 ^ 64
      → s.server.next_socket_id ≤ (step num env client e s).server.next_socket_id
  unfolding step next_id
  ids_grow (connect client_id pipe) s room = omega arith
  ids_grow (turn j t) s room = omega (arith, with_link-ids num env client j t (get j s.links) s)
  ids_grow (scanned client_id now now' msg) s room =
      let (_, state, _, _) =
        handle_message_events num (env 0).to_string 0 client_id now now' msg s.server in
      omega (arith, ap (λ t. t.next_socket_id) state)

  own_or_other :
      (id : ℕ) (e : Event num.Number) (s u : System num.Number)
      → is_own id e ≡ true
      → seen_of id s ≡ seen_of id u
      → seen_of id (step num env client e s) ≡ seen_of id (step num env client e u)
  own_or_other id (connect _ _) s u own same = cc
  own_or_other id (turn j t) s u own same =
      subst
        (λ k.
          seen_of id (step num env client (turn k t) s)
          ≡ seen_of id (step num env client (turn k t) u))
        (sym ((==_iff j id).0 own)) (own_step id t s u same)
  own_or_other id (scanned _ _ _ _) s u own same = cc

  run_alike :
      (id : ℕ) (es : List (Event num.Number)) (s u : System num.Number)
      → s.server.next_socket_id + length es < 2 ^ 64
      → id < s.server.next_socket_id
      → seen_of id s ≡ seen_of id u
      → seen_of id (run num env client es s) ≡ seen_of id (run num env client (own_turns id es) u)
  unfolding run
  run_alike id [] s u room lt same = same
  run_alike id (e ∷ es) s u room lt same =
      let up = step-ids num env client e s in
      let grow = ids_grow e s (omega arith) in
      elim (Bool-cases (is_own id e)) [
        | inl own ↦ rw own (
            run_alike id es (step num env client e s) (step num env client e u) (omega arith)
              (omega arith) (own_or_other id e s u own same))
        | inr other ↦ rw other (
            run_alike id es (step num env client e s) u (omega arith) (omega arith)
              (other_step id e s other lt ∙ same))
      ]

  -- Whatever the other connections, the scanner and new clients do, and however their events are
  -- interleaved with its turns: what a connection has read, written and queued, and whether it is still
  -- there, is what its own turns alone make of it, while the 64-bit counter has room.
  pub run-own_turns :
      (id : ℕ) (es : List (Event num.Number)) (s : System num.Number)
      → s.server.next_socket_id + length es < 2 ^ 64
      → id < s.server.next_socket_id
      → seen_of id (run num env client es s) ≡ seen_of id (run num env client (own_turns id es) s)
  run-own_turns id es s room lt = run_alike id es s s room lt refl
