-- ===== src/System/Forgotten.antt =====
-- What the bridge shows of the connections, in every state of the program.
use dirpc.Prelude.{
  ℕ, ◌+◌, ◌<◌, ◌^◌, String, false, Option, none, some, is_some, List, [], ◌∷◌, length, ◌==◌, nat_eq,
  string_eq, ==_iff, ◌≡◌, ◌≢◌, ◌∙◌, refl, sym, ap, subst, arith, Bool-cases, inl, inr,
}
use dirpc.Prelude.Assoc.{get, get-insert, get-remove}
use dirpc.Json.{Numbers, Value}
use dirpc.Types.{ActivityEvent}
use dirpc.Server.State.{ServerState, next_id}
use dirpc.Server.Handle.{handle_message}
use dirpc.Server.Handle.Closed.{handle_message-closed}
use dirpc.Server.Handle.Keeps.{events-IsClosed}
use dirpc.Bridge.{new}
use dirpc.Bridge.Feed.{last_event, remembered, feed_lem}
use dirpc.Ipc.Connection as Ipc
use dirpc.Websocket.Connection as Websocket
use dirpc.Presence.{Serialises, IsForgotten, received, delivered-received}
use dirpc.System.{
  opening, Link, Turn, Event, connect, turn, scanned, System, initial, linked, take_turn, put,
  with_link, step, run,
}
use dirpc.System.Owned.{IsOwned, step-IsOwned, initial-IsOwned, next-unused, step-ids}
use dirpc.System.Turns.{has_socket, IsClear, IsSilent, Sound, take_turn-Sound}

-- A socket that is not the scanner's and has no connection in its loop, or behind it and before the
-- clean-up, is silent.
abbrev IsQuiet : {N : Type 0} → System N → Type 0
IsQuiet s = (id : ℕ) → id ≢ 0 → has_socket (get id s.links) ≡ false → IsSilent id s.server

module _ (num : Numbers) (env : ℕ → Ipc.Env num) (client : ℕ → Websocket.Client num.Number) where
  -- the silence of a socket with the same last event
  same-IsSilent :
      (id : ℕ) (s t : ServerState num.Number)
      → last_event id t.sent ≡ last_event id s.sent
      → IsSilent id s
      → IsSilent id t
  same-IsSilent id s t same h = rw same h

  put-IsQuiet :
      (id : ℕ) (l : Link) (s : System num.Number) (r : Option Link × ServerState num.Number)
      → get id s.links ≡ some l
      → Sound id (has_socket (some l)) s.server r
      → IsQuiet s
      → IsQuiet (put num env client id r s.links)
  put-IsQuiet id l s (none, server) e sound v j real h = elim (Bool-cases (id == j)) [
    | inl same ↦
        let own : id ≡ j = (==_iff id j).0 same in
        subst (λ k. IsSilent k server) own
          (sound.silent refl (λ b. v id (λ z. real (sym own ∙ z)) (ap has_socket e ∙ b)))
    | inr other ↦
        same-IsSilent j s.server server (sound.events j other)
          (v j real (rw (get-remove id j s.links, other) at h))
  ]
  put-IsQuiet id l s (some k, server) e sound v j real h = elim (Bool-cases (id == j)) [
    | inl same ↦
        let own : id ≡ j = (==_iff id j).0 same in
        subst (λ i. IsSilent i server) own
          (sound.silent (rw (get-insert id j k s.links, same) at h)
            (λ b. v id (λ z. real (sym own ∙ z)) (ap has_socket e ∙ b)))
    | inr other ↦
        same-IsSilent j s.server server (sound.events j other)
          (v j real (rw (get-insert id j k s.links, other) at h))
  ]

  with_link-IsQuiet :
      (id : ℕ) (t : Turn) (s : System num.Number) (o : Option Link)
      → get id s.links ≡ o
      → IsQuiet s
      → IsQuiet (with_link num env client id t o s)
  with_link-IsQuiet id t s none e v = v
  with_link-IsQuiet id t s (some l) e v =
      put-IsQuiet id l s (take_turn num env client id t l s.server) e
        (take_turn-Sound num env client id t l s.server) v

  -- A new id was no connection's, and is silent.
  step-IsQuiet :
      (e : Event num.Number) (s : System num.Number)
      → has_socket (get s.server.next_socket_id s.links) ≡ false
      → IsQuiet s
      → IsQuiet (step num env client e s)
  unfolding step next_id
  step-IsQuiet (connect client_id pipe) s free v j real h =
      let id = s.server.next_socket_id in
      let l = linked num env client opening client_id pipe in
      elim (Bool-cases (id == j)) [
        | inl same ↦
            v j real (subst (λ k. has_socket (get k s.links) ≡ false) ((==_iff id j).0 same) free)
        | inr other ↦ v j real (rw (get-insert id j l s.links, other) at h)
      ]
  step-IsQuiet (turn id t) s free v j real h =
      with_link-IsQuiet id t s (get id s.links) refl v j real h
  step-IsQuiet (scanned client_id now now' msg) s free v j real h =
      let differs : (0 == j) ≡ false = ground (arith, real) in
      same-IsSilent j s.server
        (handle_message num (env 0).to_string 0 client_id now now' msg s.server).1
        (handle_message-closed num (env 0).to_string 0 client_id _
          (events-IsClosed 0 j differs (last_event j s.server.sent)) now now' msg s.server refl)
        (v j real h)

  run-IsQuiet :
      (es : List (Event num.Number)) (s : System num.Number)
      → s.server.next_socket_id + length es < 2 ^ 64
      → IsOwned s
      → IsQuiet s
      → IsQuiet (run num env client es s)
  unfolding run
  run-IsQuiet [] s room owned v = v
  run-IsQuiet (e ∷ es) s room owned v =
      run-IsQuiet es (step num env client e s) (omega (arith, step-ids num env client e s))
        (step-IsOwned num env client e s (omega arith) owned)
        (step-IsQuiet e s
          (ap has_socket (free (get s.server.next_socket_id s.links) (next-unused s owned))) v)
    where
      free : (o : Option Link) → is_some o ≡ false → o ≡ none
      free none h = refl
      free (some l) h = cc

  initial-IsQuiet : IsQuiet (initial {N = num.Number})
  initial-IsQuiet j real h = tt

  remembered_clear :
      (text : ActivityEvent num.Number → String) (o : Option (ActivityEvent num.Number))
      → IsClear o
      → remembered text o none ≡ none
  remembered_clear text none h = refl
  remembered_clear text (some e) h = rw h refl

  -- After any schedule of fewer than 2 ^ 64 - 1 events: a bridge that has received every event that
  -- the server has sent, missing none by a lag, remembers messages of no other sockets than the scanner's
  -- and those of the connections in their loop or behind it and before the clean-up, if every message can
  -- be serialised.
  pub run-IsForgotten :
      (to_string : Value num.Number → Option String)
      → Serialises num to_string
      → (es : List (Event num.Number)) → 1 + length es < 2 ^ 64
      → (id : ℕ) → id ≢ 0
      → has_socket (get id (run num env client es initial).links) ≡ false
      → IsForgotten num to_string id (run num env client es initial).server
  unfolding get
  run-IsForgotten to_string serialises es room id real h =
      let s = run num env client es initial in
      let quiet =
        run-IsQuiet es initial room (initial-IsOwned num env client) initial-IsQuiet id real h in
      let (last, _) =
        feed_lem num to_string (λ e. (serialises e).0) (λ e. (serialises e).1)
          (received s.server.sent) new in
      last id
      ∙ rw (delivered-received s.server.sent)
          (remembered_clear _ (last_event id s.server.sent) quiet)
