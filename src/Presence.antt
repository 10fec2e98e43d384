-- ===== src/Presence.antt =====
-- The way of an activity through the program: from a client's connection (src/transports) over the
-- server's broadcast (src/server.rs) to what the bridge remembers (src/bridge.rs).
use dirpc.Prelude.{
  ℕ, ◌<◌, ◌^◌, sym, String, Option, none, some, List, [], ◌∷◌, ◌++◌, map, ◌==◌, nat_eq, string_eq,
  true, length, All, arith, subst, ◌≡◌, ◌∙◌, refl, ap, if◌then◌else◌,
}
use dirpc.Prelude.Assoc.{get}
use dirpc.Json.{Numbers, Value, null, bool, number, string, array, object}
use dirpc.Prelude.Int.{ℤ}
use dirpc.Types.{RpcMessage, ActivityEvent}
use dirpc.Server.Handle.Tells.{IsGiven, given, sent_fields, IsTold, handle_message_tells}
use dirpc.Json.Maps.{IsMap}
use dirpc.Server.Handle.Answer.{answer, answer_sent}
use dirpc.Server.State.{ServerState, unregister_socket}
use dirpc.Bridge.{Received, ok, bridge_msg, feed, new}
use dirpc.Bridge.Client.World.{IsObject, IsSendable}
use dirpc.Bridge.Feed.{delivered, last_event, remembered, last_event-last, feed_lem}

-- The events that reach the bridge when it misses none.
abbrev pub received : {N : Type 0} → List (ActivityEvent N) → List (Received (ActivityEvent N))
received es = map (λ e. ok e) es

pub delivered-received : {N : Type 0} (es : List (ActivityEvent N)) → delivered (received es) ≡ es
delivered-received [] = refl
delivered-received (e ∷ es) = ap (λ t. e ∷ t) (delivered-received es)

last_event-own :
    {N : Type 0} (es : List (ActivityEvent N)) (e : ActivityEvent N) (k : ℕ)
    → e.socket_id ≡ k
    → last_event k (es ++ e ∷ []) ≡ some e
last_event-own es e k same =
    subst (λ j. last_event j (es ++ e ∷ []) ≡ some e) same (last_event-last es e)

-- What the bridge shows for an event's socket.
abbrev pub shown : {V : Type 0} → Option V → String → Option String
shown none t = none
shown (some _) t = some t

module _ (num : Numbers) (to_string : Value num.Number → Option String) where
  -- The bridge remembers no message of the socket, once it has all that the server has sent.
  abbrev pub IsForgotten : ℕ → ServerState num.Number → Type 0
  IsForgotten id s = get id (feed num to_string (received s.sent) new).last_msgs ≡ none

  -- Every message for the bridge can be serialised.
  abbrev pub Serialises : Type 0
  Serialises =
      (e : ActivityEvent num.Number) → (t : String) × (to_string (bridge_msg num e) ≡ some t)

  pub unregister_socket-IsForgotten :
      Serialises → (id : ℕ) (s : ServerState num.Number) → IsForgotten id (unregister_socket id s)
  unfolding unregister_socket dirpc.Server.State.broadcast
  unregister_socket-IsForgotten serialises id s =
      let clear : ActivityEvent num.Number = record {
        activity = none;
        pid = none;
        socket_id = id;
      } in
      let (last, _) =
        feed_lem num to_string (λ e. (serialises e).0) (λ e. (serialises e).1)
          (received (s.sent ++ clear ∷ [])) new in
      last id ∙ rw (delivered-received (s.sent ++ clear ∷ []), last_event-last s.sent clear) refl

  remembered_lem :
      (text : ActivityEvent num.Number → String) (e : ActivityEvent num.Number)
      (old : Option String)
      → remembered text (some e) old ≡ shown e.activity (text e)
  remembered_lem text e old = go e.activity
    where
      go :
          (a : Option (Value num.Number))
          → elim a [ none ↦ none | some _ ↦ some (text e) ] ≡ shown a (text e)
      go none = refl
      go (some v) = refl

  module _ (serialises : Serialises) (socket_id : ℕ) (client_id : String) (now now' : ℤ)
      (msg : RpcMessage num.Number) (s : ServerState num.Number) where
    abbrev after : ServerState num.Number
    after = answer num to_string socket_id client_id now now' (some msg) s

    one_event :
        (events : List (ActivityEvent num.Number))
        → length events ≡ 1
        → All (IsTold num client_id now now' socket_id msg) events
        → (e : ActivityEvent num.Number) × (events ≡ e ∷ [])
          × IsTold num client_id now now' socket_id msg e
    one_event [] h all = absurd (omega arith)
    one_event (e ∷ []) h (p, _) = (e, refl, p)
    one_event (e ∷ f ∷ es) h all = absurd (omega arith)

    -- When a connection has handled a SET_ACTIVITY message whose activity repeats no field, the server
    -- has sent one event more: of this socket, with the message's pid, and with no activity if the
    -- message's is missing or null, else with the activity that the message gives. A bridge that then
    -- receives all events, each of which can be serialised, remembers for this socket the message of
    -- that event, and nothing if it has no activity.
    pub answer_shown :
        (msg.cmd == "SET_ACTIVITY") ≡ true
        → IsMap (sent_fields (given "activity" msg.args))
        → (e : ActivityEvent num.Number) × (after.sent ≡ s.sent ++ e ∷ [])
          × IsTold num client_id now now' socket_id msg e
          × (get socket_id (feed num to_string (received after.sent) new).last_msgs
              ≡ shown e.activity (serialises e).0)
    answer_shown cmd h =
        let one_if : (if msg.cmd == "SET_ACTIVITY" then 1 else 0) ≡ 1 = rw cmd refl in
        let (events, state, count, all) =
          handle_message_tells num to_string socket_id client_id now now' msg s h in
        let (e, one, p) = one_event events (count ∙ one_if) all in
        let sent : after.sent ≡ s.sent ++ e ∷ [] =
          answer_sent num to_string socket_id client_id now now' msg s
          ∙ ap (λ t. t.sent) state
          ∙ ap (λ es. s.sent ++ es) one in
        let (last, _) =
          feed_lem num to_string (λ x. (serialises x).0) (λ x. (serialises x).1)
            (received after.sent) new in
        (
          e,
          sent,
          p,
          last socket_id
              ∙ rw (delivered-received after.sent, sent, last_event-own s.sent e socket_id p.socket)
                  (remembered_lem (λ x. (serialises x).0) e (get socket_id new.last_msgs)),
        )

-- What the messages tell is what the steps of the bridge and its clients assume of an event.
module _ (num : Numbers) where
  same-IsObject : (a b : Option (Value num.Number)) → a ≡ b → IsObject num b → IsObject num a
  same-IsObject a b e h = subst (IsObject num) (sym e) h

  IsGiven-IsObject :
      (client_id : String) (now now' : ℤ) (o a : Option (Value num.Number))
      → IsGiven num client_id now now' o a
      → IsObject num a
  IsGiven-IsObject client_id now now' none a e = same-IsObject a none e tt
  IsGiven-IsObject client_id now now' (some null) a e = same-IsObject a none e tt
  IsGiven-IsObject client_id now now' (some (bool b)) a (m, e, _) =
      same-IsObject a (some (object m)) e tt
  IsGiven-IsObject client_id now now' (some (number n)) a (m, e, _) =
      same-IsObject a (some (object m)) e tt
  IsGiven-IsObject client_id now now' (some (string t)) a (m, e, _) =
      same-IsObject a (some (object m)) e tt
  IsGiven-IsObject client_id now now' (some (array vs)) a (m, e, _) =
      same-IsObject a (some (object m)) e tt
  IsGiven-IsObject client_id now now' (some (object f)) a (m, e, _) =
      same-IsObject a (some (object m)) e tt

  -- The event that a message of a socket with a 64-bit id broadcasts has no activity or an object.
  IsTold-IsSendable :
      (client_id : String) (now now' : ℤ) (id : ℕ) (msg : RpcMessage num.Number)
      (e : ActivityEvent num.Number)
      → id < 2 ^ 64
      → IsTold num client_id now now' id msg e
      → IsSendable num e
  IsTold-IsSendable client_id now now' id msg e below told = (
    subst (λ k. k < 2 ^ 64) (sym told.socket) below,
    IsGiven-IsObject client_id now now' (given "activity" msg.args) e.activity told.activity,
  )
