-- ===== src/Bridge/Feed.antt =====
-- What the bridge remembers and sends: the last message of each socket, every message in order.
use dirpc.Prelude.{
  ℕ, String, false, Option, none, some, List, [], ◌∷◌, ◌++◌, map, ◌≡◌, ◌∙◌, refl, sym, arith,
  if◌then◌else◌, ◌==◌, ==_refl, nat_eq, append_assoc, append-nil,
}
use dirpc.Prelude.Assoc.{Assoc, get, get-insert, get-remove}
use dirpc.Json.{Numbers, Value}
use dirpc.Types.{ActivityEvent}
use dirpc.Bridge.{
  BridgeState, Received, ok, lagged, closed, bridge_msg, remember, handle_event, feed,
}

-- The events that reach the task: those received before the channel closes.
abbrev pub delivered {ℓ} : {A : Type ℓ} → List (Received A) → List A
delivered [] = []
delivered (ok a ∷ rest) = a ∷ delivered rest
delivered (lagged n ∷ rest) = delivered rest
delivered (closed ∷ rest) = []

-- The last of the events that carries the key.
abbrev pub last_event : {N : Type 0} → ℕ → List (ActivityEvent N) → Option (ActivityEvent N)
last_event k [] = none
last_event k (e ∷ es) = elim (last_event k es) [
  | none ↦ if e.socket_id == k then some e else none
  | some x ↦ some x
]

pub last_event-last :
    {N : Type 0} (es : List (ActivityEvent N)) (e : ActivityEvent N)
    → last_event e.socket_id (es ++ e ∷ []) ≡ some e
last_event-last [] e = rw (==_refl e.socket_id) refl
last_event-last (x ∷ es) e = rw (last_event-last es e) refl

pub last_event_others :
    {N : Type 0} (es : List (ActivityEvent N)) (e : ActivityEvent N) (j : ℕ)
    → (e.socket_id == j) ≡ false
    → last_event j (es ++ e ∷ []) ≡ last_event j es
last_event_others [] e j other = rw other refl
last_event_others (x ∷ es) e j other = rw (last_event_others es e j other) refl

-- What an event leaves remembered, given what was there without it.
abbrev pub remembered :
    {N : Type 0}
    → (ActivityEvent N → String)
    → Option (ActivityEvent N)
    → Option String
    → Option String
remembered text none old = old
remembered text (some e) old = elim e.activity [ none ↦ none | some _ ↦ some (text e) ]

pub get-remember :
    (num : Numbers) (key k : ℕ) (a : Option (Value num.Number)) (json : String) (m : Assoc ℕ String)
    → get k (remember num key a json m)
      ≡ (if key == k then elim a [ none ↦ none | some _ ↦ some json ] else get k m)
unfolding remember
get-remember num key k none json m = get-remove key k m
get-remember num key k (some v) json m = get-insert key k json m

pub handle_event-some :
    (num : Numbers) (to_string : Value num.Number → Option String) (e : ActivityEvent num.Number)
    (t : String) (s : BridgeState)
    → to_string (bridge_msg num e) ≡ some t
    → handle_event num to_string e s ≡ record {
      last_msgs = remember num e.socket_id e.activity t s.last_msgs;
      sent = s.sent ++ t ∷ [];
    }
unfolding handle_event
handle_event-some num to_string e t s says = rw says

module _ (num : Numbers) (to_string : Value num.Number → Option String)
    (text : ActivityEvent num.Number → String)
    (serialises : (e : ActivityEvent num.Number)
      → to_string (bridge_msg num e) ≡ some (text e)) where
  -- If every event's message can be serialised, after the events the bridge remembers for each
  -- socket the message of its last event if that has an activity, nothing if it has none, and what
  -- it had before if there was no event. It has sent each event's message once, in order; lagging
  -- loses only the events that it skips.
  pub feed_lem :
      (rs : List (Received (ActivityEvent num.Number))) (s : BridgeState)
      → ((k : ℕ)
          → get k (feed num to_string rs s).last_msgs
            ≡ remembered text (last_event k (delivered rs)) (get k s.last_msgs))
        × ((feed num to_string rs s).sent ≡ s.sent ++ map text (delivered rs))
  unfolding feed
  feed_lem [] s = (λ k. refl, sym (append-nil s.sent))
  feed_lem (closed ∷ rs) s = (λ k. refl, sym (append-nil s.sent))
  feed_lem (lagged n ∷ rs) s = feed_lem rs s
  feed_lem (ok e ∷ rs) s =
      let (last, sent) = feed_lem rs (handle_event num to_string e s) in
      (
        λ k.
            last k
            ∙ rw
                (
                  handle_event-some num to_string e (text e) s (serialises e),
                  get-remember num e.socket_id k e.activity (text e) s.last_msgs,
                )
                (ground arith),
        sent
            ∙ rw (handle_event-some num to_string e (text e) s (serialises e))
                (append_assoc s.sent (text e ∷ []) (map text (delivered rs))),
      )
