-- ===== src/Bridge/Client/World.antt =====
-- The feeding task and one client of src/bridge.rs as interleaved steps. The receivers keep up: no
-- step drops a message because one lags.
use mathlib.Core.List.{foldl}
use dirpc.Prelude.{
  ℕ, ◌<◌, ◌^◌, String, Bool, true, false, Option, none, some, List, [], ◌∷◌, ◌++◌, ◌≡◌,
  if◌then◌else◌, nat_eq, any, ◌||◌, is_some, ◌==◌,
}
use dirpc.Prelude.Assoc.{Assoc, get, insert, remove}
use dirpc.Json.{Numbers, Value, object}
use dirpc.Types.{ActivityEvent}
use dirpc.Bridge.{bridge_msg, handle_event}
use dirpc.Bridge.Client.{values}

pub record World : Type 0 where
  -- `last_msgs`
  pub last : Assoc ℕ String
  -- a message that is remembered and not yet broadcast
  pub pending : Option String
  pub subscribed : Bool
  pub snapped : Bool
  -- what the iteration over the map has found, and the keys that were stored since the subscription
  pub found : Assoc ℕ String
  pub changed : List ℕ
  -- what waits in the client's receiver
  pub inbox : List String
  -- what the messages sent to the client add up to
  pub view : Assoc ℕ String

abbrev pub start : World
start = record {
  last = [];
  pending = none;
  subscribed = false;
  snapped = false;
  found = [];
  changed = [];
  inbox = [];
  view = [];
}

abbrev pub with_pending : Option String → List String → List String
with_pending none inbox = inbox
with_pending (some t) inbox = inbox ++ t ∷ []

abbrev pub has_key : ℕ → List ℕ → Bool
has_key k ks = any (λ j. j == k) ks

-- What the client has still to be sent.
abbrev pub queue : World → List String
queue w = with_pending w.pending w.inbox

-- `reads`: the socket that a message is about, and whether it sets or clears the activity.
module _ (reads : String → Option (ℕ × Bool)) where
  unfoldable pub apply_read : Option (ℕ × Bool) → String → Assoc ℕ String → Assoc ℕ String
  apply_read none t view = view
  apply_read (some (k, true)) t view = insert k t view
  apply_read (some (k, false)) t view = remove k view

  unfoldable pub apply : Assoc ℕ String → String → Assoc ℕ String
  apply view t = apply_read (reads t) t view

  unfoldable pub apply_all : Assoc ℕ String → List String → Assoc ℕ String
  apply_all = foldl apply

module _ (num : Numbers) where
  -- An event as the server makes it: its activity is none or an object, its id one of 64 bits.
  abbrev pub IsObject : Option (Value num.Number) → Type 0
  IsObject none = Unit
  IsObject (some (object m)) = Unit
  IsObject (some _) = ⊥

  abbrev pub IsSendable : ActivityEvent num.Number → Type 0
  IsSendable e = (e.socket_id < 2 ^ 64) × IsObject e.activity

module _ (num : Numbers) (to_string : Value num.Number → Option String)
    (reads : String → Option (ℕ × Bool)) where
  -- what is remembered after the event
  abbrev pub stored_last : ActivityEvent num.Number → World → Assoc ℕ String
  stored_last e w =
      (handle_event num to_string e (record { last_msgs = w.last; sent = [] })).last_msgs

  -- Steps of the feeding task (`store`, `send`) and of the client (`subscribe`, `visit`, `snapshot`,
  -- `deliver`), in the order in which each of them takes them. The iteration over the map visits one
  -- entry at a time while events are stored; it need not find a key that was stored meanwhile. An event
  -- that cannot be serialised is no step.
  pub data Step (w : World) : World → Type 0 where
    store :
        (e : ActivityEvent num.Number) (t : String)
        → IsSendable num e
        → to_string (bridge_msg num e) ≡ some t
        → w.pending ≡ none
        → Step w (record w {
          last = stored_last e w;
          pending = some t;
          changed = e.socket_id ∷ w.changed;
        })
    send :
        (t : String)
        → w.pending ≡ some t
        → Step w (record w {
          pending = none;
          inbox = if w.subscribed then w.inbox ++ t ∷ [] else w.inbox;
        })
    subscribe :
        w.subscribed ≡ false
        → Step w (record w { subscribed = true; inbox = []; found = []; changed = [] })
    visit :
        (k : ℕ) (t : String)
        → w.subscribed ≡ true
        → w.snapped ≡ false
        → get k w.last ≡ some t
        → Step w (record w { found = insert k t w.found })
    snapshot :
        w.subscribed ≡ true
        → w.snapped ≡ false
        → ((k : ℕ) (t : String)
            → get k w.last ≡ some t
            → (is_some (get k w.found) || has_key k w.changed) ≡ true)
        → Step w (record w { snapped = true; view = apply_all reads [] (values w.found) })
    deliver :
        (t : String) (rest : List String)
        → w.snapped ≡ true
        → w.inbox ≡ t ∷ rest
        → Step w (record w { inbox = rest; view = apply reads w.view t })

  pub data Reach : World → Type 0 where
    here : Reach start
    next : {w v : World} → Reach w → Step w v → Reach v
