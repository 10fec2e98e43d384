-- ===== src/Server/Handle/Tells.antt =====
-- The event that `handle_message` of src/server.rs broadcasts, as a description of the message gives it.
use dirpc.Prelude.{
  ℕ, ◌%◌, ◌^◌, String, Option, none, some, List, [], ◌∷◌, ◌++◌, ◌≡◌, ◌∙◌, refl, sym, ap, subst,
  length, if◌then◌else◌, ◌==◌, string_eq, Bool-cases, inl, inr, All, append-nil, ◌>>=◌,
}
use dirpc.Prelude.Int.{ℤ}
use dirpc.Json.{
  Numbers, Value, Fields, null, bool, number, string, array, object, end, get, as_number,
}
use dirpc.Json.Maps.{IsMap}
use dirpc.Types.{RpcMessage, ActivityEvent}
use dirpc.Server.State.{ServerState}
use dirpc.Server.Activity.Described.{IsFull, full_activity-IsFull}
use dirpc.Server.Handle.Effects.{quiet_branch}
use dirpc.Server.Handle.{handle_message, set_activity, raw_activity, pid_of}

module _ {N : Type 0} where
  -- What the message's arguments have under a key.
  abbrev pub given : String → Option (Value N) → Option (Value N)
  given key (some (object m)) = get key (object m)
  given key _ = none

  -- The fields of an activity; what is no object has none.
  abbrev pub sent_fields : Option (Value N) → Fields N
  sent_fields (some (object m)) = m
  sent_fields _ = end

module _ (num : Numbers) where
  abbrev pub sent_pid : Option (Value num.Number) → Option ℕ
  sent_pid (some (number n)) = elim (num.as_u64 n) [ none ↦ none | some p ↦ some (p % 2 ^ 32) ]
  sent_pid _ = none

  abbrev pub IsFullOf : String → ℤ → ℤ → Fields num.Number → Option (Value num.Number) → Type 0
  IsFullOf client_id now now' m a =
      (full : Fields num.Number) × (a ≡ some (object full)) × IsFull num client_id now now' m full

  -- The event's activity `a` is the one that the client's `o` gives: none if that is missing or null.
  abbrev pub IsGiven :
      String → ℤ → ℤ → Option (Value num.Number) → Option (Value num.Number) → Type 0
  IsGiven client_id now now' none a = a ≡ none
  IsGiven client_id now now' (some null) a = a ≡ none
  IsGiven client_id now now' (some (bool b)) a = IsFullOf client_id now now' end a
  IsGiven client_id now now' (some (number n)) a = IsFullOf client_id now now' end a
  IsGiven client_id now now' (some (string t)) a = IsFullOf client_id now now' end a
  IsGiven client_id now now' (some (array vs)) a = IsFullOf client_id now now' end a
  IsGiven client_id now now' (some (object m)) a = IsFullOf client_id now now' m a

  -- The event of socket `id` that the message tells of.
  pub record IsTold (client_id : String) (now now' : ℤ) (id : ℕ) (msg : RpcMessage num.Number)
      (e : ActivityEvent num.Number) : Type 0 where
    pub socket : e.socket_id ≡ id
    pub pid : e.pid ≡ sent_pid (given "pid" msg.args)
    pub activity : IsGiven client_id now now' (given "activity" msg.args) e.activity

  given_lem :
      (key : String) (args : Option (Value num.Number))
      → get key (elim args [ none ↦ null | some v ↦ v ]) ≡ given key args
  given_lem key none = refl
  given_lem key (some null) = refl
  given_lem key (some (bool b)) = refl
  given_lem key (some (number n)) = refl
  given_lem key (some (string t)) = refl
  given_lem key (some (array vs)) = refl
  given_lem key (some (object m)) = refl

  low_bits :
      (o : Option ℕ)
      → (o >>= λ n. some (n % 2 ^ 32)) ≡ elim o [ none ↦ none | some p ↦ some (p % 2 ^ 32) ]
  low_bits none = refl
  low_bits (some p) = refl

  sent_pid_lem :
      (o : Option (Value num.Number))
      → (o >>= as_number >>= num.as_u64 >>= λ n. some (n % 2 ^ 32)) ≡ sent_pid o
  sent_pid_lem none = refl
  sent_pid_lem (some null) = refl
  sent_pid_lem (some (bool b)) = refl
  sent_pid_lem (some (number n)) = low_bits (num.as_u64 n)
  sent_pid_lem (some (string t)) = refl
  sent_pid_lem (some (array vs)) = refl
  sent_pid_lem (some (object m)) = refl

  module _ (client_id : String) (now now' : ℤ) where
    -- the activity that is broadcast where the message has `o`
    abbrev broadcast_activity : Option (Value num.Number) → Option (Value num.Number)
    broadcast_activity o =
        (set_activity num client_id now now' (elim o [
          | none ↦ none
          | some v ↦ elim v [
            | null ↦ none
            | bool b ↦ some (bool b)
            | number n ↦ some (number n)
            | string t ↦ some (string t)
            | array xs ↦ some (array xs)
            | object m ↦ some (object m)
          ]
        ])).0

    set_activity-IsGiven :
        (o : Option (Value num.Number))
        → IsMap (sent_fields o)
        → IsGiven client_id now now' o (broadcast_activity o)
    unfolding set_activity
    set_activity-IsGiven none h = refl
    set_activity-IsGiven (some null) h = refl
    set_activity-IsGiven (some (bool b)) h =
        (_, refl, full_activity-IsFull num client_id now now' end h)
    set_activity-IsGiven (some (number n)) h =
        (_, refl, full_activity-IsFull num client_id now now' end h)
    set_activity-IsGiven (some (string t)) h =
        (_, refl, full_activity-IsFull num client_id now now' end h)
    set_activity-IsGiven (some (array vs)) h =
        (_, refl, full_activity-IsFull num client_id now now' end h)
    set_activity-IsGiven (some (object m)) h =
        (_, refl, full_activity-IsFull num client_id now now' m h)

    event : ℕ → RpcMessage num.Number → ActivityEvent num.Number
    event id msg = record {
      activity = (set_activity num client_id now now' (raw_activity num msg)).0;
      pid = pid_of num msg;
      socket_id = id;
    }

    event-IsTold :
        (id : ℕ) (msg : RpcMessage num.Number)
        → IsMap (sent_fields (given "activity" msg.args))
        → IsTold client_id now now' id msg (event id msg)
    unfolding event
    event-IsTold id msg h = record {
      socket = refl;
      pid =
          ap (λ o. o >>= as_number >>= num.as_u64 >>= λ n. some (n % 2 ^ 32))
            (given_lem "pid" msg.args)
          ∙ sent_pid_lem (given "pid" msg.args);
      activity =
          subst (λ o. IsGiven client_id now now' (given "activity" msg.args) (broadcast_activity o))
            (sym (given_lem "activity" msg.args))
            (set_activity-IsGiven (given "activity" msg.args) h);
    }

  module _ (to_string : Value num.Number → Option String) (socket_id : ℕ) (client_id : String)
      (now now' : ℤ) (msg : RpcMessage num.Number) (s : ServerState num.Number) where
    -- Where the message's activity repeats no field: SET_ACTIVITY broadcasts exactly one event, of its
    -- socket, with the low 32 bits of the message's pid, and with no activity if the message's is
    -- missing or null, else with the message's fields, its buttons split into labels and urls, its
    -- timestamps scaled, and the defaults. Any other message broadcasts nothing. The sockets and the
    -- next id are as before.
    pub handle_message_tells :
        IsMap (sent_fields (given "activity" msg.args))
        → (events : List (ActivityEvent num.Number)) × ((handle_message num to_string socket_id
              client_id now now' msg s).1
            ≡ record s { sent = s.sent ++ events })
          × (length events ≡ (if msg.cmd == "SET_ACTIVITY" then 1 else 0))
          × All (IsTold client_id now now' socket_id msg) events
    unfolding handle_message event
    handle_message_tells h = elim (Bool-cases (msg.cmd == "SET_ACTIVITY")) [
      | inl e ↦ rw e (
        event client_id now now' socket_id msg ∷ [],
        refl,
        refl,
        (event-IsTold client_id now now' socket_id msg h, tt),
      )
      | inr e ↦ rw e (
        [],
        rw append-nil (
            quiet_branch num to_string socket_id client_id now now' msg s
              (msg.cmd == "CONNECTIONS_CALLBACK") _),
        refl,
        tt,
      )
    ]
