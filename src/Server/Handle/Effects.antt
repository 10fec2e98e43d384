-- ===== src/Server/Handle/Effects.antt =====
-- What `handle_message` changes and answers, for every command.
use dirpc.Prelude.{
  ℕ, ◌%◌, ◌<◌, ◌^◌, String, Bool, true, false, Option, none, some, List, [], ◌∷◌, ◌++◌, ◌≡◌, ◌↔◌,
  refl, arith, length, if◌then◌else◌, ◌==◌, string_eq, Bool-cases, inl, inr, All, append-nil,
  is_some, ◌||◌, ◌>>=◌,
}
use dirpc.Prelude.Int.{ℤ}
use dirpc.Json.{Numbers, Value, null, string, number, object, field, end, lookup, get, as_number}
use dirpc.Types.{RpcMessage, ActivityEvent}
use dirpc.Server.State.{ServerState}
use dirpc.Server.Handle.{
  handle_message, set_activity, raw_activity, pid_of, args_of, opt_string, response,
}

-- A number of 32 bits, if there is one.
abbrev pub FitsU32 : Option ℕ → Type 0
FitsU32 none = Unit
FitsU32 (some n) = n < 2 ^ 32

module _ (num : Numbers) (to_string : Value num.Number → Option String) where
  -- An event of socket `id` that the message accounts for.
  pub record IsEventOf (id : ℕ) (msg : RpcMessage num.Number) (e : ActivityEvent num.Number)
      : Type 0 where
    pub socket : e.socket_id ≡ id
    pub pid_fits : FitsU32 e.pid
    pub cleared : (e.activity ≡ none) ↔ (raw_activity num msg ≡ none)

  pid_of-FitsU32 : (msg : RpcMessage num.Number) → FitsU32 (pid_of num msg)
  pid_of-FitsU32 msg = fits (get "pid" (args_of num msg) >>= as_number >>= num.as_u64)
    where
      fits : (o : Option ℕ) → FitsU32 (o >>= λ n. some (n % 2 ^ 32))
      fits none = tt
      fits (some n) = omega arith

  set_activity_cleared :
      (client_id : String) (now now' : ℤ) (o : Option (Value num.Number))
      → ((set_activity num client_id now now' o).0 ≡ none) ↔ (o ≡ none)
  unfolding set_activity
  set_activity_cleared client_id now now' none = (λ e. e, λ e. e)
  set_activity_cleared client_id now now' (some v) = (λ e. cc, λ e. cc)

  module _ (socket_id : ℕ) (client_id : String) (now now' : ℤ) (msg : RpcMessage num.Number)
      (s : ServerState num.Number) where
    -- both other branches leave the state alone
    pub quiet_branch :
        (b : Bool) (r : Option String)
        → (if◌then◌else◌ {A = Option String × ServerState num.Number} b (r, s) (none, s)).1 ≡ s
    quiet_branch true r = refl
    quiet_branch false r = refl

    -- A SET_ACTIVITY message broadcasts exactly one event, of its socket, with a 32-bit pid, whose
    -- activity is empty exactly if the message's is missing or null. Any other message broadcasts
    -- nothing. The sockets and the next id are as before.
    pub handle_message_events :
        (events : List (ActivityEvent num.Number)) × ((handle_message num to_string socket_id
            client_id now now' msg s).1
          ≡ record s { sent = s.sent ++ events })
        × (length events ≡ (if msg.cmd == "SET_ACTIVITY" then 1 else 0))
        × All (IsEventOf socket_id msg) events
    unfolding handle_message
    handle_message_events = elim (Bool-cases (msg.cmd == "SET_ACTIVITY")) [
      | inl e ↦ rw e (
        record {
          activity = (set_activity num client_id now now' (raw_activity num msg)).0;
          pid = pid_of num msg;
          socket_id = socket_id;
        }
            ∷ [],
        refl,
        refl,
        (
          record {
            socket = refl;
            pid_fits = pid_of-FitsU32 msg;
            cleared = set_activity_cleared client_id now now' (raw_activity num msg);
          },
          tt,
        ),
      )
      | inr e ↦
          rw e ([], rw append-nil (quiet_branch (msg.cmd == "CONNECTIONS_CALLBACK") _), refl, tt)
    ]

    -- If every value can be serialised, there is an answer exactly to SET_ACTIVITY and
    -- CONNECTIONS_CALLBACK.
    handle_message_answers :
        ((v : Value num.Number) → is_some (to_string v) ≡ true)
        → is_some (handle_message num to_string socket_id client_id now now' msg s).0
          ≡ (msg.cmd == "SET_ACTIVITY" || msg.cmd == "CONNECTIONS_CALLBACK")
    unfolding handle_message
    handle_message_answers total = elim (Bool-cases (msg.cmd == "SET_ACTIVITY")) [
      | inl e ↦ rw e (total _)
      | inr e ↦ elim (Bool-cases (msg.cmd == "CONNECTIONS_CALLBACK")) [
        | inl f ↦ rw (e, f) (total _)
        | inr f ↦ rw (e, f)
      ]
    ]

    -- An answer is the text of a value that repeats the command and the nonce of its message.
    handle_message_echoes :
        {text : String}
        → (handle_message num to_string socket_id client_id now now' msg s).0 ≡ some text
        → (v : Value num.Number) × (to_string v ≡ some text)
          × (get "cmd" v ≡ some (string msg.cmd))
          × (get "nonce" v ≡ some (opt_string num msg.nonce))
          × (get "evt" v ≡ some (if msg.cmd == "SET_ACTIVITY" then null else string "ERROR"))
    unfolding handle_message lookup
    handle_message_echoes {text} h = elim (Bool-cases (msg.cmd == "SET_ACTIVITY")) [
      | inl e ↦ rw e (
        response num msg (set_activity num client_id now now' (raw_activity num msg)).1 null,
        rw e at h,
        refl,
        refl,
        refl,
      )
      | inr e ↦ elim (Bool-cases (msg.cmd == "CONNECTIONS_CALLBACK")) [
        | inl f ↦ rw e (
          response num msg (object (field "code" (number (num.of_u64 1000)) end)) (string "ERROR"),
          rw (e, f) at h,
          refl,
          refl,
          refl,
        )
        | inr f ↦ absurd (cc (rw (e, f) at h))
      ]
    ]
