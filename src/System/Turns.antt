-- ===== src/System/Turns.antt =====
-- What a turn of one connection does to the server.
use dirpc.Prelude.{
  ℕ, ◌<◌, String, Bool, true, false, Option, none, some, is_some, ◌==◌, nat_eq, ==_refl, ◌≡◌, ◌∙◌,
  refl, sym, Bool-cases, inl, inr,
}
use dirpc.Prelude.Assoc.{get, get-insert, get-remove}
use dirpc.Json.{Numbers}
use dirpc.Types.{ActivityEvent}
use dirpc.Bridge.Feed.{last_event, last_event-last, last_event_others}
use dirpc.Server.State.{
  broadcast, ServerState, new_channel, ready_payload, register_socket, unregister_socket,
}
use dirpc.Server.State.Reach.{Reach, next, register, unregister}
use dirpc.Server.Handle.Closed.{IsClosed}
use dirpc.Server.Handle.Keeps.{others-IsClosed, Registered-IsClosed, next-IsClosed, events-IsClosed}
use dirpc.Server.Handle.Reaches.{Reach-IsClosed}
use dirpc.Ipc.Connection as Ipc
use dirpc.Ipc.Connection.{ready_frame}
use dirpc.Ipc.Connection.Rounds as IpcRounds
use dirpc.Websocket.Connection as Websocket
use dirpc.Websocket.Connection.Rounds as WebsocketRounds
use dirpc.System.{
  Phase, opening, running, closing, Pipe, ipc, websocket, Link, Turn, start, finish, ipc_round,
  websocket_round, ipc_bytes, websocket_message, on_start, ipc_flow, on_ipc_round, websocket_flow,
  on_websocket_round, on_finish, take_turn,
}

-- A connection has a registered socket in its loop and up to the clean-up behind it.
abbrev pub in_table : Phase → Bool
in_table opening = false
in_table running = true
in_table closing = true

abbrev pub has_socket : Option Link → Bool
has_socket none = false
has_socket (some l) = in_table l.phase

-- The last event of a socket, if there is one, clears its activity.
abbrev pub IsClear : {N : Type 0} → Option (ActivityEvent N) → Type 0
IsClear none = Unit
IsClear (some e) = e.activity ≡ none

abbrev pub IsSilent : {N : Type 0} → ℕ → ServerState N → Type 0
IsSilent id s = IsClear (last_event id s.sent)

-- The turn of connection `id`, registered or not, from the server `s`.
pub record Sound {N : Type 0} (id : ℕ) (before : Bool) (s : ServerState N)
    (r : Option Link × ServerState N) : Type 0 where
  pub others : (j : ℕ) → (id == j) ≡ false → get j r.1.sockets ≡ get j s.sockets
  pub own : is_some (get id s.sockets) ≡ before → is_some (get id r.1.sockets) ≡ has_socket r.0
  pub ids : r.1.next_socket_id ≡ s.next_socket_id
  pub steps : Reach s → id < s.next_socket_id → Reach r.1
  pub events : (j : ℕ) → (id == j) ≡ false → last_event j r.1.sent ≡ last_event j s.sent
  pub silent : has_socket r.0 ≡ false → (before ≡ false → IsSilent id s) → IsSilent id r.1

module _ {N : Type 0} (id : ℕ) (s : ServerState N) where
  same-Sound : (l : Link) → Sound id (in_table l.phase) s (some l, s)
  same-Sound l = record {
    others = λ j h. refl;
    own = λ h. h;
    ids = refl;
    steps = λ r lt. r;
    events = λ j h. refl;
    silent = λ h quiet. quiet h;
  }

  gone-Sound : Sound id false s (none, s)
  gone-Sound = record {
    others = λ j h. refl;
    own = λ h. h;
    ids = refl;
    steps = λ r lt. r;
    events = λ j h. refl;
    silent = λ h quiet. quiet refl;
  }

  registered-Sound :
      (l : Link)
      → in_table l.phase ≡ true
      → Sound id false s (some l, register_socket id new_channel s)
  unfolding register_socket
  registered-Sound l e = record {
    others = λ j h. rw (get-insert id j new_channel s.sockets, h) refl;
    own = λ h. rw (get-insert id id new_channel s.sockets, ==_refl id) (sym e);
    ids = refl;
    steps = λ r lt. unfold register_socket in next r (register s id lt);
    events = λ j h. refl;
    silent = λ h quiet. cc;
  }

  abbrev clear : ActivityEvent N
  clear = record { activity = none; pid = none; socket_id = id }

  unregistered-Sound : (b : Bool) → Sound id b s (none, unregister_socket id s)
  unfolding unregister_socket broadcast
  unregistered-Sound b = record {
    others = λ j h. rw (get-remove id j s.sockets, h) refl;
    own = λ h. rw (get-remove id id s.sockets, ==_refl id) refl;
    ids = refl;
    steps = λ r lt. unfold unregister_socket in next r (unregister s id);
    events = λ j h. last_event_others s.sent clear j h;
    silent = λ h quiet. rw (last_event-last s.sent clear) refl;
  }

  -- a round, by what its effects keep
  round-Sound :
      (l : Link) (s' : ServerState N)
      → in_table l.phase ≡ true
      → ((P : ServerState N → Type 0) → IsClosed id P → P s → P s')
      → Sound id true s (some l, s')
  round-Sound l s' e keeps = record {
    others = λ j h. keeps _ (others-IsClosed id j h (get j s.sockets)) refl;
    own = λ h. keeps _ (Registered-IsClosed id true) h ∙ sym e;
    ids = keeps _ (next-IsClosed id s.next_socket_id) refl;
    steps = λ r lt. keeps Reach (Reach-IsClosed id) r;
    events = λ j h. keeps _ (events-IsClosed id j h (last_event j s.sent)) refl;
    silent = λ h quiet. cc;
  }

module _ (num : Numbers) (env : ℕ → Ipc.Env num) (client : ℕ → Websocket.Client num.Number) (id : ℕ)
    (client_id : String) (s : ServerState num.Number) where
  on_start-Sound :
      (phase : Phase) (pipe : Pipe)
      → Sound id (in_table phase) s (on_start num env client id phase client_id pipe s)
  unfolding on_start
  on_start-Sound opening (ipc reader written) =
      elim (Bool-cases ((env id).write_ok written ready_frame)) [
        | inl e ↦ rw e (registered-Sound id s _ refl)
        | inr e ↦ rw e (gone-Sound id s)
      ]
  on_start-Sound opening (websocket reader sent) =
      elim (Bool-cases ((client id).send_ok sent ready_payload)) [
        | inl e ↦ rw e (registered-Sound id s _ refl)
        | inr e ↦ rw e (gone-Sound id s)
      ]
  on_start-Sound running pipe = same-Sound id s _
  on_start-Sound closing pipe = same-Sound id s _

  ipc_flow-Sound :
      (f : Ipc.Flow num.Number)
      → ((P : ServerState num.Number → Type 0)
          → IsClosed id P
          → P s
          → P (IpcRounds.conn_of f).server)
      → Sound id true s (ipc_flow num env client client_id f)
  ipc_flow-Sound (Ipc.continue c) keeps = round-Sound id s _ c.server refl keeps
  ipc_flow-Sound (Ipc.break c) keeps = round-Sound id s _ c.server refl keeps

  on_ipc_round-Sound :
      (k : Ipc.Round) (phase : Phase) (pipe : Pipe)
      → Sound id (in_table phase) s (on_ipc_round num env client id k phase client_id pipe s)
  unfolding on_ipc_round
  on_ipc_round-Sound k running (ipc reader written) =
      ipc_flow-Sound _
        (λ P closed p. IpcRounds.round-closed num (env id) id client_id P closed k _ p)
  on_ipc_round-Sound k running (websocket reader sent) = same-Sound id s _
  on_ipc_round-Sound k opening pipe = same-Sound id s _
  on_ipc_round-Sound k closing pipe = same-Sound id s _

  websocket_flow-Sound :
      (f : Websocket.Flow num.Number)
      → ((P : ServerState num.Number → Type 0)
          → IsClosed id P
          → P s
          → P (WebsocketRounds.conn_of f).server)
      → Sound id true s (websocket_flow num env client client_id f)
  websocket_flow-Sound (Websocket.continue c) keeps = round-Sound id s _ c.server refl keeps
  websocket_flow-Sound (Websocket.break c) keeps = round-Sound id s _ c.server refl keeps

  on_websocket_round-Sound :
      (k : Websocket.Round) (phase : Phase) (pipe : Pipe)
      → Sound id (in_table phase) s (on_websocket_round num env client id k phase client_id pipe s)
  unfolding on_websocket_round
  on_websocket_round-Sound k running (websocket reader sent) =
      websocket_flow-Sound _
        (λ P closed p. WebsocketRounds.round-closed num (client id) id client_id P closed k _ p)
  on_websocket_round-Sound k running (ipc reader written) = same-Sound id s _
  on_websocket_round-Sound k opening pipe = same-Sound id s _
  on_websocket_round-Sound k closing pipe = same-Sound id s _

  on_finish-Sound :
      (phase : Phase) (pipe : Pipe)
      → Sound id (in_table phase) s (on_finish num env client id phase client_id pipe s)
  unfolding on_finish
  on_finish-Sound closing pipe = unregistered-Sound id s true
  on_finish-Sound opening pipe = same-Sound id s _
  on_finish-Sound running pipe = same-Sound id s _

module _ (num : Numbers) (env : ℕ → Ipc.Env num) (client : ℕ → Websocket.Client num.Number) where
  pub take_turn-Sound :
      (id : ℕ) (t : Turn) (l : Link) (s : ServerState num.Number)
      → Sound id (has_socket (some l)) s (take_turn num env client id t l s)
  unfolding take_turn
  take_turn-Sound id start l s = on_start-Sound num env client id l.client_id s l.phase l.pipe
  take_turn-Sound id finish l s = on_finish-Sound num env client id l.client_id s l.phase l.pipe
  take_turn-Sound id (ipc_round k) l s =
      on_ipc_round-Sound num env client id l.client_id s k l.phase l.pipe
  take_turn-Sound id (websocket_round k) l s =
      on_websocket_round-Sound num env client id l.client_id s k l.phase l.pipe
  take_turn-Sound id (ipc_bytes more) l s = same-Sound id s _
  take_turn-Sound id (websocket_message m) l s = same-Sound id s _
