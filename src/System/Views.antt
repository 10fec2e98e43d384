-- ===== src/System/Views.antt =====
-- A turn of a connection is determined by the connection and its queue.
use dirpc.Prelude.{
  ℕ, String, Bool, true, false, Option, none, some, nat_eq, ==_refl, ◌≡◌, ◌∙◌, refl, sym, ap,
  Bool-cases, inl, inr,
}
use dirpc.Prelude.Assoc.{get, get-insert, get-remove}
use dirpc.Json.{Numbers}
use dirpc.Server.State.{
  ServerState, Channel, new_channel, ready_payload, register_socket, unregister_socket,
}
use dirpc.Server.Handle.Agrees.{Agree}
use dirpc.Ipc.Connection as Ipc
use dirpc.Ipc.Connection.{ready_frame}
use dirpc.Ipc.Connection.Views as IpcViews
use dirpc.Websocket.Connection as Websocket
use dirpc.Websocket.Connection.Views as WebsocketViews
use dirpc.System.{
  Phase, opening, running, closing, Pipe, ipc, websocket, Link, Turn, start, finish, ipc_round,
  websocket_round, ipc_bytes, websocket_message, on_start, ipc_flow, on_ipc_round, websocket_flow,
  on_websocket_round, on_finish, take_turn,
}

-- A connection and its queue.
abbrev pub Seen : Type 0
Seen = Option Link × Option Channel

abbrev pub seen : {N : Type 0} → ℕ → Option Link × ServerState N → Seen
seen id r = (r.0, get id r.1.sockets)

abbrev phase_of : Bool → Phase
phase_of true = running
phase_of false = closing

abbrev of_ipc : String → IpcViews.View → Seen
of_ipc client_id (on, r, w, o) =
    (some (record { phase = phase_of on; client_id = client_id; pipe = ipc r w }), o)

abbrev of_websocket : String → WebsocketViews.View → Seen
of_websocket client_id (on, r, w, o) =
    (some (record { phase = phase_of on; client_id = client_id; pipe = websocket r w }), o)

module _ (num : Numbers) (env : ℕ → Ipc.Env num) (client : ℕ → Websocket.Client num.Number) (id : ℕ)
    (client_id : String) (s t : ServerState num.Number) (agree : Agree id s t) where
  same_alike : (o : Option Link) → seen id (o, s) ≡ seen id (o, t)
  same_alike o = ap (λ c. (o, c)) agree

  registered_alike :
      (o : Option Link)
      → seen id (o, register_socket id new_channel s)
        ≡ seen id (o, register_socket id new_channel t)
  unfolding register_socket
  registered_alike o =
      rw
        (get-insert id id new_channel s.sockets, get-insert id id new_channel t.sockets, ==_refl id)
        refl

  on_start_alike :
      (phase : Phase) (pipe : Pipe)
      → seen id (on_start num env client id phase client_id pipe s)
        ≡ seen id (on_start num env client id phase client_id pipe t)
  unfolding on_start
  on_start_alike opening (ipc reader written) =
      elim (Bool-cases ((env id).write_ok written ready_frame)) [
        | inl e ↦ rw e (registered_alike _)
        | inr e ↦ rw e (same_alike none)
      ]
  on_start_alike opening (websocket reader sent) =
      elim (Bool-cases ((client id).send_ok sent ready_payload)) [
        | inl e ↦ rw e (registered_alike _)
        | inr e ↦ rw e (same_alike none)
      ]
  on_start_alike running pipe = same_alike _
  on_start_alike closing pipe = same_alike _

  ipc_flow-of_ipc :
      (f : Ipc.Flow num.Number)
      → seen id (ipc_flow num env client client_id f) ≡ of_ipc client_id (IpcViews.view id f)
  ipc_flow-of_ipc (Ipc.continue c) = refl
  ipc_flow-of_ipc (Ipc.break c) = refl

  on_ipc_round_alike :
      (k : Ipc.Round) (phase : Phase) (pipe : Pipe)
      → seen id (on_ipc_round num env client id k phase client_id pipe s)
        ≡ seen id (on_ipc_round num env client id k phase client_id pipe t)
  unfolding on_ipc_round
  on_ipc_round_alike k running (ipc r w) =
      ipc_flow-of_ipc _
      ∙ ap (of_ipc client_id) (IpcViews.round_view num (env id) id client_id k r w s t agree)
      ∙ sym (ipc_flow-of_ipc _)
  on_ipc_round_alike k running (websocket r w) = same_alike _
  on_ipc_round_alike k opening pipe = same_alike _
  on_ipc_round_alike k closing pipe = same_alike _

  websocket_flow-of_websocket :
      (f : Websocket.Flow num.Number)
      → seen id (websocket_flow num env client client_id f)
        ≡ of_websocket client_id (WebsocketViews.view id f)
  websocket_flow-of_websocket (Websocket.continue c) = refl
  websocket_flow-of_websocket (Websocket.break c) = refl

  on_websocket_round_alike :
      (k : Websocket.Round) (phase : Phase) (pipe : Pipe)
      → seen id (on_websocket_round num env client id k phase client_id pipe s)
        ≡ seen id (on_websocket_round num env client id k phase client_id pipe t)
  unfolding on_websocket_round
  on_websocket_round_alike k running (websocket r w) =
      websocket_flow-of_websocket _
      ∙ ap (of_websocket client_id)
          (WebsocketViews.round_view num (client id) id client_id k r w s t agree)
      ∙ sym (websocket_flow-of_websocket _)
  on_websocket_round_alike k running (ipc r w) = same_alike _
  on_websocket_round_alike k opening pipe = same_alike _
  on_websocket_round_alike k closing pipe = same_alike _

  on_finish_alike :
      (phase : Phase) (pipe : Pipe)
      → seen id (on_finish num env client id phase client_id pipe s)
        ≡ seen id (on_finish num env client id phase client_id pipe t)
  unfolding on_finish unregister_socket
  on_finish_alike closing pipe =
      rw (get-remove id id s.sockets, get-remove id id t.sockets, ==_refl id) refl
  on_finish_alike opening pipe = same_alike _
  on_finish_alike running pipe = same_alike _

module _ (num : Numbers) (env : ℕ → Ipc.Env num) (client : ℕ → Websocket.Client num.Number) where
  pub take_turn_alike :
      (id : ℕ) (t : Turn) (l : Link) (s u : ServerState num.Number)
      → Agree id s u
      → seen id (take_turn num env client id t l s) ≡ seen id (take_turn num env client id t l u)
  unfolding take_turn
  take_turn_alike id start l s u agree =
      on_start_alike num env client id l.client_id s u agree l.phase l.pipe
  take_turn_alike id finish l s u agree =
      on_finish_alike num env client id l.client_id s u agree l.phase l.pipe
  take_turn_alike id (ipc_round k) l s u agree =
      on_ipc_round_alike num env client id l.client_id s u agree k l.phase l.pipe
  take_turn_alike id (websocket_round k) l s u agree =
      on_websocket_round_alike num env client id l.client_id s u agree k l.phase l.pipe
  take_turn_alike id (ipc_bytes more) l s u agree =
      same_alike num env client id l.client_id s u agree _
  take_turn_alike id (websocket_message m) l s u agree =
      same_alike num env client id l.client_id s u agree _
