-- ===== src/Websocket/Connection/Views.antt =====
-- What a round of a WebSocket connection does is determined by the connection and its own queue, whatever
-- the rest of the server holds.
use dirpc.Prelude.{
  ℕ, String, Bool, true, false, Option, none, some, List, [], ◌∷◌, ◌++◌, nat_eq, ==_refl, ◌≡◌, ◌∙◌,
  refl, ap, Bool-cases, inl, inr,
}
use dirpc.Prelude.Int.{ℤ}
use dirpc.Prelude.Assoc.{get, get-insert}
use dirpc.Json.{Numbers}
use dirpc.Server.State.{ServerState, Channel, pop}
use dirpc.Server.Handle.Agrees.{Agree, answer_agrees}
use dirpc.Websocket.Connection.{
  Inbound, text, close, other, failure, Client, Conn, Round, outbound, inbound, Flow, continue,
  break, send_text, popped, on_outbound, on_message, on_inbound, round,
}

-- Whether the loop goes on, the connection, and its queue.
abbrev pub View : Type 0
View = Bool × List Inbound × List String × Option Channel

abbrev pub view : {N : Type 0} → ℕ → Flow N → View
view id (continue c) = (true, c.reader, c.sent, get id c.server.sockets)
view id (break c) = (false, c.reader, c.sent, get id c.server.sockets)

abbrev pub conn : {N : Type 0} → List Inbound → List String → ServerState N → Conn N
conn reader sent s = record { reader = reader; sent = sent; server = s }

module _ (num : Numbers) (client : Client num.Number) (id : ℕ) (client_id : String) where
  goes_on :
      (r : List Inbound) (w : List String) (s t : ServerState num.Number)
      → Agree id s t
      → view id (continue (conn r w s)) ≡ view id (continue (conn r w t))
  goes_on r w s t same = ap (λ o. (true, r, w, o)) same

  stops :
      (r : List Inbound) (w : List String) (s t : ServerState num.Number)
      → Agree id s t
      → view id (break (conn r w s)) ≡ view id (break (conn r w t))
  stops r w s t same = ap (λ o. (false, r, w, o)) same

  send_text_view :
      (json : String) (r : List Inbound) (w : List String) (s t : ServerState num.Number)
      → Agree id s t
      → view id (send_text num client id client_id json (conn r w s))
        ≡ view id (send_text num client id client_id json (conn r w t))
  unfolding send_text
  send_text_view json r w s t same = elim (Bool-cases (client.send_ok w json)) [
    | inl e ↦ rw e (goes_on r (w ++ json ∷ []) s t same)
    | inr e ↦ rw e (stops r w s t same)
  ]

  popped_view :
      (ch : Channel) (q : List String) (r : List Inbound) (w : List String)
      (s t : ServerState num.Number)
      → Agree id s t
      → view id (popped num client id client_id (pop id ch q s) (conn r w s))
        ≡ view id (popped num client id client_id (pop id ch q t) (conn r w t))
  unfolding popped pop
  popped_view ch [] r w s t same = goes_on r w s t same
  popped_view ch (m ∷ q) r w s t same =
      let rest : Channel = record ch { queue = q } in
      send_text_view m r w _ _
        (rw (get-insert id id rest s.sockets, get-insert id id rest t.sockets, ==_refl id) refl)

  -- The queue is that of both servers.
  on_outbound_view :
      (o : Option Channel) (r : List Inbound) (w : List String) (s t : ServerState num.Number)
      → Agree id s t
      → view id (on_outbound num client id client_id o (conn r w s))
        ≡ view id (on_outbound num client id client_id o (conn r w t))
  unfolding on_outbound
  on_outbound_view none r w s t same = stops r w s t same
  on_outbound_view (some ch) r w s t same = popped_view ch ch.queue r w s t same

  on_inbound_view :
      (now now' : ℤ) (r : List Inbound) (w : List String) (s t : ServerState num.Number)
      → Agree id s t
      → view id (on_inbound num client id client_id now now' r (conn r w s))
        ≡ view id (on_inbound num client id client_id now now' r (conn r w t))
  unfolding on_inbound on_message
  on_inbound_view now now' [] w s t same = stops [] w s t same
  on_inbound_view now now' (text b ∷ rest) w s t same =
      ap (λ o. (true, rest, w, o))
        (answer_agrees num client.to_string id client_id now now' (client.parse_message b) s t same)
  on_inbound_view now now' (close ∷ rest) w s t same = stops rest w s t same
  on_inbound_view now now' (other ∷ rest) w s t same = goes_on rest w s t same
  on_inbound_view now now' (failure ∷ rest) w s t same = stops rest w s t same

  pub round_view :
      (k : Round) (r : List Inbound) (w : List String) (s t : ServerState num.Number)
      → Agree id s t
      → view id (round num client id client_id k (conn r w s))
        ≡ view id (round num client id client_id k (conn r w t))
  unfolding round
  round_view outbound r w s t same =
      ap (λ o. view id (on_outbound num client id client_id o (conn r w s))) same
      ∙ on_outbound_view (get id t.sockets) r w s t same
  round_view (inbound now now') r w s t same = on_inbound_view now now' r w s t same
