-- ===== src/Ipc/Connection/Views.antt =====
-- What a round of an IPC connection does is determined by the connection and its own queue, whatever the
-- rest of the server holds.
use dirpc.Prelude.{
  ℕ, String, Bool, true, false, Bytes, Option, none, some, List, [], ◌∷◌, ◌++◌, drop, nat_eq,
  ==_refl, ◌≡◌, ◌∙◌, refl, ap, Bool-cases, Option-cases, inl, inr,
}
use dirpc.Prelude.Int.{ℤ}
use dirpc.Prelude.Assoc.{get, get-insert}
use dirpc.Json.{Numbers}
use dirpc.Types.{IpcOpcode, handshake, frame, close, ping, pong, as_i32, from_i32}
use dirpc.Words.{as_bytes}
use dirpc.Ipc.Codec.{encode, read_frame}
use dirpc.Server.State.{ServerState, Channel, pop}
use dirpc.Server.Handle.Agrees.{Agree, answer_agrees}
use dirpc.Ipc.Connection.{
  cut, Env, Conn, Round, outbound, inbound, Flow, continue, break, send_frame, popped, on_outbound,
  on_message, on_ping, on_opcode, on_read, round,
}

-- Whether the loop goes on, the connection, and its queue.
abbrev pub View : Type 0
View = Bool × Bytes × List Bytes × Option Channel

abbrev pub view : {N : Type 0} → ℕ → Flow N → View
view id (continue c) = (true, c.reader, c.written, get id c.server.sockets)
view id (break c) = (false, c.reader, c.written, get id c.server.sockets)

abbrev pub conn : {N : Type 0} → Bytes → List Bytes → ServerState N → Conn N
conn reader written s = record { reader = reader; written = written; server = s }

module _ (num : Numbers) (env : Env num) (id : ℕ) (client_id : String) where
  abbrev F : Type 0
  F = Flow num.Number

  goes_on :
      (r : Bytes) (w : List Bytes) (s t : ServerState num.Number)
      → Agree id s t
      → view id (continue (conn r w s)) ≡ view id (continue (conn r w t))
  goes_on r w s t same = ap (λ o. (true, r, w, o)) same

  stops :
      (r : Bytes) (w : List Bytes) (s t : ServerState num.Number)
      → Agree id s t
      → view id (break (conn r w s)) ≡ view id (break (conn r w t))
  stops r w s t same = ap (λ o. (false, r, w, o)) same

  send_frame_view :
      (json : String) (r : Bytes) (w : List Bytes) (s t : ServerState num.Number)
      → Agree id s t
      → view id (send_frame num env id client_id json (conn r w s))
        ≡ view id (send_frame num env id client_id json (conn r w t))
  unfolding send_frame
  send_frame_view json r w s t same =
      let bytes = encode (as_i32 frame) (as_bytes json) in
      elim (Bool-cases (env.write_ok w bytes)) [
        | inl e ↦ rw e (goes_on r (w ++ bytes ∷ []) s t same)
        | inr e ↦ rw e (stops r (cut env w bytes) s t same)
      ]

  popped_view :
      (taken : ℕ) (ch : Channel) (q : List String) (r : Bytes) (w : List Bytes)
      (s t : ServerState num.Number)
      → Agree id s t
      → view id (popped num env id client_id taken (pop id ch q s) (conn r w s))
        ≡ view id (popped num env id client_id taken (pop id ch q t) (conn r w t))
  unfolding popped pop
  popped_view taken ch [] r w s t same = goes_on r w s t same
  popped_view taken ch (m ∷ q) r w s t same =
      let rest : Channel = record ch { queue = q } in
      send_frame_view m (drop taken r) w _ _
        (rw (get-insert id id rest s.sockets, get-insert id id rest t.sockets, ==_refl id) refl)

  outbound-none :
      (taken : ℕ) (c : Conn num.Number)
      → get id c.server.sockets ≡ none
      → on_outbound num env id client_id taken c ≡ break c
  unfolding on_outbound
  outbound-none taken c e = rw (e, on_outbound)

  outbound-some :
      (taken : ℕ) (c : Conn num.Number) (ch : Channel)
      → get id c.server.sockets ≡ some ch
      → on_outbound num env id client_id taken c
        ≡ popped num env id client_id taken (pop id ch ch.queue c.server) c
  unfolding on_outbound
  outbound-some taken c ch e = rw (e, on_outbound)

  on_outbound_view :
      (taken : ℕ) (r : Bytes) (w : List Bytes) (s t : ServerState num.Number)
      → Agree id s t
      → view id (on_outbound num env id client_id taken (conn r w s))
        ≡ view id (on_outbound num env id client_id taken (conn r w t))
  on_outbound_view taken r w s t same = elim (Option-cases (get id t.sockets)) [
    | inl e ↦
        rw (outbound-none taken (conn r w s) (same ∙ e), outbound-none taken (conn r w t) e)
          (stops r w s t same)
    | inr (ch, e) ↦
        rw (outbound-some taken (conn r w s) ch (same ∙ e), outbound-some taken (conn r w t) ch e)
          (popped_view taken ch ch.queue r w s t same)
  ]

  on_opcode_view :
      (now now' : ℤ) (op : Option IpcOpcode) (body : Bytes) (r : Bytes) (w : List Bytes)
      (s t : ServerState num.Number)
      → Agree id s t
      → view id (on_opcode num env id client_id now now' op body (conn r w s))
        ≡ view id (on_opcode num env id client_id now now' op body (conn r w t))
  unfolding on_opcode on_message on_ping
  on_opcode_view now now' none body r w s t same = stops r w s t same
  on_opcode_view now now' (some handshake) body r w s t same = goes_on r w s t same
  on_opcode_view now now' (some frame) body r w s t same =
      ap (λ o. (true, r, w, o))
        (answer_agrees num env.to_string id client_id now now' (env.parse_message body) s t same)
  on_opcode_view now now' (some close) body r w s t same = stops r w s t same
  on_opcode_view now now' (some ping) body r w s t same =
      let bytes = encode (as_i32 pong) [] in
      elim (Bool-cases (env.write_ok w bytes)) [
        | inl e ↦ rw e (goes_on r (w ++ bytes ∷ []) s t same)
        | inr e ↦ rw e (goes_on r (cut env w bytes) s t same)
      ]
  on_opcode_view now now' (some pong) body r w s t same = goes_on r w s t same

  on_read_view :
      (now now' : ℤ) (o : Option ((ℕ × Bytes) × Bytes)) (r : Bytes) (w : List Bytes)
      (s t : ServerState num.Number)
      → Agree id s t
      → view id (on_read num env id client_id now now' o (conn r w s))
        ≡ view id (on_read num env id client_id now now' o (conn r w t))
  unfolding on_read
  on_read_view now now' none r w s t same = stops r w s t same
  on_read_view now now' (some ((op, body), rest)) r w s t same =
      on_opcode_view now now' (from_i32 op) body rest w s t same

  pub round_view :
      (k : Round) (r : Bytes) (w : List Bytes) (s t : ServerState num.Number)
      → Agree id s t
      → view id (round num env id client_id k (conn r w s))
        ≡ view id (round num env id client_id k (conn r w t))
  unfolding round
  round_view (outbound taken) r w s t same = on_outbound_view taken r w s t same
  round_view (inbound now now') r w s t same = on_read_view now now' (read_frame r) r w s t same
