-- ===== src/Ipc/Connection/Frames.antt =====
-- What the loop of `handle_ipc_io` reads and writes, frame by frame.
use dirpc.Ipc.Connection.Rounds.{conn_of}
use dirpc.Prelude.{
  ℕ, ◌<◌, String, true, Bytes, Option, none, some, List, [], ◌∷◌, ◌++◌, append_assoc, append-nil,
  take, drop, length, length-drop, ◌≡◌, ◌⊎◌, ◌∙◌, refl, sym, ap, arith, Bool-cases, Option-cases,
  inl, inr, nat_eq, All, All-append,
}
use dirpc.Prelude.Int.{ℤ}
use dirpc.Prelude.Assoc.{get}
use dirpc.Json.{Numbers}
use dirpc.Types.{
  RpcMessage, IpcOpcode, handshake, frame, close, ping, pong, as_i32, from_i32, from_i32-as_i32,
}
use dirpc.Words.{u32_mod, as_bytes}
use dirpc.Ipc.Codec.{encode, read_exact, read_frame}
use dirpc.Ipc.Codec.RoundTrip.{read_frame-encode}
use dirpc.Server.State.{ServerState, Channel}
use dirpc.Ipc.Connection.{
  Env, Conn, Round, outbound, inbound, Flow, continue, break, send_frame, popped, on_outbound,
  on_message, on_ping, on_opcode, on_read, round, after_round, main_loop,
}
use dirpc.Ipc.Connection.Drain.{round_outbound}

-- A text in a FRAME, or an empty PONG.
abbrev pub IsServerFrame : Bytes → Type 0
IsServerFrame b =
    ((t : String) × (b ≡ encode (as_i32 frame) (as_bytes t))) ⊎ (b ≡ encode (as_i32 pong) [])

-- A server frame, or what a write that failed has written of one.
abbrev pub IsServerPart : Bytes → Type 0
IsServerPart b = IsServerFrame b ⊎ ((f : Bytes) × (n : ℕ) × IsServerFrame f × (b ≡ take n f))

-- `d` has written server frames, or parts of them, behind what `c` had.
abbrev pub Extends : {N : Type 0} → Conn N → Conn N → Type 0
Extends c d = (out : List Bytes) × (d.written ≡ c.written ++ out) × All IsServerPart out

Extends-refl : {N : Type 0} (c : Conn N) → Extends c c
Extends-refl c = ([], sym (append-nil c.written), tt)

Extends-trans : {N : Type 0} (c d e : Conn N) → Extends c d → Extends d e → Extends c e
Extends-trans c d e (o, p, h) (o', p', h') = (
  o ++ o',
  p' ∙ ap (λ w. w ++ o') p ∙ append_assoc c.written o o',
  All-append IsServerPart o o' h h',
)

read_frame-short : (s : Bytes) → length s < 8 → read_frame s ≡ none
unfolding read_frame read_exact
read_frame-short s h = ground arith

length-ping : length (encode (as_i32 ping) []) ≡ 8
unfolding encode dirpc.Words.to_le_bytes
length-ping = refl

module _ (num : Numbers) (env : Env num) (socket_id : ℕ) (client_id : String) where
  send_frame_out :
      (json : String) (c : Conn num.Number)
      → Extends c (conn_of (send_frame num env socket_id client_id json c))
  unfolding send_frame
  send_frame_out json c =
      elim (Bool-cases (env.write_ok c.written (encode (as_i32 frame) (as_bytes json)))) [
        | inl e ↦
            rw e (encode (as_i32 frame) (as_bytes json) ∷ [], refl, (inl (inl (json, refl)), tt))
        | inr e ↦ rw e (_, refl, (inr (_, _, inl (json, refl), refl), tt))
      ]

  popped_out :
      (taken : ℕ) (o : Option (String × ServerState num.Number)) (c : Conn num.Number)
      → Extends c (conn_of (popped num env socket_id client_id taken o c))
  unfolding popped
  popped_out taken none c = Extends-refl c
  popped_out taken (some (json, s)) c = send_frame_out json _

  on_outbound_out :
      (taken : ℕ) (c : Conn num.Number)
      → Extends c (conn_of (on_outbound num env socket_id client_id taken c))
  on_outbound_out taken c = elim (Option-cases (get socket_id c.server.sockets)) [
    | inl e ↦ unfold on_outbound in rw (e, on_outbound) (Extends-refl c)
    | inr (ch, e) ↦ unfold on_outbound in rw (e, on_outbound) (popped_out taken _ c)
  ]

  on_ping_out : (c : Conn num.Number) → Extends c (on_ping num env socket_id client_id c)
  unfolding on_ping
  on_ping_out c = elim (Bool-cases (env.write_ok c.written (encode (as_i32 pong) []))) [
    | inl e ↦ rw e (encode (as_i32 pong) [] ∷ [], refl, (inl (inr refl), tt))
    | inr e ↦ rw e (_, refl, (inr (_, _, inr refl, refl), tt))
  ]

  on_message_out :
      (now now' : ℤ) (m : Option (RpcMessage num.Number)) (c : Conn num.Number)
      → Extends c (on_message num env socket_id client_id now now' m c)
  unfolding on_message
  on_message_out now now' m c = ([], sym (append-nil c.written), tt)

  on_opcode_out :
      (now now' : ℤ) (op : Option IpcOpcode) (body : Bytes) (c : Conn num.Number)
      → Extends c (conn_of (on_opcode num env socket_id client_id now now' op body c))
  unfolding on_opcode
  on_opcode_out now now' none body c = Extends-refl c
  on_opcode_out now now' (some handshake) body c = Extends-refl c
  on_opcode_out now now' (some frame) body c = on_message_out now now' (env.parse_message body) c
  on_opcode_out now now' (some close) body c = Extends-refl c
  on_opcode_out now now' (some ping) body c = on_ping_out c
  on_opcode_out now now' (some pong) body c = Extends-refl c

  round_out :
      (r : Round) (c : Conn num.Number)
      → Extends c (conn_of (round num env socket_id client_id r c))
  unfolding round
  round_out (outbound taken) c = on_outbound_out taken c
  round_out (inbound now now') c = go (read_frame c.reader)
    where
      go :
          (r : Option ((ℕ × Bytes) × Bytes))
          → Extends c (conn_of (on_read num env socket_id client_id now now' r c))
      go none = unfold on_read in Extends-refl c
      go (some ((op, body), rest)) = unfold on_read in on_opcode_out now now' (from_i32 op) body _

  -- Whatever the client sends and however the rounds fall, each write of the loop is a frame of the
  -- server, a FRAME with a text or an empty PONG, or the part of one that a failing write has written.
  main_loop_out :
      (rs : List Round) (c : Conn num.Number)
      → Extends c (main_loop num env socket_id client_id rs c).1
  unfolding main_loop
  main_loop_out [] c = Extends-refl c
  main_loop_out (r ∷ rs) c =
      go (round num env socket_id client_id r c) (round_out r c) (main_loop_out rs)
    where
      go :
          (f : Flow num.Number)
          → Extends c (conn_of f)
          → ((d : Conn num.Number) → Extends d (main_loop num env socket_id client_id rs d).1)
          → Extends c
              (after_round num env socket_id client_id
                (main_loop num env socket_id client_id rs)
                f).1
      go (continue d) e rec =
          Extends-trans c d (main_loop num env socket_id client_id rs d).1 e (rec d)
      go (break d) e rec = e

  -- A frame that is there whole, its body shorter than 2 ^ 32 bytes, is dispatched by its opcode,
  -- and what follows it is left unread.
  round_inbound :
      (now now' : ℤ) (op : IpcOpcode) (body rest : Bytes) (c : Conn num.Number)
      → c.reader ≡ encode (as_i32 op) body ++ rest
      → length body < u32_mod
      → round num env socket_id client_id (inbound now now') c
        ≡ on_opcode num env socket_id client_id now now' (some op) body (record c { reader = rest })
  unfolding round
  round_inbound now now' op body rest c e h =
      let read : read_frame c.reader ≡ some ((as_i32 op, body), rest) =
        rw e (read_frame-encode (as_i32 op) body rest (as_i32-lt op) h) in
      rw read (rw ((from_i32-as_i32 (as_i32 op) op).1 refl))
    where
      as_i32-lt : (op : IpcOpcode) → as_i32 op < u32_mod
      as_i32-lt handshake = omega arith
      as_i32-lt frame = omega arith
      as_i32-lt close = omega arith
      as_i32-lt ping = omega arith
      as_i32-lt pong = omega arith

  short_read :
      (now now' : ℤ) (d : Conn num.Number)
      → length d.reader < 8
      → round num env socket_id client_id (inbound now now') d ≡ break d
  unfolding round on_read
  short_read now now' d short = rw (read_frame-short d.reader short) refl

  -- A PING that is the last that a client sends before it closes, while the channel has a text queued:
  -- if the outbound branch completes after the pending read has taken 1 to 7 of the frame's eight bytes,
  -- those are lost, and the next read ends the connection, without a PONG.
  pub interrupted_ping :
      (now now' : ℤ) (taken : ℕ) (c : Conn num.Number) (ch : Channel) (json : String)
      (q : List String)
      → 0 < taken
      → taken < 8
      → c.reader ≡ encode (as_i32 ping) []
      → get socket_id c.server.sockets ≡ some ch
      → ch.queue ≡ json ∷ q
      → env.write_ok c.written (encode (as_i32 frame) (as_bytes json)) ≡ true
      → (d : Conn num.Number) × (round num env socket_id client_id (outbound taken) c ≡ continue d)
        × (d.written ≡ c.written ++ encode (as_i32 frame) (as_bytes json) ∷ [])
        × (round num env socket_id client_id (inbound now now') d ≡ break d)
  interrupted_ping now now' taken c ch json q lo hi e h queued ok =
      let first = round_outbound num env socket_id client_id taken c ch json q h queued ok in
      (_, first, refl, short_read now now' _ short)
    where
      short : length (drop taken c.reader) < 8
      short = rw (e, length-drop taken (encode (as_i32 ping) []), length-ping) (omega arith)
