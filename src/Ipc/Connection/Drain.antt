-- ===== src/Ipc/Connection/Drain.antt =====
-- The connection delivers what is queued for its client.
use dirpc.Prelude.{
  ℕ, String, true, false, Bytes, some, List, [], ◌∷◌, ◌++◌, map, drop, append_assoc, append-nil,
  length, nat_eq, ==_refl, ◌≡◌, ◌∙◌, refl, sym, ap, arith,
}
use dirpc.Prelude.Assoc.{get, insert, get-insert}
use dirpc.Json.{Numbers}
use dirpc.Types.{as_i32, frame}
use dirpc.Words.{as_bytes}
use dirpc.Ipc.Codec.{encode}
use dirpc.Server.State.{Channel, pop}
use dirpc.Ipc.Connection.{Env, Conn, Round, outbound, continue, on_outbound, round, main_loop}

-- The frame of a queued text.
abbrev pub frame_of : String → Bytes
frame_of t = encode (as_i32 frame) (as_bytes t)

module _ (num : Numbers) (env : Env num) (socket_id : ℕ) (client_id : String) where
  -- The connection once the first text is sent.
  abbrev sent_head : ℕ → Conn num.Number → Channel → String → List String → Conn num.Number
  sent_head taken c ch t q = record {
    reader = drop taken c.reader;
    written = c.written ++ frame_of t ∷ [];
    server = record c.server {
      sockets = insert socket_id (record ch { queue = q }) c.server.sockets;
    };
  }

  -- The outbound branch, on a queued text.
  pub round_outbound :
      (taken : ℕ) (c : Conn num.Number) (ch : Channel) (t : String) (q : List String)
      → get socket_id c.server.sockets ≡ some ch
      → ch.queue ≡ t ∷ q
      → env.write_ok c.written (frame_of t) ≡ true
      → round num env socket_id client_id (outbound taken) c ≡ continue (sent_head taken c ch t q)
  unfolding round pop
  round_outbound taken c ch t q h queued ok = rw (h, on_outbound) (rw queued (rw ok refl))

  abbrev pub outbounds : List ℕ → List Round
  outbounds [] = []
  outbounds (taken ∷ ts) = outbound taken ∷ outbounds ts

  -- Where writes succeed, as many outbound rounds as there are texts in the client's queue write them
  -- all, each once and in order, and leave the queue empty and the connection open.
  pub main_loop_drains :
      ((w : List Bytes) (b : Bytes) → env.write_ok w b ≡ true)
      → (q : List String) (ts : List ℕ) (c : Conn num.Number) (ch : Channel) → length ts ≡ length q
      → get socket_id c.server.sockets ≡ some ch
      → ch.queue ≡ q
      → (d : Conn num.Number) × (main_loop num env socket_id client_id (outbounds ts) c
          ≡ (false, d))
        × (d.written ≡ c.written ++ map frame_of q)
        × (get socket_id d.server.sockets ≡ some (record ch { queue = [] }))
  unfolding main_loop
  main_loop_drains writes [] [] c ch same e f =
      (c, refl, sym (append-nil c.written), e ∙ ap (λ x. some (record ch { queue = x })) f)
  main_loop_drains writes [] (t ∷ ts) c ch same e f = absurd (omega arith)
  main_loop_drains writes (x ∷ q) [] c ch same e f = absurd (omega arith)
  main_loop_drains writes (x ∷ q) (t ∷ ts) c ch same e f =
      let first = round_outbound t c ch x q e f (writes c.written (frame_of x)) in
      let (d, loop, out, empty) =
        main_loop_drains writes q ts (sent_head t c ch x q) (record ch { queue = q }) (omega arith)
          (get-insert socket_id socket_id (record ch { queue = q }) c.server.sockets
            ∙ rw (==_refl socket_id) refl)
          refl in
      (d, rw first loop, out ∙ append_assoc c.written (frame_of x ∷ []) (map frame_of q), empty)
