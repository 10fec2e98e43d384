-- ===== src/Websocket/Handshake/Ends.antt =====
-- When the WebSocket handshake ends, and what it needs to be accepted.
use dirpc.Prelude.{
  ◌+◌, ◌≤◌, ◌<◌, Bool, true, false, Bytes, bytes_key, List, [], ◌∷◌, ◌++◌, length, length-append,
  ltb, Run, done, panic, nat_eq, ◌≡◌, refl, arith, Bool-cases, inl, inr,
}
use dirpc.Text.{Chars}
use dirpc.Websocket.{max_ws_handshake_bytes, parse_query, extract_origin}
use dirpc.Websocket.Handshake.{
  Upgrade, Parsed, malformed, incomplete, request, Read, read_error, chunk, HandshakeError, Outcome,
  waiting, failed, panicked, accepted, refuse, complete, check_origin, is_v1, is_json, validate,
  after_parse, received, do_handshake,
}

-- No more bytes are awaited.
abbrev pub is_finished : Outcome → Bool
is_finished (waiting _) = false
is_finished (failed _) = true
is_finished panicked = true
is_finished (accepted _) = true

module _ (up : Upgrade) where
  refuse_finished :
      (e : HandshakeError) (answer : Bytes) (w : List Bytes)
      → is_finished (refuse up e answer w).0 ≡ true
  refuse_finished e answer w = ground arith

  check_origin_finished :
      (key : Bytes) (id : Chars) (o : Run Chars) (w : List Bytes)
      → is_finished (check_origin up key id o w).0 ≡ true
  unfolding check_origin complete
  check_origin_finished key id panic w = refl
  check_origin_finished key id (done origin) w = ground arith

  validate_finished :
      (key buf : Bytes) (w : List Bytes) → is_finished (validate up key buf w).0 ≡ true
  unfolding validate
  validate_finished key buf w = elim (Bool-cases (is_v1 (parse_query buf).v)) [
    | inl e ↦ elim (Bool-cases (is_json (parse_query buf).encoding)) [
      | inl f ↦
          rw (e, f) (check_origin_finished key (parse_query buf).client_id (extract_origin buf) w)
      | inr f ↦ rw (e, f) (refuse_finished _ _ w)
    ]
    | inr e ↦ rw e (refuse_finished _ _ w)
  ]

  after_parse_finished :
      (buf : Bytes) (w : List Bytes) (rest : Outcome × List Bytes) (p : Parsed)
      → is_finished rest.0 ≡ true
      → is_finished (after_parse up buf w rest p).0 ≡ true
  after_parse_finished buf w rest malformed h = refl
  after_parse_finished buf w rest incomplete h = h
  after_parse_finished buf w rest (request key) h = validate_finished key buf w

  received_finished :
      (buf : Bytes) (w : List Bytes) (rest : Outcome × List Bytes)
      → (length buf ≤ max_ws_handshake_bytes → is_finished rest.0 ≡ true)
      → is_finished (received up buf w rest).0 ≡ true
  unfolding received
  received_finished buf w rest h = elim (Bool-cases (ltb max_ws_handshake_bytes (length buf))) [
    | inl e ↦ rw e (refuse_finished _ _ w)
    | inr e ↦ rw e (after_parse_finished buf w rest (up.parse_request buf) (h (ground arith)))
  ]

  reads_finished :
      (reads : List Read) (buf : Bytes) (w : List Bytes)
      → length buf ≤ max_ws_handshake_bytes
      → max_ws_handshake_bytes < length buf + length reads
      → is_finished (do_handshake up reads buf w).0 ≡ true
  unfolding do_handshake
  reads_finished [] buf w small many = absurd (omega arith)
  reads_finished (read_error ∷ rs) buf w small many = refl
  reads_finished (chunk [] ∷ rs) buf w small many = refl
  reads_finished (chunk (b ∷ s) ∷ rs) buf w small many =
      received_finished (buf ++ b ∷ s) w _
        (λ le. reads_finished rs (buf ++ b ∷ s) w le (omega (arith, length-append buf (b ∷ s))))

  -- Whatever a client sends, and however its bytes are cut, the handshake has ended after 16385 reads:
  -- accepted, refused, failed or panicked, but no longer waiting.
  pub do_handshake_finishes :
      (reads : List Read)
      → max_ws_handshake_bytes < length reads
      → is_finished (do_handshake up reads [] []).0 ≡ true
  do_handshake_finishes reads many = reads_finished reads [] [] (omega arith) (omega arith)
