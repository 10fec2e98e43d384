-- ===== src/Websocket/Handshake/Welcomes.antt =====
-- The WebSocket handshake accepts what it should.
use dirpc.Prelude.{
  ◌≤◌, true, false, Bytes, bytes_key, List, [], ◌∷◌, All, length, ltb, done, nat_eq, ◌≡◌, ◌∙◌, refl,
  arith,
}
use dirpc.Text.{Chars}
use dirpc.Text.Utf8.{IsScalar, encode}
use dirpc.Websocket.{max_ws_handshake_bytes, validate_origin, extract_origin}
use dirpc.Websocket.RoundTrip.{IsPlain, request_text, parse_query-encode}
use dirpc.Websocket.Handshake.{
  Upgrade, request, Read, chunk, accepted, is_empty, complete, check_origin, validate, received,
  do_handshake,
}
use dirpc.Websocket.Handshake.Allowed.{joined}
use dirpc.Websocket.Handshake.Fragments.{AllFull, IncompleteUntil, do_handshake_fragments}

module _ (up : Upgrade) (id headers : Chars) (origin : Chars) (key : Bytes) where
  abbrev buffer : Bytes
  buffer = encode (request_text id headers)

  full : is_empty buffer ≡ false
  unfolding encode dirpc.Words.utf8
  full = refl

  at_once :
      All IsPlain id
      → All IsScalar headers
      → length buffer ≤ max_ws_handshake_bytes
      → up.parse_request buffer ≡ request key
      → extract_origin buffer ≡ done origin
      → validate_origin origin ≡ true
      → up.write_ok [] (up.response_to key) ≡ true
      → up.flush_ok (up.response_to key ∷ []) ≡ true
      → do_handshake up (chunk buffer ∷ []) [] [] ≡ (accepted id, up.response_to key ∷ [])
  unfolding do_handshake received validate check_origin complete
  at_once plain scalar small parsed from allowed wrote flushed =
      let large : ltb max_ws_handshake_bytes (length buffer) ≡ false = ground arith in
      rw
        (
          full,
          large,
          parsed,
          parse_query-encode id headers plain scalar,
          from,
          allowed,
          wrote,
          flushed,
        )
        refl

  -- A client whose request line is `GET /?v=1&encoding=json&client_id=<id> HTTP/1.1`, with an id of plain
  -- characters, from an allowed origin, in a request of at most 16384 bytes that only its whole makes
  -- complete, is accepted with its id and sent the upgrade, however its bytes are cut into reads that are
  -- not empty, where the writes succeed.
  pub do_handshake_welcomes :
      (r : Read) (rs : List Read)
      → AllFull (r ∷ rs)
      → joined (r ∷ rs) ≡ buffer
      → IncompleteUntil up [] buffer
      → All IsPlain id
      → All IsScalar headers
      → length buffer ≤ max_ws_handshake_bytes
      → up.parse_request buffer ≡ request key
      → extract_origin buffer ≡ done origin
      → validate_origin origin ≡ true
      → up.write_ok [] (up.response_to key) ≡ true
      → up.flush_ok (up.response_to key ∷ []) ≡ true
      → do_handshake up (r ∷ rs) [] [] ≡ (accepted id, up.response_to key ∷ [])
  do_handshake_welcomes r rs reads same until plain scalar small parsed from allowed wrote flushed =
      do_handshake_fragments up r rs reads (rw same small) (rw same until)
      ∙ rw same (at_once plain scalar small parsed from allowed wrote flushed)
