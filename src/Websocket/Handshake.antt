-- ===== src/Websocket/Handshake.antt =====
-- `do_handshake` of src/transports/websocket.rs: the reads of the upgrade request until it is
-- answered. A list of reads stands for what the stream delivers.
pub mod Fragments
pub mod Ends
pub mod Allowed
pub mod Welcomes
use dirpc.Prelude.{
  ℕ, String, Bool, true, false, Option, none, some, Bytes, bytes_key, codes, List, [], ◌∷◌, ◌++◌,
  length, ltb, if◌then◌else◌, Run, done, panic, ◌==◌, nat_eq,
}
use dirpc.Text.{Chars}
use dirpc.Websocket.{
  Query, max_ws_handshake_bytes, validate_origin, parse_query, extract_origin, http_error_response,
}

-- What sockudo_ws and the stream do: `write_ok` tells whether the next write succeeds after what was
-- written. `parse_request` fails, finds the request incomplete, or yields the key.
pub data Parsed : Type 0 where
  malformed : Parsed
  incomplete : Parsed
  request : (key : Bytes) → Parsed

pub record Upgrade : Type 0 where
  pub parse_request : Bytes → Parsed
  pub response_to : Bytes → Bytes
  pub write_ok : List Bytes → Bytes → Bool
  pub flush_ok : List Bytes → Bool

-- What `read_buf` yields: an error, or the bytes it appends, none at the end of the stream.
pub data Read : Type 0 where
  read_error : Read
  chunk : Bytes → Read

pub data HandshakeError : Type 0 where
  read_failed : HandshakeError
  write_failed : HandshakeError
  connection_closed : HandshakeError
  handshake_too_large : HandshakeError
  bad_request : HandshakeError
  bad_version : HandshakeError
  bad_encoding : HandshakeError
  bad_origin : HandshakeError

-- `waiting` for more bytes is no end.
pub data Outcome : Type 0 where
  waiting : Bytes → Outcome
  failed : HandshakeError → Outcome
  panicked : Outcome
  accepted : Chars → Outcome

abbrev pub is_empty : Bytes → Bool
is_empty [] = true
is_empty (_ ∷ _) = false

abbrev pub is_v1 : Option ℕ → Bool
is_v1 none = false
is_v1 (some v) = v == 1

abbrev pub is_json : Option Chars → Bool
is_json none = false
is_json (some e) = e == codes "json"

module _ (up : Upgrade) where
  -- `write_all(..).await?`, then the error
  abbrev pub refuse : HandshakeError → Bytes → List Bytes → Outcome × List Bytes
  refuse e answer written =
      if up.write_ok written answer
      then (failed e, written ++ answer ∷ [])
      else (failed write_failed, written)

  complete : Bytes → Chars → List Bytes → Outcome × List Bytes
  complete key client_id written =
      let response = up.response_to key in
      let written' = written ++ response ∷ [] in
      if up.write_ok written response
      then (if up.flush_ok written'
          then (accepted client_id, written')
          else (failed write_failed, written'))
      else (failed write_failed, written)

  check_origin : Bytes → Chars → Run Chars → List Bytes → Outcome × List Bytes
  check_origin key client_id panic written = (panicked, written)
  check_origin key client_id (done origin) written =
      if validate_origin origin
      then complete key client_id written
      else refuse bad_origin (http_error_response "403 Forbidden" "origin not allowed") written

  -- The checks of a complete request, in their order.
  unfoldable pub validate : Bytes → Bytes → List Bytes → Outcome × List Bytes
  unfolding complete check_origin
  validate key buf written =
      let q = parse_query buf in
      if is_v1 q.v
      then (if is_json q.encoding
          then check_origin key q.client_id (extract_origin buf) written
          else refuse bad_encoding (http_error_response "400 Bad Request" "encoding must be json")
              written)
      else refuse bad_version (http_error_response "400 Bad Request" "v must be 1") written

  abbrev pub after_parse : Bytes → List Bytes → Outcome × List Bytes → Parsed → Outcome × List Bytes
  after_parse buf written rest malformed = (failed bad_request, written)
  after_parse buf written rest incomplete = rest
  after_parse buf written rest (request key) = validate key buf written

  abbrev too_large : Bytes
  too_large = http_error_response "431 Request Header Fields Too Large" "request too large"

  -- One round of the loop, with what the further rounds yield.
  unfoldable pub received : Bytes → List Bytes → Outcome × List Bytes → Outcome × List Bytes
  received buf written rest =
      if ltb max_ws_handshake_bytes (length buf)
      then refuse handshake_too_large too_large written
      else after_parse buf written rest (up.parse_request buf)

  unfoldable pub do_handshake : List Read → Bytes → List Bytes → Outcome × List Bytes
  unfolding received
  do_handshake [] buf written = (waiting buf, written)
  do_handshake (read_error ∷ rs) buf written = (failed read_failed, written)
  do_handshake (chunk s ∷ rs) buf written =
      let buf' = buf ++ s in
      let rest = do_handshake rs buf' written in
      if is_empty s then (failed connection_closed, written) else received buf' written rest
