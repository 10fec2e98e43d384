-- ===== src/Websocket/Response.antt =====
-- The error responses of src/transports/websocket.rs.
use dirpc.Prelude.{◌<◌, ◌^◌, String, some, Bytes, ◌++◌, length, ◌≡◌, refl}
use dirpc.Words.{as_bytes}
use dirpc.Bridge.{decimal}
use dirpc.Text.Decimal.{parse_u32}
use dirpc.Text.Decimal.RoundTrip.{parse_u32-decimal}
use dirpc.Websocket.{http_error_response}

-- An error response has the status line, a Content-Length that reads as the number of bytes of the
-- body, `Connection: close`, a blank line and the body, for a body below 2 ^ 32 bytes.
http_error_response_framed :
    (status body : String)
    → length (as_bytes body) < 2 ^ 32
    → (digits : Bytes) × (http_error_response status body
        ≡ as_bytes "HTTP/1.1 "
          ++ as_bytes status
          ++ as_bytes "\r\nContent-Length: "
          ++ digits
          ++ as_bytes "\r\nConnection: close\r\n\r\n"
          ++ as_bytes body)
      × (parse_u32 digits ≡ some (length (as_bytes body)))
unfolding http_error_response
http_error_response_framed status body small = (
  as_bytes (decimal (length (as_bytes body))),
  refl,
  parse_u32-decimal (length (as_bytes body)) small,
)
