-- ===== src/Websocket.antt =====
-- src/transports/websocket.rs: the checks on an upgrade request, on its bytes.
pub mod Handshake
pub mod Listen
pub mod Response
pub mod Origin
pub mod LastValue
pub mod RoundTrip
pub mod Connection
use dirpc.Prelude.{
  ℕ, ◌+◌, String, Bool, true, false, ◌&&◌, ◌||◌, Option, none, some, ◌>>=◌, Bytes, bytes_key, codes,
  List, [], ◌∷◌, ◌++◌, length, ltb, if◌then◌else◌, Run, done, panic, ◌==◌, nat_eq,
}
use dirpc.Words.{as_bytes}
use dirpc.Bridge.{decimal}
use dirpc.Text.{
  Chars, from_utf8, byte_length, slice_to, lines, split_whitespace, split_at, split_once, trim,
  eq_ignore_ascii_case,
}
use dirpc.Text.Decimal.{parse_u32}

abbrev pub max_ws_handshake_bytes : ℕ
max_ws_handshake_bytes = 16384

abbrev pub is_origin : Chars → String → Bool
is_origin origin site = origin == codes site

unfoldable pub validate_origin : Chars → Bool
validate_origin origin =
    is_origin origin ""
    || is_origin origin "https://discord.com"
    || is_origin origin "https://ptb.discord.com"
    || is_origin origin "https://canary.discord.com"

-- The three values that `parse_query` returns.
pub record Query : Type 0 where
  pub v : Option ℕ
  pub encoding : Option Chars
  pub client_id : Chars

abbrev pub first_or : Chars → List Chars → Chars
first_or d [] = d
first_or d (x ∷ _) = x

abbrev pub second_or : Chars → List Chars → Chars
second_or d [] = d
second_or d (_ ∷ xs) = first_or d xs

abbrev pub text_or_empty : Option Chars → Chars
text_or_empty none = []
text_or_empty (some t) = t

abbrev after_mark : Option (Chars × Chars) → Chars
after_mark none = []
after_mark (some (_, q)) = q

-- The query string of the request line.
unfoldable pub query_text : Bytes → Chars
query_text buf =
    let text = text_or_empty (from_utf8 buf) in
    let request_line = first_or [] (lines text) in
    let path = second_or (codes "/") (split_whitespace request_line) in
    after_mark (split_once b'?' path)

abbrev pub assign : Option (Chars × Chars) → Query → Query
assign none q = q
assign (some (key, value)) q =
    if key == codes "v"
    then record q { v = parse_u32 value }
    else if key == codes "encoding"
    then record q { encoding = some value }
    else if key == codes "client_id"
    then record q { client_id = value }
    else q

-- `for part in query.split('&')`
unfoldable pub assign_all : List Chars → Query → Query
assign_all [] q = q
assign_all (part ∷ rest) q = assign_all rest (assign (split_once b'=' part) q)

abbrev pub no_query : Query
no_query = record { v = none; encoding = none; client_id = [] }

unfoldable pub parse_query : Bytes → Query
parse_query buf = assign_all (split_at b'&' (query_text buf)) no_query

-- The first line that starts with `origin:`; the slice of a line may panic.
abbrev pub found_line : Chars → Run (Option Chars) → Run Chars → Run (Option Chars)
found_line l rest panic = panic
found_line l rest (done start) =
    if eq_ignore_ascii_case start (codes "origin:") then done (some l) else rest

unfoldable pub find_origin : List Chars → Run (Option Chars)
find_origin [] = done none
find_origin (l ∷ ls) =
    let rest = find_origin ls in
    if ltb 7 (byte_length l) then found_line l rest (slice_to 7 l) else rest

abbrev pub trimmed_value : Option (Chars × Chars) → Chars
trimmed_value none = []
trimmed_value (some (_, v)) = trim v

abbrev pub header_value : Run (Option Chars) → Run Chars
header_value panic = panic
header_value (done none) = done []
header_value (done (some l)) = done (trimmed_value (split_once b':' l))

abbrev origin_of : Option Chars → Run Chars
origin_of none = done []
origin_of (some text) = header_value (find_origin (lines text))

unfoldable pub extract_origin : Bytes → Run Chars
extract_origin buf = origin_of (from_utf8 buf)

unfoldable pub http_error_response : String → String → Bytes
http_error_response status body =
    as_bytes "HTTP/1.1 "
    ++ as_bytes status
    ++ as_bytes "\r\nContent-Length: "
    ++ as_bytes (decimal (length (as_bytes body)))
    ++ as_bytes "\r\nConnection: close\r\n\r\n"
    ++ as_bytes body
