-- ===== src/Tests/Websocket.antt =====
-- Tests of the WebSocket transport.
use dirpc.Prelude.{
  ℕ, zero, suc, ◌<◌, String, Bool, true, false, Option, none, some, ◌>>=◌, Bytes, codes, List, [],
  ◌∷◌, ◌++◌, length, length-append, ltb, if◌then◌else◌, Run, done, panic, ◌==◌, nat_eq, ◌^◌, ◌≡◌,
  ◌↔◌, refl, sym, ap, arith, All, inl, ◌∙◌, ◌≤◌,
}
use dirpc.Prelude.Int.{ℤ, pos}
use dirpc.Prelude.Assoc.{get}
use dirpc.Words.{as_bytes}
use dirpc.Server.State.{new}
use dirpc.Text.{split_at, from_utf8, lines}
use dirpc.Text.Decimal.{parse_u32}
use dirpc.Websocket.{query_text, parse_query, text_or_empty, extract_origin, http_error_response}
use dirpc.Websocket.LastValue.{last_value, parse_query_last}
use dirpc.Websocket.Origin.{IsCut, extract_origin-panic}
use dirpc.Websocket.Handshake.{
  Upgrade, is_empty, Parsed, incomplete, request, Read, chunk, accepted, do_handshake,
}
use dirpc.Websocket.Handshake.Ends.{is_finished, do_handshake_finishes}
use dirpc.Websocket.Handshake.Allowed.{SomePrefix, do_handshake_accepts}
use dirpc.Websocket.Handshake.Fragments.{do_handshake_fragments}
use dirpc.Text.Utf8.{IsScalar, encode}
use dirpc.Websocket.RoundTrip.{IsPlain, request_text, ascii-IsScalar}
use dirpc.Websocket.Handshake.Welcomes.{do_handshake_welcomes}
use dirpc.Websocket.Connection.{
  Inbound, text, Client, Conn, Round, outbound, inbound, handle_connection,
}
use dirpc.Websocket.Connection.Close.{handle_connection_restores}
use dirpc.Tests.{integers, fixed_text, set_message}

abbrev front : Bytes
front = codes "GET /?v=1&encoding=json&client_id=42 HTTP/1.1\r\n"

abbrev back : Bytes
back = codes "Origin: https://discord.com\r\n\r\n"

abbrev whole : ℕ
whole = length (front ++ back)

-- A request is complete once it has all its bytes.
abbrev pub upgrade : Upgrade
upgrade = record {
  parse_request = λ b. if ltb (length b) whole then incomplete else request (codes "key");
  response_to = λ key. codes "HTTP/1.1 101 Switching Protocols\r\n\r\n";
  write_ok = λ written b. true;
  flush_ok = λ written. true;
}

abbrev pub two_reads : List Read
two_reads = chunk front ∷ chunk back ∷ []

welcome : (do_handshake upgrade two_reads [] []).0 ≡ accepted (codes "42")
unfolding do_handshake dirpc.Websocket.Handshake.received dirpc.Websocket.Handshake.validate
    parse_query query_text dirpc.Websocket.assign_all extract_origin dirpc.Websocket.find_origin
    dirpc.Websocket.validate_origin from_utf8 lines dirpc.Text.slice_to dirpc.Text.split_whitespace
    split_at dirpc.Text.split_once dirpc.Text.trim dirpc.Text.eq_ignore_ascii_case parse_u32
    dirpc.Text.Decimal.digits_from
welcome = refl

do_handshake_accepts_example : SomePrefix upgrade two_reads [] (codes "42")
do_handshake_accepts_example = do_handshake_accepts upgrade two_reads (codes "42") welcome

trickle : ℕ → List Read
trickle zero = []
trickle (suc n) = chunk (b'x' ∷ []) ∷ trickle n

length-trickle : (n : ℕ) → length (trickle n) ≡ n
unfolding trickle
length-trickle zero = omega arith
length-trickle (suc n) = omega (arith, length-trickle n)

do_handshake_finishes_example : is_finished (do_handshake upgrade (trickle 16385) [] []).0 ≡ true
do_handshake_finishes_example =
    do_handshake_finishes upgrade (trickle 16385) (omega (arith, length-trickle 16385))

shorter : (p s : Bytes) → is_empty s ≡ false → front ++ back ≡ p ++ s → length p < whole
shorter p [] full e = absurd (ground arith)
shorter p (b ∷ s) full e =
    let total : whole ≡ length (p ++ b ∷ s) = ap length e in
    omega (arith, total, length-append p (b ∷ s))

not_yet : (n : ℕ) → n < whole → ltb n whole ≡ true
not_yet n h = ground arith

do_handshake_fragments_example :
    do_handshake upgrade two_reads [] [] ≡ do_handshake upgrade (chunk (front ++ back) ∷ []) [] []
do_handshake_fragments_example =
    do_handshake_fragments upgrade (chunk front) (chunk back ∷ []) (refl, (refl, tt)) (omega arith)
      (λ p s full e. rw (not_yet (length p) (shorter p s full e)) refl)

-- The version is given twice.
abbrev twice : Bytes
twice = codes "GET /?v=2&v=1&encoding=json HTTP/1.1\r\n"

parse_query_last_example :
    let parts = split_at b'&' (query_text twice) in
    parse_query twice ≡ record {
      v = last_value (codes "v") parts >>= parse_u32;
      encoding = last_value (codes "encoding") parts;
      client_id = text_or_empty (last_value (codes "client_id") parts);
    }
parse_query_last_example = parse_query_last twice

-- The é takes the bytes 6 and 7 of its line.
abbrev cut_request : Bytes
cut_request = front ++ as_bytes "Name: é\r\nOrigin: https://discord.com\r\n\r\n"

cut_panics : extract_origin cut_request ≡ panic
unfolding extract_origin dirpc.Websocket.find_origin from_utf8 lines dirpc.Text.slice_to as_bytes
    dirpc.Text.eq_ignore_ascii_case
cut_panics = refl

extract_origin-panic_example : (extract_origin cut_request ≡ panic) ↔ IsCut (from_utf8 cut_request)
extract_origin-panic_example = extract_origin-panic cut_request

-- A client whose texts are all the sample message.
abbrev pub client : Client ℤ
client = record {
  parse_message = λ b. some set_message;
  to_string = fixed_text;
  send_ok = λ sent json. true;
  as_string = λ s. "42";
}

abbrev pub visit : Conn ℤ
visit = record { reader = text (codes "{}") ∷ []; sent = []; server = new }

abbrev pub rounds : List Round
rounds = inbound (pos 5) (pos 6) ∷ outbound ∷ inbound (pos 7) (pos 8) ∷ []

pub served : (handle_connection integers client upgrade two_reads rounds visit).0 ≡ true
unfolding handle_connection dirpc.Websocket.Connection.main_loop get
    dirpc.Server.Handle.Answer.answer dirpc.Server.Handle.handle_message
    dirpc.Server.State.send_to_socket dirpc.Server.State.register_socket dirpc.Prelude.Assoc.insert
    dirpc.Server.State.next_id dirpc.Server.State.pop
served = rw welcome refl

handle_connection_restores_example :
    get 1 (handle_connection integers client upgrade two_reads rounds visit).1.server.sockets
    ≡ get 1 visit.server.sockets
unfolding get
handle_connection_restores_example =
    handle_connection_restores integers client upgrade two_reads rounds visit refl served 1

-- The header lines of the sample request.
abbrev headers : Bytes
headers = codes "Origin: https://discord.com\r\n\r\n"

abbrev sample : Bytes
sample = encode (request_text (codes "42") headers)

sample_id-IsPlain : All IsPlain (codes "42")
sample_id-IsPlain = ((inl (omega arith), refl, refl), ((inl (omega arith), refl, refl), tt))

headers-IsScalar : All IsScalar headers
headers-IsScalar = ascii-IsScalar headers refl

same_bytes : front ++ back ≡ sample
unfolding encode dirpc.Words.utf8
same_bytes = refl

from_discord : extract_origin sample ≡ done (codes "https://discord.com")
unfolding extract_origin dirpc.Websocket.find_origin from_utf8 lines dirpc.Text.slice_to encode
    dirpc.Words.utf8 dirpc.Text.eq_ignore_ascii_case dirpc.Text.split_once dirpc.Text.trim
from_discord = refl

in_bounds : length sample ≤ 16384
in_bounds = rw (← same_bytes) (omega arith)

complete_request : upgrade.parse_request sample ≡ request (codes "key")
complete_request = rw (← same_bytes) refl

do_handshake_welcomes_example :
    do_handshake upgrade two_reads [] []
    ≡ (accepted (codes "42"), codes "HTTP/1.1 101 Switching Protocols\r\n\r\n" ∷ [])
unfolding dirpc.Websocket.validate_origin
do_handshake_welcomes_example =
    do_handshake_welcomes upgrade (codes "42") headers (codes "https://discord.com") (codes "key")
      (chunk front) (chunk back ∷ []) (refl, (refl, tt)) same_bytes
      (λ p s full e. rw (not_yet (length p) (shorter p s full (same_bytes ∙ e))) refl)
      sample_id-IsPlain headers-IsScalar in_bounds complete_request from_discord refl refl refl
