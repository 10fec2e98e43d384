-- ===== src/Websocket/RoundTrip.antt =====
-- A client's upgrade request is read back by `parse_query`.
use dirpc.Prelude.{
  ℕ, true, false, some, bytes_key, codes, [], ◌∷◌, ◌++◌, append_assoc, all, ltb, ◌==◌, nat_eq, ◌≡◌,
  ◌∙◌, refl, ap, arith, All, All-append, inl,
}
use dirpc.Text.{Chars, from_utf8, lines, split_whitespace, is_whitespace, split_at, split_once}
use dirpc.Text.Decimal.{parse_u32}
use dirpc.Text.Utf8.{IsScalar, encode, from_utf8-encode}
use dirpc.Text.Parts.{
  All-all, in_line, in_word, InLine, InWord, lines-line, split_whitespace-word, split_at-part,
}
use dirpc.Websocket.{query_text, parse_query, assign_all}

-- The request of a client: its request line, then the headers.
abbrev pub target : Chars → Chars
target id = codes "/?v=1&encoding=json&client_id=" ++ id

abbrev pub request_text : Chars → Chars → Chars
request_text id headers =
    codes "GET" ++ b' ' ∷ (target id ++ b' ' ∷ (codes "HTTP/1.1" ++ b'\r' ∷ b'\n' ∷ headers))

-- A scalar value that is no space and does not separate parameters.
abbrev pub IsPlain : ℕ → Type 0
IsPlain c = IsScalar c × (is_whitespace c ≡ false) × ((c == b'&') ≡ false)

All-map : {P Q : ℕ → Type 0} (s : Chars) → ((c : ℕ) → P c → Q c) → All P s → All Q s
All-map [] f h = tt
All-map (c ∷ s) f (h, hs) = (f c h, All-map s f hs)

pub ascii-IsScalar : (s : Chars) → all (λ c. ltb c 128) s ≡ true → All IsScalar s
ascii-IsScalar s h = All-map s (λ c e. inl (ground arith)) (All-all (λ c. ltb c 128) s h)

plain-in_word : (c : ℕ) → IsPlain c → in_word c ≡ true
plain-in_word c (_, w, _) = rw w refl

in_word-in_line : (c : ℕ) → in_word c ≡ true → in_line c ≡ true
in_word-in_line c h = ground arith

request-IsScalar :
    (id headers : Chars)
    → All IsPlain id
    → All IsScalar headers
    → All IsScalar (request_text id headers)
request-IsScalar id headers h k =
    All-append IsScalar (codes "GET ") (target id ++ (codes " HTTP/1.1\r\n" ++ headers))
      (ascii-IsScalar (codes "GET ") refl)
      (All-append IsScalar (target id) (codes " HTTP/1.1\r\n" ++ headers)
        (All-append IsScalar (codes "/?v=1&encoding=json&client_id=") id
          (ascii-IsScalar (codes "/?v=1&encoding=json&client_id=") refl)
          (All-map id (λ c p. p.0) h))
        (All-append IsScalar (codes " HTTP/1.1\r\n") headers
          (ascii-IsScalar (codes " HTTP/1.1\r\n") refl) k))

target-InWord : (id : Chars) → All IsPlain id → InWord (target id)
target-InWord id h =
    All-append (λ c. in_word c ≡ true) (codes "/?v=1&encoding=json&client_id=") id
      (All-all in_word (codes "/?v=1&encoding=json&client_id=") refl) (All-map id plain-in_word h)

abbrev line : Chars → Chars
line id = codes "GET" ++ b' ' ∷ (target id ++ b' ' ∷ codes "HTTP/1.1")

line-InLine : (id : Chars) → All IsPlain id → InLine (line id)
line-InLine id h =
    All-append (λ c. in_line c ≡ true) (codes "GET ") (target id ++ codes " HTTP/1.1")
      (All-all in_line (codes "GET ") refl)
      (All-append (λ c. in_line c ≡ true) (target id) (codes " HTTP/1.1")
        (All-map (target id) in_word-in_line (target-InWord id h))
        (All-all in_line (codes " HTTP/1.1") refl))

request_line :
    (id headers : Chars)
    → All IsPlain id
    → lines (request_text id headers) ≡ line id ∷ lines headers
request_line id headers h =
    ap (λ t. lines (codes "GET " ++ t))
      (append_assoc' (target id) (codes " HTTP/1.1") (b'\r' ∷ b'\n' ∷ headers))
    ∙ lines-line (line id) headers (line-InLine id h)
  where
    append_assoc' : (a b c : Chars) → a ++ (b ++ c) ≡ (a ++ b) ++ c
    append_assoc' a b c = rw (append_assoc a b c) refl

request_words :
    (id : Chars)
    → All IsPlain id
    → split_whitespace (line id) ≡ codes "GET" ∷ target id ∷ split_whitespace (codes "HTTP/1.1")
request_words id h =
    split_whitespace-word b'G' (codes "ET") (target id ++ b' ' ∷ codes "HTTP/1.1")
      (All-all in_word (codes "GET") refl)
    ∙ ap (λ ws. codes "GET" ∷ ws)
        (split_whitespace-word b'/' (codes "?v=1&encoding=json&client_id=" ++ id) (codes "HTTP/1.1")
          (target-InWord id h))

query_text-request :
    (id headers : Chars)
    → All IsPlain id
    → All IsScalar headers
    → query_text (encode (request_text id headers)) ≡ codes "v=1&encoding=json&client_id=" ++ id
unfolding query_text split_once
query_text-request id headers h k =
    rw
      (
        from_utf8-encode (request_text id headers) (request-IsScalar id headers h k),
        request_line id headers h,
        request_words id h,
      )
      refl

-- A client that asks for version 1, JSON and its id, all of whose characters are neither spaces nor
-- `&`, is understood so, whatever headers follow its request line.
pub parse_query-encode :
    (id headers : Chars)
    → All IsPlain id
    → All IsScalar headers
    → parse_query (encode (request_text id headers))
      ≡ record { v = some 1; encoding = some (codes "json"); client_id = id }
unfolding parse_query assign_all split_at split_once parse_u32 dirpc.Text.Decimal.digits_from
parse_query-encode id headers h k =
    rw (query_text-request id headers h k, split_at-part b'&' id (All-map id (λ c p. p.2) h)) refl
