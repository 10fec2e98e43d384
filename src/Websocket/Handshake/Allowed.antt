-- ===== src/Websocket/Handshake/Allowed.antt =====
-- Which requests the WebSocket handshake accepts.
use dirpc.Prelude.{
  ℕ, ◌≤◌, true, Option, none, some, Bytes, bytes_key, ==_iff, codes, List, [], ◌∷◌, ◌++◌,
  append_assoc, append-nil, length, ltb, Run, done, panic, nat_eq, ◌≡◌, refl, ap, subst, arith,
  Bool-cases, inl, inr,
}
use dirpc.Text.{Chars}
use dirpc.Websocket.{max_ws_handshake_bytes, validate_origin, parse_query, extract_origin}
use dirpc.Websocket.Handshake.{
  Upgrade, Parsed, malformed, incomplete, request, Read, read_error, chunk, HandshakeError, Outcome,
  waiting, failed, panicked, accepted, refuse, complete, check_origin, is_v1, is_json, validate,
  after_parse, received, do_handshake,
}

-- The bytes of the reads.
abbrev pub joined : List Read → Bytes
joined [] = []
joined (read_error ∷ rs) = joined rs
joined (chunk s ∷ rs) = s ++ joined rs

-- The client that is accepted, if one is, satisfies `Q`.
abbrev OnAccepted : (Chars → Type 0) → Outcome → Type 0
OnAccepted Q (accepted id) = Q id
OnAccepted Q _ = Unit

is_v1-some : (o : Option ℕ) → is_v1 o ≡ true → o ≡ some 1
is_v1-some none h = cc
is_v1-some (some v) h = ap some ((==_iff v 1).0 h)

is_json-some : (o : Option Chars) → is_json o ≡ true → o ≡ some (codes "json")
is_json-some none h = cc
is_json-some (some e) h = ap some ((==_iff e (codes "json")).0 h)

module _ (up : Upgrade) where
  -- A request of this client that is complete, of version 1, in JSON, from an allowed origin, and
  -- not too large.
  pub record IsAllowed (id : Chars) (buf : Bytes) : Type 0 where
    pub key : Bytes
    pub origin : Chars
    pub small : length buf ≤ max_ws_handshake_bytes
    pub parsed : up.parse_request buf ≡ request key
    pub version : (parse_query buf).v ≡ some 1
    pub format : (parse_query buf).encoding ≡ some (codes "json")
    pub client : (parse_query buf).client_id ≡ id
    pub from : extract_origin buf ≡ done origin
    pub allowed : validate_origin origin ≡ true

  module _ (Q : Chars → Type 0) where
    refuse-OnAccepted :
        (e : HandshakeError) (answer : Bytes) (w : List Bytes)
        → OnAccepted Q (refuse up e answer w).0
    refuse-OnAccepted e answer w = elim (Bool-cases (up.write_ok w answer)) [
      | inl y ↦ rw y tt
      | inr y ↦ rw y tt
    ]

    complete-OnAccepted :
        (key : Bytes) (id : Chars) (w : List Bytes) → Q id → OnAccepted Q (complete up key id w).0
    unfolding complete
    complete-OnAccepted key id w q = elim (Bool-cases (up.write_ok w (up.response_to key))) [
      | inl y ↦ elim (Bool-cases (up.flush_ok (w ++ up.response_to key ∷ []))) [
        | inl z ↦ rw (y, z) q
        | inr z ↦ rw (y, z) tt
      ]
      | inr y ↦ rw y tt
    ]

    check_origin-OnAccepted :
        (key : Bytes) (id : Chars) (r : Run Chars) (w : List Bytes)
        → ((o : Chars) → r ≡ done o → validate_origin o ≡ true → Q id)
        → OnAccepted Q (check_origin up key id r w).0
    unfolding check_origin
    check_origin-OnAccepted key id panic w q = tt
    check_origin-OnAccepted key id (done o) w q = elim (Bool-cases (validate_origin o)) [
      | inl y ↦ rw y (complete-OnAccepted key id w (q o refl y))
      | inr y ↦ rw y (refuse-OnAccepted _ _ w)
    ]

  abbrev Accepts : Bytes → Outcome × List Bytes → Type 0
  Accepts buf r = OnAccepted (λ id. IsAllowed id buf) r.0

  validate-Accepts :
      (key buf : Bytes) (w : List Bytes)
      → length buf ≤ max_ws_handshake_bytes
      → up.parse_request buf ≡ request key
      → Accepts buf (validate up key buf w)
  unfolding validate
  validate-Accepts key buf w small parsed = elim (Bool-cases (is_v1 (parse_query buf).v)) [
    | inl e ↦ elim (Bool-cases (is_json (parse_query buf).encoding)) [
      | inl f ↦
          rw (e, f)
            (check_origin-OnAccepted (λ id. IsAllowed id buf) key (parse_query buf).client_id
              (extract_origin buf) w
              (λ o from allowed. record {
                key = key;
                origin = o;
                small = small;
                parsed = parsed;
                version = is_v1-some _ e;
                format = is_json-some _ f;
                client = refl;
                from = from;
                allowed = allowed;
              }))
      | inr f ↦ rw (e, f) (refuse-OnAccepted _ _ _ w)
    ]
    | inr e ↦ rw e (refuse-OnAccepted _ _ _ w)
  ]

  -- The reads that come first, and their bytes behind `buf`, make an allowed request.
  abbrev pub SomePrefix : List Read → Bytes → Chars → Type 0
  SomePrefix reads buf id =
      (before : List Read) × (after : List Read) × (reads ≡ before ++ after)
      × IsAllowed id (buf ++ joined before)

  later :
      (s : Bytes) (rs : List Read) (buf : Bytes) (id : Chars)
      → SomePrefix rs (buf ++ s) id
      → SomePrefix (chunk s ∷ rs) buf id
  later s rs buf id (before, after, e, h) =
      (chunk s ∷ before, after, ap (λ t. chunk s ∷ t) e, rw (← append_assoc) h)

  later_all :
      (s : Bytes) (rs : List Read) (buf : Bytes) (o : Outcome)
      → OnAccepted (SomePrefix rs (buf ++ s)) o
      → OnAccepted (SomePrefix (chunk s ∷ rs) buf) o
  later_all s rs buf (waiting _) h = tt
  later_all s rs buf (failed _) h = tt
  later_all s rs buf panicked h = tt
  later_all s rs buf (accepted id) h = later s rs buf id h

  now_all :
      (s : Bytes) (rs : List Read) (buf : Bytes) (o : Outcome)
      → OnAccepted (λ id. IsAllowed id (buf ++ s)) o
      → OnAccepted (SomePrefix (chunk s ∷ rs) buf) o
  now_all s rs buf (waiting _) h = tt
  now_all s rs buf (failed _) h = tt
  now_all s rs buf panicked h = tt
  now_all s rs buf (accepted id) h = (chunk s ∷ [], rs, refl, rw (append-nil s) h)

  after_parse-SomePrefix :
      (s : Bytes) (rs : List Read) (buf : Bytes) (w : List Bytes) (rest : Outcome × List Bytes)
      (p : Parsed)
      → length (buf ++ s) ≤ max_ws_handshake_bytes
      → up.parse_request (buf ++ s) ≡ p
      → OnAccepted (SomePrefix rs (buf ++ s)) rest.0
      → OnAccepted (SomePrefix (chunk s ∷ rs) buf) (after_parse up (buf ++ s) w rest p).0
  after_parse-SomePrefix s rs buf w rest malformed small e h = tt
  after_parse-SomePrefix s rs buf w rest incomplete small e h = later_all s rs buf rest.0 h
  after_parse-SomePrefix s rs buf w rest (request key) small e h =
      now_all s rs buf _ (validate-Accepts key (buf ++ s) w small e)

  do_handshake-SomePrefix :
      (reads : List Read) (buf : Bytes) (w : List Bytes)
      → OnAccepted (SomePrefix reads buf) (do_handshake up reads buf w).0
  unfolding do_handshake received
  do_handshake-SomePrefix [] buf w = tt
  do_handshake-SomePrefix (read_error ∷ rs) buf w = tt
  do_handshake-SomePrefix (chunk [] ∷ rs) buf w = tt
  do_handshake-SomePrefix (chunk (b ∷ s) ∷ rs) buf w =
      elim (Bool-cases (ltb max_ws_handshake_bytes (length (buf ++ b ∷ s)))) [
        | inl e ↦ rw e (refuse-OnAccepted _ _ _ w)
        | inr e ↦ rw e (
            after_parse-SomePrefix (b ∷ s) rs buf w _ (up.parse_request (buf ++ b ∷ s))
              (ground arith) refl (do_handshake-SomePrefix rs (buf ++ b ∷ s) w))
      ]

  -- A client is accepted only on the bytes of some first reads that are a complete request of at most
  -- 16384 bytes, with `v` 1, the encoding `json`, an allowed origin and this client's id.
  pub do_handshake_accepts :
      (reads : List Read) (id : Chars)
      → (do_handshake up reads [] []).0 ≡ accepted id
      → SomePrefix reads [] id
  do_handshake_accepts reads id e =
      subst (λ o. OnAccepted (SomePrefix reads []) o) e (do_handshake-SomePrefix reads [] [])
