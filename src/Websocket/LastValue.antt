-- ===== src/Websocket/LastValue.antt =====
-- What `parse_query` of src/transports/websocket.rs finds: the last value of each key.
use dirpc.Prelude.{
  ℕ, Option, none, some, ◌>>=◌, Bytes, bytes_key, ==_iff, codes, List, [], ◌∷◌, if◌then◌else◌, ◌==◌,
  nat_eq, ◌≡◌, ◌∙◌, refl, ap, Bool-cases, inl, inr,
}
use dirpc.Text.{Chars, split_at, split_once}
use dirpc.Text.Decimal.{parse_u32}
use dirpc.Websocket.{Query, query_text, assign, assign_all, no_query, parse_query, text_or_empty}

abbrev value_of : Chars → Option (Chars × Chars) → Option Chars
value_of key none = none
value_of key (some (k, value)) = if k == key then some value else none

abbrev later : Option Chars → Option Chars → Option Chars
later none o = o
later (some t) o = some t

-- The value of the last part that is `key=value`.
abbrev pub last_value : Chars → List Chars → Option Chars
last_value key [] = none
last_value key (part ∷ rest) = later (last_value key rest) (value_of key (split_once b'=' part))

abbrev v_or : Option ℕ → Option Chars → Option ℕ
v_or d none = d
v_or d (some t) = parse_u32 t

abbrev text_or : Chars → Option Chars → Chars
text_or d none = d
text_or d (some t) = t

-- `q` with the values that are there
abbrev override : Query → Option Chars → Option Chars → Option Chars → Query
override q a b c = record {
  v = v_or q.v a;
  encoding = later b q.encoding;
  client_id = text_or q.client_id c;
}

v_or-later : (d : Option ℕ) (a o : Option Chars) → v_or (v_or d o) a ≡ v_or d (later a o)
v_or-later d none o = refl
v_or-later d (some t) o = refl

later-later : (d a o : Option Chars) → later a (later o d) ≡ later (later a o) d
later-later d none o = refl
later-later d (some t) o = refl

text_or-later : (d : Chars) (a o : Option Chars) → text_or (text_or d o) a ≡ text_or d (later a o)
text_or-later d none o = refl
text_or-later d (some t) o = refl

override-override :
    (q : Query) (a b c a' b' c' : Option Chars)
    → override (override q a' b' c') a b c ≡ override q (later a a') (later b b') (later c c')
override-override q a b c a' b' c' =
    rw (v_or-later q.v a a', later-later q.encoding b b', text_or-later q.client_id c c') refl

assign-override :
    (kv : Option (Chars × Chars)) (q : Query)
    → assign kv q
      ≡ override q
          (value_of (codes "v") kv)
          (value_of (codes "encoding") kv)
          (value_of (codes "client_id") kv)
assign-override none q = refl
assign-override (some (k, t)) q = elim (Bool-cases (k == codes "v")) [
  | inl e ↦ let s : k ≡ codes "v" = (==_iff k (codes "v")).0 e in rw s refl
  | inr e ↦ elim (Bool-cases (k == codes "encoding")) [
    | inl f ↦ let s : k ≡ codes "encoding" = (==_iff k (codes "encoding")).0 f in rw s refl
    | inr f ↦ elim (Bool-cases (k == codes "client_id")) [
      | inl g ↦ rw (e, f, g) refl
      | inr g ↦ rw (e, f, g) refl
    ]
  ]
]

assign_all-override :
    (parts : List Chars) (q : Query)
    → assign_all parts q
      ≡ override q
          (last_value (codes "v") parts)
          (last_value (codes "encoding") parts)
          (last_value (codes "client_id") parts)
unfolding assign_all
assign_all-override [] q = refl
assign_all-override (part ∷ rest) q =
    assign_all-override rest (assign (split_once b'=' part) q)
    ∙ ap
        (λ p.
          override p (last_value (codes "v") rest) (last_value (codes "encoding") rest)
            (last_value (codes "client_id") rest))
        (assign-override (split_once b'=' part) q)
    ∙ override-override q _ _ (last_value (codes "client_id") rest) _ _
        (value_of (codes "client_id") (split_once b'=' part))

v_or-none : (o : Option Chars) → v_or none o ≡ (o >>= parse_u32)
v_or-none none = refl
v_or-none (some t) = refl

later-none : (o : Option Chars) → later o none ≡ o
later-none none = refl
later-none (some t) = refl

text_or-empty : (o : Option Chars) → text_or [] o ≡ text_or_empty o
text_or-empty none = refl
text_or-empty (some t) = refl

from_nothing :
    (a b c : Option Chars)
    → override no_query a b c
      ≡ record { v = a >>= parse_u32; encoding = b; client_id = text_or_empty c }
from_nothing a b c = rw (v_or-none a, later-none b, text_or-empty c) refl

-- `parse_query` finds the last value of each key in the query: the version, where that value is a
-- number of 32 bits, the encoding, and the client id, which is empty without one.
pub parse_query_last :
    (buf : Bytes)
    → let parts = split_at b'&' (query_text buf) in
      parse_query buf ≡ record {
        v = last_value (codes "v") parts >>= parse_u32;
        encoding = last_value (codes "encoding") parts;
        client_id = text_or_empty (last_value (codes "client_id") parts);
      }
unfolding parse_query
parse_query_last buf =
    assign_all-override (split_at b'&' (query_text buf)) no_query
    ∙ from_nothing _ _ (last_value (codes "client_id") (split_at b'&' (query_text buf)))
