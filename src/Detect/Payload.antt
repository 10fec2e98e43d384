-- ===== src/Detect/Payload.antt =====
-- The payload of the detectable applications, src/process/detectable.rs: where its entries are found,
-- and how a payload that has none is described. The fields of an object stand in the order in which
-- `values` visits them. serde's readers, and Rust's `Debug` form of a text and of a set of texts, are
-- parameters.
pub mod Found
pub mod Preview
use Prim.Native.String
use dirpc.Prelude.{
  ℕ, zero, suc, ◌+◌, String, Bool, true, false, Option, none, some, Bytes, List, [], ◌∷◌, ◌++◌, leb,
  if◌then◌else◌, ◌==◌, nat_eq, string_eq,
}
use dirpc.Prelude.Assoc.{Assoc, get}
use dirpc.Json.{
  Value, Items, Fields, null, bool, number, string, array, object, nil, cons, end, field, lookup,
  is_nil,
}
use dirpc.Bridge.{decimal}
use dirpc.Text.{Chars, split_whitespace}
use dirpc.Detect.{DetectableEntry}

abbrev pub Entries : Type 0
Entries = List DetectableEntry

abbrev pub first_some {ℓ} : {A : Type ℓ} → List (Option A) → Option A
first_some [] = none
first_some (none ∷ rest) = first_some rest
first_some (some a ∷ rest) = some a

abbrev pub flat {ℓ} : {A : Type ℓ} → Option (Option A) → Option A
flat none = none
flat (some o) = o

-- What each field's value yields.
abbrev pub Results : Type 0
Results = Assoc String (Option Entries)

abbrev pub values : Results → List (Option Entries)
values [] = []
values ((k, r) ∷ rest) = r ∷ values rest

-- The three keys first, then all values.
unfoldable pub pick : Results → Option Entries
pick rs =
    first_some
      (flat (get "applications" rs) ∷ flat (get "data" rs) ∷ flat (get "results" rs) ∷ values rs)

module _ {N : Type 0} (deserialize : Value N → Option DetectableEntry) where
  abbrev cons_some : Option DetectableEntry → Entries → Entries
  cons_some none es = es
  cons_some (some e) es = e ∷ es

  -- `filter_map`
  unfoldable pub entries_of : Items N → Entries
  entries_of nil = []
  entries_of (cons v xs) = cons_some (deserialize v) (entries_of xs)

  abbrev nonempty : Entries → Option Entries
  nonempty [] = none
  nonempty (e ∷ es) = some (e ∷ es)

  unfoldable pub parse_entries_from_array : Items N → Option Entries
  parse_entries_from_array xs = if is_nil xs then some (entries_of xs) else nonempty (entries_of xs)

  unfoldable mutual
    pub parse_entries_from_value : Value N → Option Entries
    parse_entries_from_value (array xs) = parse_entries_from_array xs
    parse_entries_from_value (object m) = pick (results_of m)
    parse_entries_from_value null = none
    parse_entries_from_value (bool _) = none
    parse_entries_from_value (number _) = none
    parse_entries_from_value (string _) = none

    pub results_of : Fields N → Results
    results_of end = []
    results_of (field k v m) = (k, parse_entries_from_value v) ∷ results_of m

-- `compact_whitespace_preview`: the text so far, and `chars_used`.
unfoldable pub push_chars : ℕ → Chars → Chars × ℕ → Chars × ℕ
push_chars max [] s = s
push_chars max (c ∷ token) (out, used) =
    let next = push_chars max token (out ++ c ∷ [], used + 1) in
    if leb max used then (out, used) else next

unfoldable pub preview_tokens : ℕ → List Chars → Chars × ℕ → Chars
preview_tokens max [] (out, used) = out
preview_tokens max (token ∷ rest) ([], used) =
    preview_tokens max rest (push_chars max token ([], used))
preview_tokens max (token ∷ rest) (c ∷ out, used) =
    let next = preview_tokens max rest (push_chars max token (c ∷ out ++ b' ' ∷ [], used + 1)) in
    if leb max used then c ∷ out else next

unfoldable pub compact_whitespace_preview : Chars → ℕ → Chars
compact_whitespace_preview input max =
    if max == 0 then [] else preview_tokens max (split_whitespace input) ([], 0)

infixr 65 ◌+++◌
abbrev ◌+++◌ : String → String → String
s +++ t = String.◌++◌ s t

-- The texts of `describe_payload_shape`.
module _ {N : Type 0} (debug_keys : List String → String) where
  abbrev count : Items N → ℕ
  count nil = 0
  count (cons v xs) = suc (count xs)

  abbrev names : Fields N → List String
  names end = []
  names (field k v m) = k ∷ names m

  unfoldable pub describe_json_value : Value N → String
  describe_json_value null = "null"
  describe_json_value (bool _) = "boolean"
  describe_json_value (number _) = "number"
  describe_json_value (string _) = "string"
  describe_json_value (array xs) = "array(len=" +++ decimal (count xs) +++ ")"
  describe_json_value (object m) = "object(keys=" +++ debug_keys (names m) +++ ")"

  abbrev describe_child : String → Option (Value N) → String
  describe_child key none = ""
  describe_child key (some v) = ", " +++ key +++ "=" +++ describe_json_value v

  abbrev describe_first : Items N → String
  describe_first nil = ""
  describe_first (cons v _) = ", first=" +++ describe_json_value v

  describe_top : Value N → String
  describe_top (array xs) =
      "top-level array(len=" +++ decimal (count xs) +++ ")" +++ describe_first xs
  describe_top (object m) =
      "top-level object(keys="
      +++ debug_keys (names m)
      +++ ")"
      +++ describe_child "applications" (lookup "applications" m)
      +++ describe_child "data" (lookup "data" m)
      +++ describe_child "results" (lookup "results" m)
  describe_top v = "top-level " +++ describe_json_value v

-- serde's readers, the lossy decoding of UTF-8, and the quoted form of a text
pub record Reader (N : Type 0) : Type 0 where
  pub as_list : Bytes → Option Entries
  pub as_wrapped : Bytes → Option Entries
  pub as_value : Bytes → Option (Value N)
  pub deserialize : Value N → Option DetectableEntry
  pub from_utf8_lossy : Bytes → Chars
  pub debug_text : Chars → String
  pub debug_keys : List String → String

pub data Parsed : Type 0 where
  entries : Entries → Parsed
  bad_shape : String → Parsed

module _ {N : Type 0} (reader : Reader N) where
  shape_of : Bytes → Option (Value N) → String
  shape_of body none =
      "non-JSON response preview="
      +++ reader.debug_text (compact_whitespace_preview (reader.from_utf8_lossy body) 200)
  shape_of body (some v) = describe_top reader.debug_keys v

  unfoldable pub describe_payload_shape : Bytes → String
  unfolding shape_of describe_top
  describe_payload_shape body = shape_of body (reader.as_value body)

  abbrev in_value : Option (Value N) → Option Entries
  in_value none = none
  in_value (some v) = parse_entries_from_value reader.deserialize v

  abbrev or_bad : Bytes → Option Entries → Parsed
  or_bad body none =
      bad_shape
        ("unexpected detectable API payload shape (" +++ describe_payload_shape body +++ ")")
  or_bad body (some es) = entries es

  unfoldable pub parse_detectable_entries : Bytes → Parsed
  parse_detectable_entries body = or_bad body (
      first_some
        (reader.as_list body ∷ reader.as_wrapped body ∷ in_value (reader.as_value body) ∷ []))
