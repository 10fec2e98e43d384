-- ===== src/Server/Activity/Lookup.antt =====
-- The fields of the activity that `handle_message` broadcasts, and of the data that it answers.
use mathlib.Core.Path.{subst}
use dirpc.Prelude.{
  ℕ, String, Option, none, some, ◌≡◌, refl, arith, ◌>>=◌, if◌then◌else◌, ◌==◌, string_eq, ==_iff,
  sym, Option-cases, inl, inr,
}
use dirpc.Prelude.Int.{ℤ}
use dirpc.Json.{
  Numbers, Value, Items, Fields, number, string, array, object, lookup, insert, as_object,
}
use dirpc.Json.Maps.{lookup-insert, lookup-extend, extend, IsMap, IsMap-insert, or_else}
use dirpc.Server.Activity.{
  map_buttons, translate_timestamps, scale, flags, base, put_labels, full_activity, resp_data,
}

module _ (num : Numbers) where
  -- `timestamps`, with its two fields scaled, where it is an object
  abbrev pub timestamps_field : ℤ → ℤ → Fields num.Number → Option (Value num.Number)
  timestamps_field now now' m = elim (lookup "timestamps" m >>= as_object) [
    | none ↦ lookup "timestamps" m
    | some ts ↦ some (object (scale num "end" now' (scale num "start" now ts)))
  ]

  abbrev pub translated_field : ℤ → ℤ → Fields num.Number → String → Option (Value num.Number)
  translated_field now now' m k =
      if "timestamps" == k then timestamps_field now now' m else lookup k m

  -- what the server adds where the client is silent
  abbrev pub default_field : String → Fields num.Number → ℕ → String → Option (Value num.Number)
  default_field client_id metadata n k =
      if "flags" == k
      then some (number (num.of_u64 n))
      else if "metadata" == k
      then some (object metadata)
      else if "type" == k
      then some (number (num.of_u64 0))
      else if "application_id" == k
      then some (string client_id)
      else none

  translate_none :
      (now now' : ℤ) (m : Fields num.Number)
      → (lookup "timestamps" m >>= as_object) ≡ none
      → translate_timestamps num now now' m ≡ m
  unfolding translate_timestamps
  translate_none now now' m e = rw (e, translate_timestamps)

  translate_some :
      (now now' : ℤ) (m ts : Fields num.Number)
      → (lookup "timestamps" m >>= as_object) ≡ some ts
      → translate_timestamps num now now' m
        ≡ insert "timestamps" (object (scale num "end" now' (scale num "start" now ts))) m
  unfolding translate_timestamps
  translate_some now now' m ts e = rw (e, translate_timestamps)

  lookup-translate_timestamps :
      (now now' : ℤ) (m : Fields num.Number) (k : String)
      → lookup k (translate_timestamps num now now' m) ≡ translated_field now now' m k
  lookup-translate_timestamps now now' m k =
      elim (Option-cases (lookup "timestamps" m >>= as_object)) [
        | inl e ↦ rw (translate_none now now' m e) (ground (arith, ==_iff "timestamps" k))
        | inr (ts, e) ↦ rw (translate_some now now' m ts e, lookup-insert) (ground arith)
      ]

  IsMap-translate_timestamps :
      (now now' : ℤ) (m : Fields num.Number) → IsMap m → IsMap (translate_timestamps num now now' m)
  IsMap-translate_timestamps now now' m h =
      elim (Option-cases (lookup "timestamps" m >>= as_object)) [
        | inl e ↦ subst IsMap (sym (translate_none now now' m e)) h
        | inr (ts, e) ↦
            subst IsMap (sym (translate_some now now' m ts e)) (IsMap-insert "timestamps" _ m h)
      ]

  lookup-base :
      (client_id : String) (metadata : Fields num.Number) (n : ℕ) (k : String)
      → lookup k (base num client_id metadata n) ≡ default_field client_id metadata n k
  unfolding base lookup
  lookup-base client_id metadata n k = simp lookup-insert

  -- the labels stand under `buttons` if there are any
  unfoldable pub with_labels :
      Option (Items num.Number) → String → Option (Value num.Number) → Option (Value num.Number)
  with_labels none k own = own
  with_labels (some labels) k own = if "buttons" == k then some (array labels) else own

  -- Field `k` of the activity for the bridge.
  abbrev pub expected_field :
      String → ℤ → ℤ → Fields num.Number → String → Option (Value num.Number)
  expected_field client_id now now' m k =
      let own =
        or_else (translated_field now now' m k)
          (default_field client_id (map_buttons num m).1 (flags num m) k) in
      with_labels (map_buttons num m).0 k own

  flags-translate_timestamps :
      (now now' : ℤ) (m : Fields num.Number)
      → flags num (translate_timestamps num now now' m) ≡ flags num m
  unfolding flags
  flags-translate_timestamps now now' m = rw (lookup-translate_timestamps now now' m "instance")

  lookup-put_labels :
      (labels : Option (Items num.Number)) (full : Fields num.Number) (k : String)
      → lookup k (put_labels num labels full) ≡ with_labels labels k (lookup k full)
  unfolding put_labels with_labels
  lookup-put_labels none full k = refl
  lookup-put_labels (some ls) full k = lookup-insert "buttons" k (array ls) full

  lookup-merged :
      (client_id : String) (metadata : Fields num.Number) (n : ℕ) (c : Fields num.Number)
      (k : String)
      → IsMap c
      → lookup k (extend (base num client_id metadata n) c)
        ≡ or_else (lookup k c) (default_field client_id metadata n k)
  lookup-merged client_id metadata n c k h =
      rw (lookup-extend (base num client_id metadata n) c k h, lookup-base client_id metadata n k)

  full_activity_lem :
      (client_id : String) (b : Option (Items num.Number) × Fields num.Number)
      (c : Fields num.Number)
      → full_activity num client_id b c
        ≡ put_labels num b.0 (extend (base num client_id b.1 (flags num c)) c)
  unfolding full_activity
  full_activity_lem client_id b c = refl

  -- Where the client repeats no field, each field of the broadcast activity: the button labels
  -- replace `buttons` if there are any; else what the client sent stands, with scaled timestamps;
  -- else the server's default.
  pub lookup-full_activity :
      (client_id : String) (now now' : ℤ) (m : Fields num.Number) (k : String)
      → IsMap m
      → lookup k
          (full_activity num client_id (map_buttons num m) (translate_timestamps num now now' m))
        ≡ expected_field client_id now now' m k
  lookup-full_activity client_id now now' m k h = rw (
    full_activity_lem client_id (map_buttons num m) (translate_timestamps num now now' m),
    lookup-put_labels (map_buttons num m).0 _ k,
    flags-translate_timestamps now now' m,
    lookup-merged client_id (map_buttons num m).1 (flags num m)
        (translate_timestamps num now now' m) k (IsMap-translate_timestamps now now' m h),
    lookup-translate_timestamps now now' m k,
  )

  -- Each field of the response data: an empty name, the client's id and type 0 whatever the client
  -- sent, and otherwise what it sent, with scaled timestamps.
  pub lookup-resp_data :
      (client_id : String) (now now' : ℤ) (m : Fields num.Number) (k : String)
      → lookup k (resp_data num client_id (translate_timestamps num now now' m)) ≡ (
          if "type" == k
          then some (number (num.of_u64 0))
          else if "application_id" == k
          then some (string client_id)
          else if "name" == k
          then some (string "")
          else translated_field now now' m k)
  unfolding resp_data
  lookup-resp_data client_id now now' m k =
      simp lookup-insert (rw (lookup-translate_timestamps now now' m k))
