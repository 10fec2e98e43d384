-- ===== src/Server/Activity/Described.antt =====
-- The activity that `handle_message` broadcasts, against a description of its fields that uses none of
-- the handler's helpers but `maybe_to_ms`.
use dirpc.Prelude.{
  ℕ, String, Bool, false, Option, none, some, ◌≡◌, ◌∙◌, refl, sym, ap, arith, ◌>>=◌, if◌then◌else◌,
  ◌==◌, string_eq, ==_iff, Option-cases, Bool-cases, inl, inr,
}
use dirpc.Prelude.Int.{ℤ}
use dirpc.Json.{
  Numbers, Value, Items, Fields, null, bool, number, string, array, object, nil, cons, end, field,
  lookup, insert, get, as_object, as_array, as_number, as_bool, is_nil,
}
use dirpc.Json.Maps.{lookup-insert, IsMap, or_else}
use dirpc.Server.Time.{maybe_to_ms}
use dirpc.Server.Activity.{
  or_false, push, labels_and_urls, map_buttons, translate_timestamps, scale, flags, full_activity,
}
use dirpc.Server.Activity.Lookup.{
  default_field, timestamps_field, with_labels, lookup-full_activity,
}

module _ {N : Type 0} where
  abbrev pub before : Option (Value N) → Items N → Items N
  before none vs = vs
  before (some v) vs = cons v vs

  -- What the items have under a key, in order.
  unfoldable pub all_at : String → Items N → Items N
  all_at key nil = nil
  all_at key (cons v vs) = before (get key v) (all_at key vs)

  abbrev pub is_true : Option (Value N) → Bool
  is_true (some (bool b)) = b
  is_true _ = false

  -- The fields `buttons` and `metadata`: `labels` and `urls` are those of the client's buttons.
  abbrev pub shown_buttons : Items N → Option (Value N) → Option (Value N)
  shown_buttons nil own = own
  shown_buttons (cons v vs) own = some (array (cons v vs))

  abbrev pub shown_metadata : Items N → Items N → Fields N
  shown_metadata nil urls = end
  shown_metadata (cons v vs) urls = field "button_urls" (array urls) end

  abbrev pub buttons_of : Option (Value N) → Items N
  buttons_of (some (array vs)) = vs
  buttons_of _ = nil

module _ (num : Numbers) where
  -- An integer becomes milliseconds, anything else stays.
  abbrev pub stamp : ℤ → Option (Value num.Number) → Option (Value num.Number)
  stamp now (some (number n)) = elim (num.as_i64 n) [
    | none ↦ some (number n)
    | some t ↦ some (number (num.of_i64 (maybe_to_ms now t)))
  ]
  stamp now o = o

  abbrev pub stamped : ℤ → ℤ → String → Option (Value num.Number) → Option (Value num.Number)
  stamped now now' k o =
      if "end" == k then stamp now' o else if "start" == k then stamp now o else o

  -- `o` is the client's field `timestamps`, if that is an object with its start and end scaled.
  abbrev pub IsStamped : ℤ → ℤ → Option (Value num.Number) → Option (Value num.Number) → Type 0
  IsStamped now now' (some (object ts)) o =
      (fields : Fields num.Number) × (o ≡ some (object fields))
      × ((k : String) → lookup k fields ≡ stamped now now' k (lookup k ts))
  IsStamped now now' own o = o ≡ own

  stamp-none :
      (now : ℤ) (o : Option (Value num.Number))
      → (o >>= as_number >>= num.as_i64) ≡ none
      → stamp now o ≡ o
  stamp-none now none h = refl
  stamp-none now (some null) h = refl
  stamp-none now (some (bool b)) h = refl
  stamp-none now (some (number n)) h = let q : num.as_i64 n ≡ none = h in rw (q, stamp) refl
  stamp-none now (some (string t)) h = refl
  stamp-none now (some (array vs)) h = refl
  stamp-none now (some (object m)) h = refl

  stamp-some :
      (now : ℤ) (o : Option (Value num.Number)) (t : ℤ)
      → (o >>= as_number >>= num.as_i64) ≡ some t
      → stamp now o ≡ some (number (num.of_i64 (maybe_to_ms now t)))
  stamp-some now none t h = cc
  stamp-some now (some null) t h = cc
  stamp-some now (some (bool b)) t h = cc
  stamp-some now (some (number n)) t h = let q : num.as_i64 n ≡ some t = h in rw (q, stamp) refl
  stamp-some now (some (string u)) t h = cc
  stamp-some now (some (array vs)) t h = cc
  stamp-some now (some (object m)) t h = cc

  unstamped :
      (key : String) (now : ℤ) (ts : Fields num.Number) (k : String)
      → stamp now (lookup key ts) ≡ lookup key ts
      → lookup k ts ≡ (if key == k then stamp now (lookup k ts) else lookup k ts)
  unstamped key now ts k h = elim (Bool-cases (key == k)) [
    | inl e ↦ rw e (
        sym (
          ap (λ x. stamp now (lookup x ts)) (sym ((==_iff key k).0 e))
          ∙ h
          ∙ ap (λ x. lookup x ts) ((==_iff key k).0 e)))
    | inr e ↦ rw e refl
  ]

  stamp_lem :
      (key : String) (now : ℤ) (ts : Fields num.Number) (k : String)
      → lookup k (scale num key now ts)
        ≡ (if key == k then stamp now (lookup k ts) else lookup k ts)
  unfolding scale
  stamp_lem key now ts k = elim (Option-cases (lookup key ts >>= as_number >>= num.as_i64)) [
    | inl e ↦ rw (e, scale) (unstamped key now ts k (stamp-none now (lookup key ts) e))
    | inr (t, e) ↦
        rw (e, scale, lookup-insert key k (number (num.of_i64 (maybe_to_ms now t))) ts)
          (elim (Bool-cases (key == k)) [
            | inl f ↦ rw f (
                sym (
                  ap (λ x. stamp now (lookup x ts)) (sym ((==_iff key k).0 f))
                  ∙ stamp-some now (lookup key ts) t e))
            | inr f ↦ rw f refl
          ])
  ]

  stamped_lem :
      (now now' : ℤ) (ts : Fields num.Number) (k : String)
      → lookup k (scale num "end" now' (scale num "start" now ts))
        ≡ stamped now now' k (lookup k ts)
  stamped_lem now now' ts k =
      rw (stamp_lem "end" now' (scale num "start" now ts) k, stamp_lem "start" now ts k)
        (elim (Bool-cases ("end" == k)) [
          | inl e ↦ let q : "end" ≡ k = (==_iff "end" k).0 e in rw (e, ← q) refl
          | inr e ↦ rw e refl
        ])

  flags_lem :
      (m : Fields num.Number) → flags num m ≡ (if is_true (lookup "instance" m) then 1 else 0)
  unfolding flags
  flags_lem m = go (lookup "instance" m)
    where
      go :
          (o : Option (Value num.Number))
          → ◌≡◌ {A = ℕ} (if or_false (o >>= as_bool) then 1 else 0) (if is_true o then 1 else 0)
      go none = refl
      go (some null) = refl
      go (some (bool b)) = refl
      go (some (number n)) = refl
      go (some (string t)) = refl
      go (some (array vs)) = refl
      go (some (object f)) = refl

  push-before : (o : Option (Value num.Number)) (vs : Items num.Number) → push o vs ≡ before o vs
  push-before none vs = refl
  push-before (some v) vs = refl

  labels_and_urls_lem :
      (buttons : Items num.Number)
      → labels_and_urls num buttons ≡ (all_at "label" buttons, all_at "url" buttons)
  unfolding labels_and_urls all_at
  labels_and_urls_lem nil = refl
  labels_and_urls_lem (cons b bs) =
      rw
        (
          labels_and_urls_lem bs,
          push-before (get "label" b) (all_at "label" bs),
          push-before (get "url" b) (all_at "url" bs),
        )
        refl

  abbrev pub labels_of : Fields num.Number → Items num.Number
  labels_of m = all_at "label" (buttons_of (lookup "buttons" m))

  abbrev pub urls_of : Fields num.Number → Items num.Number
  urls_of m = all_at "url" (buttons_of (lookup "buttons" m))

  -- Field `k` of the activity for the bridge, where `stamps` is its field `timestamps`.
  abbrev pub described_field :
      String → Option (Value num.Number) → Fields num.Number → String → Option (Value num.Number)
  described_field client_id stamps m k =
      let own = or_else (if "timestamps" == k then stamps else lookup k m) (
        default_field num client_id (shown_metadata (labels_of m) (urls_of m))
          (if is_true (lookup "instance" m) then 1 else 0) k) in
      if "buttons" == k then shown_buttons (labels_of m) own else own

  -- `full` is the activity for the bridge, from the client's `m`.
  abbrev pub IsFull : String → ℤ → ℤ → Fields num.Number → Fields num.Number → Type 0
  IsFull client_id now now' m full =
      (stamps : Option (Value num.Number)) × IsStamped now now' (lookup "timestamps" m) stamps
      × ((k : String) → lookup k full ≡ described_field client_id stamps m k)

  -- what the buttons give, by the labels and urls that are there
  abbrev given_labels : Items num.Number → Option (Items num.Number)
  given_labels nil = none
  given_labels (cons v vs) = some (cons v vs)

  map_buttons_lem :
      (m : Fields num.Number)
      → map_buttons num m ≡ (given_labels (labels_of m), shown_metadata (labels_of m) (urls_of m))
  unfolding map_buttons all_at insert
  map_buttons_lem m = go (lookup "buttons" m)
    where
      shape :
          (labels urls : Items num.Number)
          → ◌≡◌ {A = Option (Items num.Number) × Fields num.Number}
              (if is_nil labels
                then (none, end)
                else (some labels, insert "button_urls" (array urls) end))
              (given_labels labels, shown_metadata labels urls)
      shape nil urls = refl
      shape (cons v vs) urls = refl

      loop :
          (buttons : Items num.Number)
          → ◌≡◌ {A = Option (Items num.Number) × Fields num.Number}
              (let (labels, urls) = labels_and_urls num buttons in
                if is_nil labels
                then (none, end)
                else (some labels, insert "button_urls" (array urls) end))
              (
                given_labels (all_at "label" buttons),
                shown_metadata (all_at "label" buttons) (all_at "url" buttons),
              )
      loop buttons =
          rw (labels_and_urls_lem buttons) (shape (all_at "label" buttons) (all_at "url" buttons))

      go :
          (o : Option (Value num.Number))
          → ◌≡◌ {A = Option (Items num.Number) × Fields num.Number}
              (elim (o >>= as_array) [
                | none ↦ (none, end)
                | some buttons ↦
                    let (labels, urls) = labels_and_urls num buttons in
                    if is_nil labels
                    then (none, end)
                    else (some labels, insert "button_urls" (array urls) end)
              ])
              (
                given_labels (all_at "label" (buttons_of o)),
                shown_metadata (all_at "label" (buttons_of o)) (all_at "url" (buttons_of o)),
              )
      go none = refl
      go (some null) = refl
      go (some (bool b)) = refl
      go (some (number n)) = refl
      go (some (string t)) = refl
      go (some (array vs)) = loop vs
      go (some (object f)) = refl

  with_labels-given_labels :
      (labels : Items num.Number) (k : String) (own : Option (Value num.Number))
      → with_labels num (given_labels labels) k own
        ≡ (if "buttons" == k then shown_buttons labels own else own)
  unfolding with_labels
  with_labels-given_labels nil k own = ground arith
  with_labels-given_labels (cons v vs) k own = refl

  timestamps_field-IsStamped :
      (now now' : ℤ) (m : Fields num.Number)
      → IsStamped now now' (lookup "timestamps" m) (timestamps_field num now now' m)
  timestamps_field-IsStamped now now' m = go (lookup "timestamps" m)
    where
      go :
          (o : Option (Value num.Number))
          → IsStamped now now' o (elim (o >>= as_object) [
            | none ↦ o
            | some ts ↦ some (object (scale num "end" now' (scale num "start" now ts)))
          ])
      go none = refl
      go (some null) = refl
      go (some (bool b)) = refl
      go (some (number n)) = refl
      go (some (string t)) = refl
      go (some (array vs)) = refl
      go (some (object ts)) = (_, refl, stamped_lem now now' ts)

  pub full_activity-IsFull :
      (client_id : String) (now now' : ℤ) (m : Fields num.Number)
      → IsMap m
      → IsFull client_id now now' m
          (full_activity num client_id (map_buttons num m) (translate_timestamps num now now' m))
  full_activity-IsFull client_id now now' m h = (
    timestamps_field num now now' m,
    timestamps_field-IsStamped now now' m,
    λ k.
        lookup-full_activity num client_id now now' m k h
        ∙ rw (map_buttons_lem m, flags_lem m, with_labels-given_labels (labels_of m) k _) refl,
  )
