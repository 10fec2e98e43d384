-- ===== src/Server/Activity.antt =====
-- How `handle_message` of src/server.rs translates a raw activity: the buttons, the timestamps, the
-- merged activity for the bridge, and the data of the response.
pub mod Lookup
pub mod Described
use dirpc.Prelude.{ℕ, String, Bool, true, false, Option, none, some, ◌>>=◌, if◌then◌else◌}
use dirpc.Prelude.Int.{ℤ}
use dirpc.Json.{
  Numbers, Value, Items, Fields, null, bool, number, string, array, object, nil, cons, end, field,
  lookup, insert, get, as_object, as_array, as_bool, as_number, is_nil,
}
use dirpc.Json.Maps.{extend}
use dirpc.Server.Time.{maybe_to_ms}

abbrev pub push : {N : Type 0} → Option (Value N) → Items N → Items N
push none xs = xs
push (some v) xs = cons v xs

abbrev pub or_false : Option Bool → Bool
or_false none = false
or_false (some b) = b

module _ (num : Numbers) where
  abbrev N : Type 0
  N = num.Number

  -- the loop over the buttons: the labels and the urls that are there, in order
  unfoldable pub labels_and_urls : Items N → Items N × Items N
  labels_and_urls nil = (nil, nil)
  labels_and_urls (cons button rest) =
      let (labels, urls) = labels_and_urls rest in
      (push (get "label" button) labels, push (get "url" button) urls)

  -- `button_labels` and `metadata`
  unfoldable pub map_buttons : Fields N → Option (Items N) × Fields N
  map_buttons canonical = elim (lookup "buttons" canonical >>= as_array) [
    | none ↦ (none, end)
    | some buttons ↦
        let (labels, urls) = labels_and_urls buttons in
        if is_nil labels then (none, end) else (some labels, insert "button_urls" (array urls) end)
  ]

  -- one of the two timestamps, if it is there as an i64
  unfoldable pub scale : String → ℤ → Fields N → Fields N
  scale key now ts = elim (lookup key ts >>= as_number >>= num.as_i64) [
    | none ↦ ts
    | some t ↦ insert key (number (num.of_i64 (maybe_to_ms now t))) ts
  ]

  -- The clock is read once for each timestamp.
  unfoldable pub translate_timestamps : ℤ → ℤ → Fields N → Fields N
  unfolding scale
  translate_timestamps now now' canonical = elim (lookup "timestamps" canonical >>= as_object) [
    | none ↦ canonical
    | some ts ↦ insert "timestamps" (object (scale "end" now' (scale "start" now ts))) canonical
  ]

  unfoldable pub flags : Fields N → ℕ
  flags canonical = if or_false (lookup "instance" canonical >>= as_bool) then 1 else 0

  base : String → Fields N → ℕ → Fields N
  base client_id metadata n = insert "flags" (number (num.of_u64 n)) (
      insert "metadata" (object metadata)
        (insert "type" (number (num.of_u64 0)) (insert "application_id" (string client_id) end)))

  put_labels : Option (Items N) → Fields N → Fields N
  put_labels none full = full
  put_labels (some labels) full = insert "buttons" (array labels) full

  -- the merged activity, from the canonical one before and after its timestamps are translated
  unfoldable pub full_activity : String → Option (Items N) × Fields N → Fields N → Fields N
  unfolding base put_labels flags
  full_activity client_id (labels, metadata) canonical =
      put_labels labels (extend (base client_id metadata (flags canonical)) canonical)

  unfoldable pub resp_data : String → Fields N → Fields N
  resp_data client_id canonical =
      insert "type" (number (num.of_u64 0))
        (insert "application_id" (string client_id) (insert "name" (string "") canonical))

  -- `raw_activity.as_object().cloned().unwrap_or_default()`
  abbrev pub object_or_empty : Value N → Fields N
  object_or_empty (object m) = m
  object_or_empty _ = end
