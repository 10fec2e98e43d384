-- ===== src/Detect/Payload/Found.antt =====
-- Where `parse_entries_from_value` finds entries: in an array that it reaches through objects.
use dirpc.Prelude.{
  String, true, false, Option, none, some, List, [], ◌∷◌, ◌==◌, string_eq, ◌≡◌, ◌≢◌, ◌⊎◌, refl, ap,
  subst, arith, Bool-cases, inl, inr,
}
use dirpc.Prelude.Assoc.{get}
use dirpc.Json.{Value, Items, Fields, null, bool, number, string, array, object, end, field, is_nil}
use dirpc.Detect.{DetectableEntry}
use dirpc.Detect.Payload.{
  Entries, first_some, flat, Results, values, pick, entries_of, nonempty, parse_entries_from_array,
  parse_entries_from_value, results_of,
}

-- Some field of the object has the value.
abbrev pub HasValue : {N : Type 0} → Value N → Fields N → Type 0
HasValue v end = ⊥
HasValue v (field k w m) = (w ≡ v) ⊎ HasValue v m

-- Some result is these entries.
abbrev Yielded : Entries → Results → Type 0
Yielded es [] = ⊥
Yielded es ((k, r) ∷ rest) = (r ≡ some es) ⊎ Yielded es rest

get-Yielded : (k : String) (es : Entries) (rs : Results) → flat (get k rs) ≡ some es → Yielded es rs
unfolding get
get-Yielded k es [] h = absurd (ground arith)
get-Yielded k es ((j, r) ∷ rs) h = elim (Bool-cases (j == k)) [
  | inl e ↦ inl (here e h)
  | inr e ↦ inr (get-Yielded k es rs (there e h))
]
  where
    here : (j == k) ≡ true → flat (get k ((j, r) ∷ rs)) ≡ some es → r ≡ some es
    here e h = ground arith

    there : (j == k) ≡ false → flat (get k ((j, r) ∷ rs)) ≡ some es → flat (get k rs) ≡ some es
    there e h = ground arith

values-Yielded : (es : Entries) (rs : Results) → first_some (values rs) ≡ some es → Yielded es rs
values-Yielded es [] h = absurd (ground arith)
values-Yielded es ((k, none) ∷ rs) h = inr (values-Yielded es rs h)
values-Yielded es ((k, some x) ∷ rs) h = inl h

first_some-cons :
    {A : Type 0} (o : Option A) (rest : List (Option A)) (a : A)
    → first_some (o ∷ rest) ≡ some a
    → (o ≡ some a) ⊎ (first_some rest ≡ some a)
first_some-cons none rest a h = inr h
first_some-cons (some x) rest a h = inl h

pick-Yielded : (es : Entries) (rs : Results) → pick rs ≡ some es → Yielded es rs
unfolding pick
pick-Yielded es rs h = elim (first_some-cons _ _ es h) [
  | inl e ↦ get-Yielded "applications" es rs e
  | inr h2 ↦ elim (first_some-cons _ _ es h2) [
    | inl e ↦ get-Yielded "data" es rs e
    | inr h3 ↦ elim (first_some-cons _ _ es h3) [
      | inl e ↦ get-Yielded "results" es rs e
      | inr h4 ↦ values-Yielded es rs h4
    ]
  ]
]

-- Some list of entries is found.
abbrev pub Succeeds : Option Entries → Type 0
Succeeds o = (es : Entries) × (o ≡ some es)

first_some-later :
    (o : Option Entries) (rest : List (Option Entries))
    → Succeeds (first_some rest)
    → Succeeds (first_some (o ∷ rest))
first_some-later none rest h = h
first_some-later (some es) rest h = (es, refl)

values-Succeeds : (es : Entries) (rs : Results) → Yielded es rs → Succeeds (first_some (values rs))
values-Succeeds es [] h = absurd h
values-Succeeds es ((k, r) ∷ rs) (inl e) = (es, ap (λ o. first_some (o ∷ values rs)) e)
values-Succeeds es ((k, r) ∷ rs) (inr h) = first_some-later r (values rs) (values-Succeeds es rs h)

pick-Succeeds : (es : Entries) (rs : Results) → Yielded es rs → Succeeds (pick rs)
unfolding pick
pick-Succeeds es rs h =
    let r = flat (get "results" rs) in
    let d = flat (get "data" rs) in
    first_some-later (flat (get "applications" rs)) (d ∷ r ∷ values rs) (
      first_some-later d (r ∷ values rs) (first_some-later r (values rs) (values-Succeeds es rs h)))

module _ {N : Type 0} (deserialize : Value N → Option DetectableEntry) where
  -- An array of no items, or of some item that is an entry; its entries are those items, in order.
  abbrev pub IsAcceptable : Items N → Type 0
  IsAcceptable xs = (is_nil xs ≡ true) ⊎ (entries_of deserialize xs ≢ [])

  pub data FindsIn : Value N → Entries → Type 0 where
    in_array : (xs : Items N) → IsAcceptable xs → FindsIn (array xs) (entries_of deserialize xs)
    in_object :
        (m : Fields N) (v : Value N) (es : Entries)
        → HasValue v m
        → FindsIn v es
        → FindsIn (object m) es

  nonempty-some : (l es : Entries) → nonempty deserialize l ≡ some es → (l ≡ es) × (l ≢ [])
  nonempty-some [] es h = absurd (ground arith)
  nonempty-some (e ∷ l) es h = (cc, λ q. cc)

  nonempty-Succeeds : (l : Entries) → l ≢ [] → Succeeds (nonempty deserialize l)
  nonempty-Succeeds [] h = absurd (h refl)
  nonempty-Succeeds (e ∷ l) h = (e ∷ l, refl)

  array_sound :
      (xs : Items N) (es : Entries)
      → parse_entries_from_array deserialize xs ≡ some es
      → FindsIn (array xs) es
  unfolding parse_entries_from_array
  array_sound xs es h = elim (Bool-cases (is_nil xs)) [
    | inl e ↦
        let q : entries_of deserialize xs ≡ es = ground arith in
        subst (λ l. FindsIn (array xs) l) q (in_array xs (inl e))
    | inr e ↦
        let k : nonempty deserialize (entries_of deserialize xs) ≡ some es = ground arith in
        let (q, some_entry) = nonempty-some (entries_of deserialize xs) es k in
        subst (λ l. FindsIn (array xs) l) q (in_array xs (inr some_entry))
  ]

  array-Succeeds :
      (xs : Items N) → IsAcceptable xs → Succeeds (parse_entries_from_array deserialize xs)
  unfolding parse_entries_from_array
  array-Succeeds xs h = elim (Bool-cases (is_nil xs)) [
    | inl e ↦ rw e (entries_of deserialize xs, refl)
    | inr e ↦ elim h [
      | inl y ↦ absurd (ground arith)
      | inr some_entry ↦ rw e (nonempty-Succeeds (entries_of deserialize xs) some_entry)
    ]
  ]

  mutual
    unfolding parse_entries_from_value

    sound :
        (v : Value N) (es : Entries)
        → parse_entries_from_value deserialize v ≡ some es
        → FindsIn v es
    sound (array xs) es h = array_sound xs es h
    sound (object m) es h =
        let (v, has, finds) = sound_fields m es (pick-Yielded es (results_of deserialize m) h) in
        in_object m v es has finds
    sound null es h = absurd (ground arith)
    sound (bool _) es h = absurd (ground arith)
    sound (number _) es h = absurd (ground arith)
    sound (string _) es h = absurd (ground arith)

    sound_fields :
        (m : Fields N) (es : Entries)
        → Yielded es (results_of deserialize m)
        → (v : Value N) × HasValue v m × FindsIn v es
    sound_fields end es h = absurd h
    sound_fields (field k v m) es (inl e) = (v, inl refl, sound v es e)
    sound_fields (field k v m) es (inr h) =
        let (w, has, finds) = sound_fields m es h in (w, inr has, finds)

  results-Yielded :
      (v : Value N) (m : Fields N) (es : Entries)
      → HasValue v m
      → parse_entries_from_value deserialize v ≡ some es
      → Yielded es (results_of deserialize m)
  unfolding parse_entries_from_value
  results-Yielded v end es h e = absurd h
  results-Yielded v (field k w m) es (inl q) e = inl (rw q e)
  results-Yielded v (field k w m) es (inr h) e = inr (results-Yielded v m es h e)

  found :
      (v : Value N) (es : Entries)
      → FindsIn v es
      → Succeeds (parse_entries_from_value deserialize v)
  unfolding parse_entries_from_value
  found _ _ (in_array xs h) = array-Succeeds xs h
  found _ _ (in_object m v es has f) =
      let (es', e) = found v es f in
      pick-Succeeds es' (results_of deserialize m) (results-Yielded v m es' has e)

  -- `parse_entries_from_value` yields the entries of an acceptable array, one that is empty or has an
  -- item that is an entry, that it reaches through objects; and it yields some entries whenever the
  -- value has such an array in any nesting of objects.
  pub parse_entries_from_value_lem :
      (v : Value N)
      → ((es : Entries) → parse_entries_from_value deserialize v ≡ some es → FindsIn v es)
        × ((es : Entries) → FindsIn v es → Succeeds (parse_entries_from_value deserialize v))
  parse_entries_from_value_lem v = (sound v, found v)
