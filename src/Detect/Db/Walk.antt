-- ===== src/Detect/Db/Walk.antt =====
-- What the loops of `match_process` find: the prefilter and the buffer of tried ids change nothing.
use dirpc.Prelude.{
  Bool, true, false, Bytes, bytes_key, Option, none, some, List, [], ◌∷◌, ◌++◌, any, bytes_eq,
  bytes_eq_iff, if◌then◌else◌, ◌≡◌, ◌∙◌, refl, sym, ap, All, All-append, Bool-cases, Option-cases,
  inl, inr,
}
use dirpc.Prelude.Assoc.{get}
use dirpc.Detect.{or_rest}
use dirpc.Detect.Db.{
  DetectableDb, Rkyv, or_empty, walk_ids, found_first, walk_names, candidates, contains, try_app,
  match_process,
}

-- The first id on which the attempt succeeds.
unfoldable pub first_of {ℓ} : {R : Type ℓ} → (Bytes → Option R) → List Bytes → Option R
first_of attempt [] = none
first_of attempt (i ∷ is) = or_rest (attempt i) (first_of attempt is)

-- The ids of all the names that the set holds, in order.
unfoldable pub all_ids : (Bytes → Bool) → (Bytes → Option (List Bytes)) → List Bytes → List Bytes
all_ids contains index [] = []
all_ids contains index (n ∷ ns) =
    (if contains n then or_empty (index n) else []) ++ all_ids contains index ns

module _ {R : Type 0} (attempt : Bytes → Option R) where
  first_of-append :
      (xs ys : List Bytes)
      → first_of attempt (xs ++ ys) ≡ or_rest (first_of attempt xs) (first_of attempt ys)
  unfolding first_of
  first_of-append [] ys = refl
  first_of-append (x ∷ xs) ys = elim (Option-cases (attempt x)) [
    | inl e ↦ rw e (first_of-append xs ys)
    | inr (r, e) ↦ rw e refl
  ]

  abbrev Failed : Bytes → Type 0
  Failed i = attempt i ≡ none

  seen-Failed :
      (i : Bytes) (seen : List Bytes)
      → All Failed seen
      → any (λ s. bytes_eq s i) seen ≡ true
      → attempt i ≡ none
  seen-Failed i [] h e = cc
  seen-Failed i (s ∷ seen) (f, h) e = elim (Bool-cases (bytes_eq s i)) [
    | inl same ↦ ap attempt (sym ((bytes_eq_iff s i).0 same)) ∙ f
    | inr other ↦ seen-Failed i seen h (rw other at e)
  ]

  -- the buffer only saves repeated attempts
  walk_ids_lem :
      (ids seen : List Bytes)
      → All Failed seen
      → ((walk_ids attempt ids seen).0 ≡ first_of attempt ids)
        × ((walk_ids attempt ids seen).0 ≡ none → All Failed (walk_ids attempt ids seen).1)
  unfolding walk_ids first_of
  walk_ids_lem [] seen h = (refl, λ _. h)
  walk_ids_lem (i ∷ ids) seen h = elim (Bool-cases (any (λ s. bytes_eq s i) seen)) [
    | inl e ↦ rw (e, seen-Failed i seen h e) (walk_ids_lem ids seen h)
    | inr e ↦ elim (Option-cases (attempt i)) [
      | inl f ↦
          rw (e, f) (walk_ids_lem ids (seen ++ i ∷ []) (All-append Failed seen (i ∷ []) h (f, tt)))
      | inr (r, f) ↦ rw (e, f) (refl, λ q. cc)
    ]
  ]

  found_first_lem :
      (go : List Bytes → Option R) (w : Option R × List Bytes) (more : Option R)
      → (w.0 ≡ none → All Failed w.1)
      → ((seen : List Bytes) → All Failed seen → go seen ≡ more)
      → found_first attempt go w ≡ or_rest w.0 more
  found_first_lem go (none, seen) more h rest = rest seen (h refl)
  found_first_lem go (some r, seen) more h rest = refl

  pub walk_names_lem :
      (c : Bytes → Bool) (index : Bytes → Option (List Bytes)) (names seen : List Bytes)
      → All Failed seen
      → walk_names attempt c index names seen ≡ first_of attempt (all_ids c index names)
  unfolding walk_names all_ids first_of
  walk_names_lem c index [] seen h = refl
  walk_names_lem c index (n ∷ ns) seen h = elim (Bool-cases (c n)) [
    | inl e ↦ elim (Option-cases (index n)) [
      | inl f ↦ rw (e, f) (walk_names_lem c index ns seen h)
      | inr (ids, f) ↦
          let (found, failed) = walk_ids_lem ids seen h in
          rw (e, f, first_of-append ids (all_ids c index ns), ← found)
            (found_first_lem (walk_names attempt c index ns) (walk_ids attempt ids seen)
              (first_of attempt (all_ids c index ns)) failed (walk_names_lem c index ns))
    ]
    | inr e ↦ rw e (walk_names_lem c index ns seen h)
  ]

pub first_of-ext :
    {R : Type 0} (f g : Bytes → Option R) (is : List Bytes)
    → ((i : Bytes) → f i ≡ g i)
    → first_of f is ≡ first_of g is
unfolding first_of
first_of-ext f g [] h = refl
first_of-ext f g (i ∷ is) h = rw (h i, first_of-ext f g is h) refl

pub all_ids-none :
    (c : Bytes → Bool) (index : Bytes → Option (List Bytes)) (names : List Bytes)
    → any c names ≡ false
    → all_ids c index names ≡ []
unfolding all_ids
all_ids-none c index [] e = refl
all_ids-none c index (n ∷ ns) e = elim (Bool-cases (c n)) [
  | inl f ↦ cc
  | inr f ↦ rw f (all_ids-none c index ns (rw f at e))
]

module _ (rkyv : Rkyv) (path : Bytes) (args : List Bytes) (db : DetectableDb) where
  -- The lookup in the database finds what trying all indexed ids of all candidate names in order
  -- finds: neither the test before the loops nor the buffer of tried ids changes the result.
  pub match_process-first_of :
      match_process rkyv path args db
      ≡ first_of
          (try_app rkyv path args db)
          (all_ids (contains db) (λ name. get name db.exe_index) (candidates path))
  unfolding match_process
  match_process-first_of = elim (Bool-cases (any (contains db) (candidates path))) [
    | inl e ↦ rw e (
        walk_names_lem (try_app rkyv path args db) (contains db) (λ name. get name db.exe_index)
          (candidates path) [] tt)
    | inr e ↦
        rw (e, all_ids-none (contains db) (λ name. get name db.exe_index) (candidates path) e)
          (unfold first_of in refl)
  ]
