-- ===== src/Detect/Db/Agrees.antt =====
-- The lookup in the database against the search over the entries that it was filled with.
use mathlib.Core.Path.{subst}
use dirpc.Prelude.{
  ℕ, Bool, true, Bytes, bytes_key, bytes_eq, bytes_eq_iff, none, some, is_some, List, [], ◌∷◌,
  if◌then◌else◌, ◌==◌, ==_refl, ◌≡◌, ◌≢◌, ◌∙◌, refl, sym, ap, arith, Bool-cases, Option-cases, inl,
  inr, nat_eq,
}
use dirpc.Paths.{path_variants, path_filename, is_empty}
use dirpc.Paths.Contents.{any-append}
use dirpc.Detect.{
  Executable, DetectableEntry, name_matched, args_ok, match_archived, archived_match, match_process,
}
use dirpc.Detect.Linear.{first, match_process-first}
use dirpc.Detect.Db
use dirpc.Detect.Db.{DetectableDb, empty_db, Rkyv, ingest_entries, candidates}
use dirpc.Detect.Db.Walk.{first_of}
use dirpc.Detect.Db.Ingest.{declared, ids_of, last_with}
use dirpc.Detect.Db.Refines.{declared_ids, accepts, attempt, match_process-ingest_entries}
use dirpc.Detect.Db.Search.{has, first_of-has, first_of-some, last_with-id, last_with-first}

-- No two entries have the same id.
abbrev pub IsDistinct : List DetectableEntry → Type 0
IsDistinct [] = Unit
IsDistinct (e ∷ es) = (last_with e.id es ≡ none) × IsDistinct es

exact_has :
    (filename : Bytes) (c : ℕ) (rest : Bytes)
    → filename ≢ []
    → (c == b'>') ≡ true
    → bytes_eq rest filename ≡ true
    → has (c ∷ rest) (if is_empty filename then [] else (b'>' ∷ filename) ∷ []) ≡ true
exact_has [] c rest named e h = absurd (named refl)
exact_has (x ∷ xs) c rest named e h =
    ground (arith, bytes_eq_iff rest (x ∷ xs), bytes_eq_iff (b'>' ∷ x ∷ xs) (c ∷ rest))

module _ (path : Bytes) (args : List Bytes) (named : path_filename path ≢ []) where
  -- a matching name is a candidate
  name_matched-candidates :
      (name : Bytes)
      → name_matched (path_variants path) (path_filename path) name ≡ true
      → has name (candidates path) ≡ true
  unfolding candidates
  name_matched-candidates [] h = rw (any-append (λ j. bytes_eq j []) (path_variants path) _, h) refl
  name_matched-candidates (c ∷ rest) h = elim (Bool-cases (c == b'>')) [
    | inl e ↦
        rw (any-append (λ j. bytes_eq j (c ∷ rest)) (path_variants path) _)
          (rw (exact_has (path_filename path) c rest named e (rw e at h)) (ground arith))
    | inr e ↦ rw (any-append (λ j. bytes_eq j (c ∷ rest)) (path_variants path) _, rw e at h) refl
  ]

  declared_ids-has :
      (n i : Bytes) (ns : List Bytes) (es : List DetectableEntry)
      → has n ns ≡ true
      → has i (ids_of n es) ≡ true
      → has i (declared_ids ns es) ≡ true
  unfolding declared_ids
  declared_ids-has n i [] es h t = cc
  declared_ids-has n i (m ∷ ns) es h t = elim (Bool-cases (bytes_eq m n)) [
    | inl s ↦
        let q : has i (ids_of m es) ≡ true =
          ap (λ x. has i (ids_of x es)) ((bytes_eq_iff m n).0 s) ∙ t in
        rw (any-append (λ j. bytes_eq j i) (ids_of m es) _, q) refl
    | inr s ↦
        rw
          (any-append (λ j. bytes_eq j i) (ids_of m es) _, declared_ids-has n i ns es (rw s at h) t)
          (ground arith)
  ]

  further :
      (id : Bytes) (exe : Executable) (exes : List Executable)
      → ((n : Bytes) × (has n (candidates path) ≡ true) × (has id (declared n id exes) ≡ true))
      → (n : Bytes) × (has n (candidates path) ≡ true)
        × (has id (declared n id (exe ∷ exes)) ≡ true)
  unfolding declared
  further id exe exes (n, c, d) = (
    n,
    c,
    rw (any-append (λ j. bytes_eq j id) (if exe.name == n then id ∷ [] else []) _, d)
        (ground arith),
  )

  -- an accepted entry declares its id for a candidate
  accepted-declared :
      (id : Bytes) (exes : List Executable)
      → match_archived (path_variants path) (path_filename path) args exes ≡ true
      → (n : Bytes) × (has n (candidates path) ≡ true) × (has id (declared n id exes) ≡ true)
  unfolding match_archived declared
  accepted-declared id [] h = cc
  accepted-declared id (exe ∷ exes) h =
      elim (Bool-cases (name_matched (path_variants path) (path_filename path) exe.name)) [
        | inl m ↦ elim (Bool-cases (args_ok args exe.arguments)) [
          | inl a ↦ (
            exe.name,
            name_matched-candidates exe.name m,
            rw (==_refl exe.name) (rw (==_refl id) refl),
          )
          | inr a ↦ further id exe exes (accepted-declared id exes (rw (m, a) at h))
        ]
        | inr m ↦ further id exe exes (accepted-declared id exes (rw m at h))
      ]

abbrev Listed : DetectableEntry → List DetectableEntry → Type 0
Listed e es =
    (last_with e.id es ≡ some e)
    × ((n i : Bytes) → has i (declared n e.id e.executables) ≡ true → has i (ids_of n es) ≡ true)

-- the entry that a search finds is the one that its id names, and its ids are indexed
first-Listed :
    (p : DetectableEntry → Bool) (es : List DetectableEntry) (e : DetectableEntry)
    → IsDistinct es
    → first p es ≡ some e
    → (p e ≡ true) × Listed e es
unfolding first last_with ids_of
first-Listed p [] e w h = cc
first-Listed p (d ∷ es) e (fresh, w) h = elim (Bool-cases (p d)) [
  | inl u ↦
      let same : d ≡ e = cc (rw u at h) in
      subst (λ x. (p x ≡ true) × Listed x (d ∷ es)) same
        (
          u,
          (
            rw (fresh, ==_refl d.id) refl,
            λ n i t. rw (any-append (λ j. bytes_eq j i) (declared n d.id d.executables) _, t) refl,
          ),
        )
  | inr u ↦
      let (t, (named, indexed)) = first-Listed p es e w (rw u at h) in
      (
        t,
        (
          rw named refl,
          λ n i q.
              rw (any-append (λ j. bytes_eq j i) (declared n d.id d.executables) _, indexed n i q)
                (ground arith),
        ),
      )
]

attempt-some :
    (es : List DetectableEntry) (path : Bytes) (args : List Bytes) (i : Bytes) (r : Bytes × Bytes)
    → attempt es path args i ≡ some r
    → (e : DetectableEntry) × (last_with i es ≡ some e)
      × (accepts es path args e ≡ true)
      × (r ≡ (e.id, e.name))
attempt-some es path args i r h = elim (Option-cases (last_with i es)) [
  | inl q ↦ cc (rw q at h)
  | inr (e, q) ↦ elim (Bool-cases (accepts es path args e)) [
    | inl t ↦ (e, q, t, cc (rw (q, t) at h))
    | inr t ↦ cc (rw (q, t) at h)
  ]
]

module _ (rkyv : Rkyv) (es : List DetectableEntry) (db : DetectableDb) (path : Bytes)
    (args : List Bytes) (filled : ingest_entries rkyv es empty_db ≡ some db) where
  -- What a lookup in a freshly filled database yields is the id and the name of the last entry with
  -- that id, and the search's test accepts that entry.
  match_process_sound :
      (id name : Bytes)
      → Db.match_process rkyv path args db ≡ some (id, name)
      → (e : DetectableEntry) × (last_with id es ≡ some e)
        × (archived_match (path_variants path) (path_filename path) args e ≡ true)
        × (e.id ≡ id)
        × (e.name ≡ name)
  match_process_sound id name h =
      let (i, t) =
        first_of-some (attempt es path args) _ (id, name)
          (sym (match_process-ingest_entries es path args rkyv db filled) ∙ h) in
      let (e, q, a, r) = attempt-some es path args i (id, name) t in
      (
        e,
        ap (λ x. last_with x es) (ap (λ x. x.0) r ∙ last_with-id i es e q) ∙ q,
        a,
        sym (ap (λ x. x.0) r),
        sym (ap (λ x. x.1) r),
      )

  -- Where no two entries share an id and the path has a file name, a lookup in a freshly filled
  -- database finds a match exactly if the search over the entries does.
  pub match_process_agrees :
      IsDistinct es
      → path_filename path ≢ []
      → is_some (Db.match_process rkyv path args db) ≡ is_some (match_process path args es)
  match_process_agrees distinct named =
      rw
        (match_process-ingest_entries es path args rkyv db filled, match_process-first path args es)
        (elim (Option-cases (first (accepts es path args) es)) [
          | inl none_first ↦
              elim (Option-cases
                (first_of (attempt es path args) (declared_ids (candidates path) es))) [
                  | inl e ↦ rw (e, none_first) refl
                  | inr (r, e) ↦
                      let (i, t) = first_of-some (attempt es path args) _ r e in
                      let (x, q, a, _) = attempt-some es path args i r t in
                      cc (last_with-first (accepts es path args) i es x q a)
                ]
          | inr (x, e) ↦
              let (a, (q, indexed)) = first-Listed (accepts es path args) es x distinct e in
              let (n, c, d) = accepted-declared path args named x.id x.executables a in
              let found : is_some (attempt es path args x.id) ≡ true = rw (q, a) refl in
              rw
                (
                  e,
                  first_of-has (attempt es path args) x.id (declared_ids (candidates path) es)
                      (declared_ids-has path args named n x.id (candidates path) es c
                        (indexed n x.id d))
                      found,
                )
                refl
        ])
