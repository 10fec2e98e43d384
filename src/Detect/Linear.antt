-- ===== src/Detect/Linear.antt =====
-- The search over a list of entries against the test of one archived entry.
use dirpc.Prelude.{
  Bool, Bytes, Option, none, some, List, [], ◌∷◌, not, if◌then◌else◌, ◌≡◌, refl, Bool-cases, inl,
  inr, arith,
}
use dirpc.Paths.{path_variants, path_filename}
use dirpc.Detect.{
  Executable, DetectableEntry, lacks_args, args_ok, match_executables, match_entries,
  match_archived, archived_match, match_process,
}

-- The first element that passes a test.
unfoldable pub first {ℓ} : {A : Type ℓ} → (A → Bool) → List A → Option A
first p [] = none
first p (x ∷ xs) = if p x then some x else first p xs

module _ (variants : List Bytes) (filename : Bytes) (args : List Bytes) where
  lacks_args-args_ok : (o : Option (List Bytes)) → lacks_args args o ≡ not (args_ok args o)
  lacks_args-args_ok none = refl
  lacks_args-args_ok (some required) = refl

  match_executables-match_archived :
      (entry : DetectableEntry) (exes : List Executable)
      → match_executables variants filename args entry exes
        ≡ (if match_archived variants filename args exes then some entry else none)
  unfolding match_executables match_archived
  match_executables-match_archived entry [] = refl
  match_executables-match_archived entry (exe ∷ exes) =
      ground (arith, lacks_args-args_ok exe.arguments, match_executables-match_archived entry exes)

  match_entries-first :
      (entries : List DetectableEntry)
      → match_entries variants filename args entries
        ≡ first (archived_match variants filename args) entries
  unfolding match_entries first
  match_entries-first [] = refl
  match_entries-first (e ∷ es) =
      elim (Bool-cases (match_archived variants filename args e.executables)) [
        | inl b ↦ rw (match_executables-match_archived e e.executables, b) refl
        | inr b ↦ rw (match_executables-match_archived e e.executables, b) (match_entries-first es)
      ]

-- The search finds the first entry that the test of an archived entry accepts.
pub match_process-first :
    (path : Bytes) (args : List Bytes) (entries : List DetectableEntry)
    → match_process path args entries
      ≡ first (archived_match (path_variants path) (path_filename path) args) entries
unfolding match_process
match_process-first path args entries =
    match_entries-first (path_variants path) (path_filename path) args entries
