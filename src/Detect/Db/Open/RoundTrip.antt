-- ===== src/Detect/Db/Open/RoundTrip.antt =====
-- A database that was filled is read back as it was.
use mathlib.Core.Path.{subst}
use dirpc.Prelude.{
  false, Bytes, bytes_key, none, some, List, [], ◌∷◌, ◌++◌, length, any, bytes_eq, ◌==◌, ==_refl,
  nat_eq, ◌≡◌, ◌≢◌, ◌∙◌, refl, sym, ap, All, All-append, Bool-cases, inl, inr,
}
use dirpc.Prelude.Assoc.{Assoc, get, insert}
use dirpc.Detect.{Executable, DetectableEntry}
use dirpc.Detect.Db.{
  DetectableDb, empty_db, Rkyv, or_empty, push_id, push_executables, exe_to_ids, ingest_entries,
  candidates, match_process,
}
use dirpc.Detect.Db.Ingest.{IsMap-exe_to_ids}
use dirpc.Detect.Db.Refines.{built, ingested}
use dirpc.Detect.Db.Open.{valid_file, row_names, read_rows, load_fst, open_with_fst}
use dirpc.Detect.Db.Open.Rows.{
  IsLine, IsIds, joined, write_exes-joined, row_names-joined, read_rows-joined,
}

abbrev HasIds : Assoc Bytes (List Bytes) → Type 0
HasIds m = All (λ p. IsIds p.1) m

HasIds-insert :
    (n : Bytes) (ids : List Bytes) (m : Assoc Bytes (List Bytes))
    → IsIds ids
    → HasIds m
    → HasIds (insert n ids m)
unfolding insert
HasIds-insert n ids [] ok h = (ok, tt)
HasIds-insert n ids ((k, v) ∷ m) ok (h, hs) = elim (Bool-cases (k == n)) [
  | inl e ↦ rw e (ok, hs)
  | inr e ↦ rw e (h, HasIds-insert n ids m ok hs)
]

lines_of : (n : Bytes) (m : Assoc Bytes (List Bytes)) → HasIds m → All IsLine (or_empty (get n m))
unfolding get
lines_of n [] h = tt
lines_of n ((k, v) ∷ m) (h, hs) = elim (Bool-cases (k == n)) [
  | inl e ↦ rw e (h.1)
  | inr e ↦ rw e (lines_of n m hs)
]

more_ids : (xs : List Bytes) (id : Bytes) → xs ++ id ∷ [] ≢ []
more_ids [] id e = cc e
more_ids (x ∷ xs) id e = cc e

HasIds-push_executables :
    (id : Bytes) (exes : List Executable) (m : Assoc Bytes (List Bytes))
    → IsLine id
    → HasIds m
    → HasIds (push_executables id exes m)
unfolding push_executables push_id
HasIds-push_executables id [] m l h = h
HasIds-push_executables id (exe ∷ exes) m l h =
    HasIds-push_executables id exes (push_id exe.name id m) l (
      HasIds-insert exe.name (or_empty (get exe.name m) ++ id ∷ []) m
        (
          more_ids (or_empty (get exe.name m)) id,
          All-append IsLine _ (id ∷ []) (lines_of exe.name m h) (l, tt),
        )
        h)

HasIds-exe_to_ids :
    (es : List DetectableEntry) (m : Assoc Bytes (List Bytes))
    → All (λ e. IsLine e.id) es
    → HasIds m
    → HasIds (exe_to_ids es m)
unfolding exe_to_ids
HasIds-exe_to_ids [] m l h = h
HasIds-exe_to_ids (e ∷ es) m (l, ls) h =
    HasIds-exe_to_ids es (push_executables e.id e.executables m) ls
      (HasIds-push_executables e.id e.executables m l h)

load_fst-same : (fst names : List Bytes) → fst ≡ names → load_fst (valid_file fst) names ≡ some fst
unfolding load_fst
load_fst-same fst names e = rw (ap length e, ==_refl (length names)) refl

module _ (es : List DetectableEntry) (apps : Assoc Bytes Bytes) where
  rows-built : (built es apps).exes ≡ joined (exe_to_ids es [])
  rows-built = write_exes-joined (exe_to_ids es []) (IsMap-exe_to_ids es [] tt)

  pub row_names-built : row_names (built es apps).exes ≡ (built es apps).fst
  row_names-built = ap row_names rows-built ∙ row_names-joined (exe_to_ids es [])

  pub read_rows-built :
      All (λ e. IsLine e.id) es → read_rows (built es apps).exes [] ≡ (built es apps).exe_index
  read_rows-built l =
      ap (λ t. read_rows t []) rows-built
      ∙ read_rows-joined (exe_to_ids es []) [] (HasIds-exe_to_ids es [] l tt)

  open_built :
      All (λ e. IsLine e.id) es
      → open_with_fst (valid_file (built es apps).fst) apps (some (built es apps).exes)
        ≡ some (built es apps)
  unfolding open_with_fst
  open_built l =
      rw
        (
          load_fst-same (built es apps).fst (row_names (built es apps).exes) (sym row_names-built),
          read_rows-built l,
        )
        refl

-- If no id holds a line break, then opening a database that was filled from nothing, with the FST
-- file that was written then, gives the same tables, FST and index.
pub open_with_fst-ingest_entries :
    (rkyv : Rkyv) (es : List DetectableEntry) (db : DetectableDb)
    → All (λ e. IsLine e.id) es
    → ingest_entries rkyv es empty_db ≡ some db
    → open_with_fst (valid_file db.fst) db.apps (some db.exes) ≡ some db
open_with_fst-ingest_entries rkyv es db l h =
    let (apps, _, same) = ingested es rkyv db h in
    subst (λ d. open_with_fst (valid_file d.fst) d.apps (some d.exes) ≡ some d) same
      (open_built es apps l)

-- A file with as many names as the table has rows is taken as it is, whatever the names: where none
-- of them is a candidate of the path, the opened database finds nothing, whatever its tables hold.
pub stale_fst :
    (rkyv : Rkyv) (path : Bytes) (args : List Bytes) (fst : List Bytes)
    (apps exes : Assoc Bytes Bytes)
    → length fst ≡ length (row_names exes)
    → any (λ name. any (λ key. bytes_eq key name) fst) (candidates path) ≡ false
    → (d : DetectableDb) × (open_with_fst (valid_file fst) apps (some exes) ≡ some d)
      × (match_process rkyv path args d ≡ none)
unfolding open_with_fst match_process load_fst
stale_fst rkyv path args fst apps exes e none_known = (
  record { apps = apps; exes = exes; fst = fst; exe_index = read_rows exes [] },
  rw (e, ==_refl (length (row_names exes))) refl,
  rw none_known refl,
)
