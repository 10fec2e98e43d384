-- ===== src/Detect.antt =====
-- Matching of a process against the detectable applications, src/process/detectable.rs:
-- `match_process` over a list of entries, and `archived_match` for one entry of the database. Names
-- and ids are their bytes.
pub mod Db
pub mod Files
pub mod Payload
pub mod Fetch
pub mod Samples
pub mod Linear
use dirpc.Prelude.{
  ℕ, Bool, true, false, Bytes, Option, none, some, List, [], ◌∷◌, any, all, not, bytes_eq,
  if◌then◌else◌, ◌≡◌, refl, ◌==◌, nat_eq,
}
use dirpc.Paths.{path_variants, path_filename}

pub record Executable : Type 0 where
  pub name : Bytes
  pub is_launcher : Bool
  pub arguments : Option (List Bytes)
  pub os : Option Bytes

pub record DetectableEntry : Type 0 where
  pub id : Bytes
  pub name : Bytes
  pub executables : List Executable

-- A name behind '>' is the exact file name; any other is one of the variants.
abbrev pub name_matched : List Bytes → Bytes → Bytes → Bool
name_matched variants filename [] = any (λ v. bytes_eq v []) variants
name_matched variants filename (c ∷ rest) =
    if c == b'>' then bytes_eq rest filename else any (λ v. bytes_eq v (c ∷ rest)) variants

-- Each required argument is given.
abbrev pub all_given : List Bytes → List Bytes → Bool
all_given args required = all (λ ra. any (λ a. bytes_eq a ra) args) required

-- `Option::is_some_and` of the arguments' test
abbrev lacks_args : List Bytes → Option (List Bytes) → Bool
lacks_args args none = false
lacks_args args (some required) = not (all_given args required)

abbrev args_ok : List Bytes → Option (List Bytes) → Bool
args_ok args none = true
args_ok args (some required) = all_given args required

abbrev pub or_rest {ℓ} : {A : Type ℓ} → Option A → Option A → Option A
or_rest none rest = rest
or_rest (some a) rest = some a

pub or_rest_assoc {ℓ} :
    {A : Type ℓ} (x y z : Option A) → or_rest x (or_rest y z) ≡ or_rest (or_rest x y) z
or_rest_assoc none y z = refl
or_rest_assoc (some a) y z = refl

module _ (variants : List Bytes) (filename : Bytes) (args : List Bytes) where
  match_executables : DetectableEntry → List Executable → Option DetectableEntry
  match_executables entry [] = none
  match_executables entry (exe ∷ exes) =
      let rest = match_executables entry exes in
      if not (name_matched variants filename exe.name)
      then rest
      else if lacks_args args exe.arguments
      then rest
      else some entry

  match_entries : List DetectableEntry → Option DetectableEntry
  unfolding match_executables
  match_entries [] = none
  match_entries (entry ∷ entries) =
      let rest = match_entries entries in or_rest (match_executables entry entry.executables) rest

  unfoldable pub match_archived : List Executable → Bool
  match_archived [] = false
  match_archived (exe ∷ exes) =
      let rest = match_archived exes in
      if not (name_matched variants filename exe.name)
      then rest
      else if args_ok args exe.arguments
      then true
      else rest

  abbrev pub archived_match : DetectableEntry → Bool
  archived_match archived = match_archived archived.executables

unfoldable pub match_process : Bytes → List Bytes → List DetectableEntry → Option DetectableEntry
unfolding match_entries
match_process path args entries =
    match_entries (path_variants path) (path_filename path) args entries
