-- ===== src/Detect/Db/Writing/Recovery.antt =====
-- A write of the FST file that stops half-way, and the `load_fst_from_db` of the next start.
use dirpc.Prelude.{
  Bool, true, false, Bytes, some, List, [], ◌∷◌, length, ◌==◌, nat_eq, ==_iff, ==_refl, ◌≡◌, ◌≢◌,
  ◌∙◌, refl, ap, All, Bool-cases, inl, inr,
}
use dirpc.Detect.Db.Open.{FstFile, absent_file, corrupt_file, valid_file, load_fst}
use dirpc.Detect.Db.Writing.{Steps, Disk, Atomic, write_fst_file, write_fst_file-Atomic}

-- A file that does not pass for an FST of these names: as many other names.
abbrev pub IsHonest : List Bytes → FstFile → Type 0
IsHonest names absent_file = Unit
IsHonest names corrupt_file = Unit
IsHonest names (valid_file fst) = length fst ≡ length names → fst ≡ names

load_fst-valid : (names : List Bytes) → load_fst (valid_file names) names ≡ some names
unfolding load_fst
load_fst-valid names = rw (==_refl (length names)) refl

load_fst-IsHonest :
    (file : FstFile) (names : List Bytes)
    → names ≢ []
    → IsHonest names file
    → load_fst file names ≡ some names
unfolding load_fst
load_fst-IsHonest file [] some_names h = absurd (some_names refl)
load_fst-IsHonest absent_file (n ∷ ns) some_names h = refl
load_fst-IsHonest corrupt_file (n ∷ ns) some_names h = refl
load_fst-IsHonest (valid_file fst) (n ∷ ns) some_names h =
    elim (Bool-cases (length fst == length (n ∷ ns))) [
      | inl e ↦ rw e (ap some (h ((==_iff (length fst) (length (n ∷ ns))).0 e)))
      | inr e ↦ rw e refl
    ]

-- The next start finds the index of the names.
abbrev pub Recovers : List Bytes → Disk → Type 0
Recovers names s = load_fst s.target names ≡ some names

from-target :
    (names : List Bytes) (s : Disk) (file : FstFile)
    → s.target ≡ file
    → load_fst file names ≡ some names
    → Recovers names s
from-target names s file e h = ap (λ f. load_fst f names) e ∙ h

all-old :
    (names : List Bytes) (old : FstFile) (states : List Disk)
    → load_fst old names ≡ some names
    → All (λ s. s.target ≡ old) states
    → All (Recovers names) states
all-old names old [] h a = tt
all-old names old (s ∷ states) h (e, a) =
    (from-target names s old e h, all-old names old states h a)

all-Recovers :
    (names : List Bytes) (old : FstFile) (r : Bool × List Disk)
    → load_fst old names ≡ some names
    → Atomic old names r
    → All (Recovers names) r.1
all-Recovers names old (false, states) h a = all-old names old states h a
all-Recovers names old (true, []) h a = absurd a
all-Recovers names old (true, s ∷ []) h a =
    (from-target names s (valid_file names) a (load_fst-valid names), tt)
all-Recovers names old (true, s ∷ t ∷ rest) h (e, a) =
    (from-target names s old e h, all-Recovers names old (true, t ∷ rest) h a)

-- Wherever the write of the FST file for the names of the executables table stops, the next start
-- finds exactly these names in its index, from the file or rebuilt from the table, if there are names
-- and the old file was not an FST of as many other names.
pub write_fst_file-Recovers :
    (steps : Steps) (names : List Bytes) (d : Disk)
    → names ≢ []
    → IsHonest names d.target
    → All (Recovers names) (write_fst_file steps names d).1
write_fst_file-Recovers steps names d some_names honest =
    all-Recovers names d.target (write_fst_file steps names d)
      (load_fst-IsHonest d.target names some_names honest) (write_fst_file-Atomic steps names d)
