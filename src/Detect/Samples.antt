-- ===== src/Detect/Samples.antt =====
-- `sample_entries` of src/lib.rs.
use dirpc.Prelude.{false, Bytes, none, codes, List, [], ◌∷◌}
use dirpc.Detect.{Executable, DetectableEntry}

abbrev plain : Bytes → Executable
plain name = record { name = name; is_launcher = false; arguments = none; os = none }

abbrev pub sample_entries : List DetectableEntry
sample_entries =
    record {
      id = codes "359550717720469504";
      name = codes "Counter-Strike: Global Offensive";
      executables = plain (codes "csgo") ∷ [];
    }
    ∷ record {
      id = codes "356869127241924608";
      name = codes "Overwatch";
      executables = plain (codes "overwatch.exe") ∷ [];
    }
    ∷ record {
      id = codes "1073232715901124688";
      name = codes "Counter-Strike 2";
      executables = plain (codes "cs2") ∷ [];
    }
    ∷ []
