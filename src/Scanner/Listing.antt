-- ===== src/Scanner/Listing.antt =====
-- `get_process_list` of src/process/mod.rs: what of the system's processes is scanned. The system's
-- texts come lossily decoded, as bytes.
use dirpc.Prelude.{ℕ, Bytes, Option, none, some, List, [], ◌∷◌, drop, if◌then◌else◌}
use dirpc.Paths.{is_empty}
use dirpc.Scanner.{ProcessInfo}

-- A process of `sysinfo`.
pub record Process : Type 0 where
  pub pid : ℕ
  pub exe : Option Bytes
  pub cmd : List Bytes

-- Without a path a process is left out; the first word of its command line is no argument.
abbrev info : ℕ → List Bytes → Option Bytes → Option ProcessInfo
info pid cmd none = none
info pid cmd (some path) =
    if is_empty path then none else some (record { pid = pid; path = path; args = drop 1 cmd })

abbrev cons_some : Option ProcessInfo → List ProcessInfo → List ProcessInfo
cons_some none ps = ps
cons_some (some p) ps = p ∷ ps

unfoldable pub get_process_list : List Process → List ProcessInfo
get_process_list [] = []
get_process_list (p ∷ ps) = cons_some (info p.pid p.cmd p.exe) (get_process_list ps)

-- `spawn_blocking` that fails yields no processes.
abbrev listed : Option (List Process) → List ProcessInfo
listed none = []
listed (some ps) = get_process_list ps

unfoldable pub get_process_list_with_system : Option (List Process) → List ProcessInfo
get_process_list_with_system o = listed o
