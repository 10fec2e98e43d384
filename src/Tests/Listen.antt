-- ===== src/Tests/Listen.antt =====
-- Tests of the listeners and of the program's end.
use dirpc.Prelude.{ℕ, ◌≤◌, true, false, [], ◌∷◌, ltb, ◌≡◌, ◌↔◌, All, ◌==◌, nat_eq}
use dirpc.Listen.{accepted, IsFirst}
use dirpc.Ipc.Listen.{
  Paths, available, Silent, find_available_socket, find_available_socket-IsFirst,
}
use dirpc.Program.{Cli, main_returns, main_returns_iff}

-- Somebody answers at path 0, and path 1 cannot be bound.
abbrev paths : Paths
paths = record { answers = λ n. n == 0; bind_ok = λ n. ltb 1 n }

find_available_socket-IsFirst_example :
    IsFirst (available paths) 10 0 (find_available_socket paths).0
    × All (Silent paths) (find_available_socket paths).1
find_available_socket-IsFirst_example = find_available_socket-IsFirst paths

abbrev all_on : Cli
all_on = record { bridge_port = 1337; no_ipc = false; no_ws = false; no_scanner = false }

main_returns_iff_example :
    (main_returns (λ port. false) (accepted ∷ []) all_on ≡ true)
    ↔ ((all_on.no_ws ≡ false) × ((port : ℕ) → 6463 ≤ port → port ≤ 6472 → false ≡ false))
main_returns_iff_example = main_returns_iff (λ port. false) (accepted ∷ []) all_on
