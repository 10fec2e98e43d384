-- ===== src/Program.antt =====
-- `main` of src/main.rs: which tasks run, and when the process ends.
use dirpc.Prelude.{
  ℕ, ◌≤◌, Bool, true, false, not, Option, none, some, is_some, List, [], ◌∷◌, ◌++◌, if◌then◌else◌,
  ◌≡◌, ◌↔◌, refl, arith, Bool-cases, inl, inr,
}
use dirpc.Listen.{Accept, serve, try_each, IsFirst, try_each-IsFirst}
use dirpc.Websocket.Listen.{start_ws_server}

pub record Cli : Type 0 where
  pub bridge_port : ℕ
  pub no_ipc : Bool
  pub no_ws : Bool
  pub no_scanner : Bool

-- A task that runs beside `main`.
pub data Task : Type 0 where
  bridge : (port : ℕ) → Task
  process_scanner : Task
  ipc_server : Task

abbrev unless : Bool → Task → List Task
unless off task = if off then [] else task ∷ []

unfoldable pub tasks : Cli → List Task
tasks cli =
    bridge cli.bridge_port ∷ unless cli.no_scanner process_scanner ++ unless cli.no_ipc ipc_server

-- Whether `main` returns, which ends the process with all its tasks. `bind_ok` tells which port can be
-- bound for the WebSocket server.
unfoldable pub main_returns : (ℕ → Bool) → List Accept → Cli → Bool
main_returns bind_ok accepts cli =
    if not cli.no_ws then not (is_some (start_ws_server bind_ok accepts)) else false

started_iff :
    (bind_ok : ℕ → Bool) (accepts : List Accept) (o : Option ℕ)
    → IsFirst bind_ok 10 6463 o
    → (not (is_some (serve accepts o)) ≡ true)
      ↔ ((port : ℕ) → 6463 ≤ port → port ≤ 6472 → bind_ok port ≡ false)
started_iff bind_ok accepts none f = (λ _ port low high. f port low (omega arith), λ _. refl)
started_iff bind_ok accepts (some p) (low, high, ok, _) =
    (λ e. cc, λ h. let taken : bind_ok p ≡ false = h p low (omega arith) in absurd (ground arith))

-- The process ends, the bridge, the scanner and the IPC server with it, exactly if the WebSocket
-- transport is on and none of the ports 6463 to 6472 can be bound.
pub main_returns_iff :
    (bind_ok : ℕ → Bool) (accepts : List Accept) (cli : Cli)
    → (main_returns bind_ok accepts cli ≡ true)
      ↔ ((cli.no_ws ≡ false) × ((port : ℕ) → 6463 ≤ port → port ≤ 6472 → bind_ok port ≡ false))
unfolding main_returns start_ws_server
main_returns_iff bind_ok accepts cli = elim (Bool-cases cli.no_ws) [
  | inl e ↦ rw e (λ x. cc, λ (x, _). cc)
  | inr e ↦
      let (to, back) =
        started_iff bind_ok accepts (try_each bind_ok 10 6463) (try_each-IsFirst bind_ok 10 6463) in
      rw e (λ x. (refl, to x), λ (_, h). back h)
]
