-- ===== src/Ipc/Listen.antt =====
-- The listener of src/transports/ipc.rs: `ipc_path`, the probing of the socket paths, the accept
-- loops. Whether a path answers, can be bound or created is the system's.
use Prim.Native.String
use dirpc.Prelude.{
  ℕ, zero, suc, String, Bool, true, false, not, ◌&&◌, Option, none, some, List, [], ◌∷◌,
  if◌then◌else◌, ◌≡◌, refl, arith, Bool-cases, inl, inr, All,
}
use dirpc.Bridge.{decimal}
use dirpc.Listen.{Accept, serve, try_each, IsFirst, IsFirst-here, IsFirst-later}

abbrev or_else : Option String → Option String → Option String
or_else none o = o
or_else (some t) o = some t

abbrev unwrap_or : String → Option String → String
unwrap_or d none = d
unwrap_or d (some t) = t

-- The Unix variant; `env` is the environment.
unfoldable pub ipc_path : (String → Option String) → ℕ → String
ipc_path env n =
    let base = unwrap_or "/tmp" (
      or_else (or_else (or_else (env "XDG_RUNTIME_DIR") (env "TMPDIR")) (env "TMP"))
        (env "TEMP")) in
    String.◌++◌ base (String.◌++◌ "/discord-ipc-" (decimal n))

-- `answers n`: a connection to path `n` succeeds within the time. `bind_ok n`: binding it does, once
-- the file is removed.
pub record Paths : Type 0 where
  pub answers : ℕ → Bool
  pub bind_ok : ℕ → Bool

abbrev removing : ℕ → Option ℕ × List ℕ → Option ℕ × List ℕ
removing n (r, removed) = (r, n ∷ removed)

module _ (w : Paths) where
  -- The path that is bound, and those whose files are removed.
  probe_from : ℕ → ℕ → Option ℕ × List ℕ
  probe_from zero n = (none, [])
  probe_from (suc rounds) n =
      let rest = probe_from rounds (suc n) in
      if w.answers n then rest else if w.bind_ok n then (some n, n ∷ []) else removing n rest

  unfoldable pub find_available_socket : Option ℕ × List ℕ
  unfolding probe_from
  find_available_socket = probe_from 10 0

  -- A path that nobody answers at and that can be bound.
  abbrev pub available : ℕ → Bool
  available n = not (w.answers n) && w.bind_ok n

  abbrev pub Silent : ℕ → Type 0
  Silent n = w.answers n ≡ false

  probe_from-IsFirst : (rounds n : ℕ) → IsFirst available rounds n (probe_from rounds n).0
  unfolding probe_from
  probe_from-IsFirst zero n = λ i low high. absurd (omega arith)
  probe_from-IsFirst (suc rounds) n = elim (Bool-cases (w.answers n)) [
    | inl a ↦
        rw a (IsFirst-later available rounds n _ (rw a refl) (probe_from-IsFirst rounds (suc n)))
    | inr a ↦ elim (Bool-cases (w.bind_ok n)) [
      | inl b ↦ rw (a, b) (IsFirst-here available rounds n (rw (a, b) refl))
      | inr b ↦
          rw (a, b)
            (IsFirst-later available rounds n _ (rw (a, b) refl)
              (probe_from-IsFirst rounds (suc n)))
    ]
  ]

  probe_from-Silent : (rounds n : ℕ) → All Silent (probe_from rounds n).1
  unfolding probe_from
  probe_from-Silent zero n = tt
  probe_from-Silent (suc rounds) n = elim (Bool-cases (w.answers n)) [
    | inl a ↦ rw a (probe_from-Silent rounds (suc n))
    | inr a ↦ elim (Bool-cases (w.bind_ok n)) [
      | inl b ↦ rw (a, b) (a, tt)
      | inr b ↦ rw (a, b) (a, probe_from-Silent rounds (suc n))
    ]
  ]

  -- The server takes the first of the ten socket paths at which nobody answers and that can be bound,
  -- or none where there is no such path; it removes no file at which somebody answers.
  pub find_available_socket-IsFirst :
      IsFirst available 10 0 find_available_socket.0 × All Silent find_available_socket.1
  unfolding find_available_socket
  find_available_socket-IsFirst = (probe_from-IsFirst 10 0, probe_from-Silent 10 0)

-- The Windows variant: the first pipe that can be created.
unfoldable pub find_available_pipe : (ℕ → Bool) → Option ℕ
unfolding try_each
find_available_pipe create_ok = try_each create_ok 10 0

-- The path's number and the tasks started, or `none` for the error.
unfoldable pub start_ipc_server : Paths → List Accept → Option (ℕ × ℕ)
start_ipc_server w accepts = serve accepts (find_available_socket w).0

-- One round of the loop on pipes: whether the client connects, and whether the next instance can be
-- created. The result tells whether the loop has ended, and the tasks started.
unfoldable pub pipe_loop : List (Bool × Bool) → ℕ → Bool × ℕ
pipe_loop [] tasks = (false, tasks)
pipe_loop ((connects, creates) ∷ rest) tasks =
    let next = pipe_loop rest (suc tasks) in
    if connects then (if creates then next else (true, tasks)) else (true, tasks)
