-- ===== src/Listen.antt =====
-- Where the transports listen: the first number of a range that can be taken.
use dirpc.Prelude.{
  ℕ, zero, suc, ◌+◌, ◌≤◌, ◌<◌, Bool, true, false, Option, none, some, List, [], ◌∷◌, if◌then◌else◌,
  ◌==◌, nat_eq, ==_iff, ◌≡◌, subst, arith, Bool-cases, inl, inr,
}

-- `for n in lo..lo + rounds`, that returns at the first `n` that can be taken.
unfoldable pub try_each : (ℕ → Bool) → ℕ → ℕ → Option ℕ
try_each ok zero lo = none
try_each ok (suc rounds) lo =
    let rest = try_each ok rounds (suc lo) in if ok lo then some lo else rest

-- What one `accept` yields.
pub data Accept : Type 0 where
  accepted : Accept
  accept_error : Accept

-- The tasks that an accept loop has started. It goes on after an error.
unfoldable pub accept_loop : List Accept → ℕ → ℕ
accept_loop [] tasks = tasks
accept_loop (accepted ∷ rest) tasks = accept_loop rest (suc tasks)
accept_loop (accept_error ∷ rest) tasks = accept_loop rest tasks

-- A server that has its number accepts on it; without one, `none`, it returns `AddrInUse`.
abbrev pub serve : List Accept → Option ℕ → Option (ℕ × ℕ)
serve accepts none = none
serve accepts (some n) = some (n, accept_loop accepts 0)

-- The least of the `rounds` numbers from `lo` on that is `ok`, or none where none is.
abbrev pub IsFirst : (ℕ → Bool) → ℕ → ℕ → Option ℕ → Type 0
IsFirst ok rounds lo none = (i : ℕ) → lo ≤ i → i < lo + rounds → ok i ≡ false
IsFirst ok rounds lo (some p) =
    (lo ≤ p) × (p < lo + rounds) × (ok p ≡ true) × ((i : ℕ) → lo ≤ i → i < p → ok i ≡ false)

at-or-above :
    (ok : ℕ → Bool) (lo i : ℕ) → ok lo ≡ false → lo ≤ i → (suc lo ≤ i → ok i ≡ false) → ok i ≡ false
at-or-above ok lo i busy h above = elim (Bool-cases (lo == i)) [
  | inl e ↦ subst (λ j. ok j ≡ false) ((==_iff lo i).0 e) busy
  | inr n ↦ above (ground arith)
]

pub IsFirst-here :
    (ok : ℕ → Bool) (rounds lo : ℕ) → ok lo ≡ true → IsFirst ok (suc rounds) lo (some lo)
IsFirst-here ok rounds lo h = (omega arith, omega arith, h, λ i low high. absurd (omega arith))

pub IsFirst-later :
    (ok : ℕ → Bool) (rounds lo : ℕ) (r : Option ℕ)
    → ok lo ≡ false
    → IsFirst ok rounds (suc lo) r
    → IsFirst ok (suc rounds) lo r
IsFirst-later ok rounds lo none h f =
    λ i low high. at-or-above ok lo i h low (λ above. f i above (omega arith))
IsFirst-later ok rounds lo (some p) h (a, b, c, f) =
    (omega arith, omega arith, c, λ i low high. at-or-above ok lo i h low (λ above. f i above high))

pub try_each-IsFirst :
    (ok : ℕ → Bool) (rounds lo : ℕ) → IsFirst ok rounds lo (try_each ok rounds lo)
unfolding try_each
try_each-IsFirst ok zero lo = λ i low high. absurd (omega arith)
try_each-IsFirst ok (suc rounds) lo = elim (Bool-cases (ok lo)) [
  | inl e ↦ rw e (IsFirst-here ok rounds lo e)
  | inr e ↦ rw e (IsFirst-later ok rounds lo _ e (try_each-IsFirst ok rounds (suc lo)))
]
