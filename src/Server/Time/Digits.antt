-- ===== src/Server/Time/Digits.antt =====
-- `digit_count` counts decimal digits.
use native.Mathlib.Decide.{dec_le}
use native.Mathlib.Nat.{pow-suc, one-le-pow, pow-le-pow_right}
use dirpc.Prelude.{
  ℕ, zero, suc, ◌+◌, ◌*◌, ◌/◌, ◌^◌, ◌≤◌, ◌<◌, ◌≡◌, arith, ltb, ◌==◌, nat_eq, false, ◌↔◌, Bool-cases,
  inl, inr,
}
use dirpc.Server.Time.{ilog10_loop, digit_count}

-- With fuel for its digits, the loop finds the power of ten below a number.
ilog10_loop_lem :
    (fuel n : ℕ)
    → 0 < n
    → n < 10 ^ fuel
    → (10 ^ ilog10_loop fuel n ≤ n) × (n < 10 * 10 ^ ilog10_loop fuel n)
unfolding ilog10_loop
ilog10_loop_lem zero n p h = absurd (omega arith)
ilog10_loop_lem (suc fuel) n p h = elim (Bool-cases (ltb n 10)) [
  | inl s ↦ rw s (ground arith)
  | inr s ↦
      let below : n / 10 < 10 ^ fuel = omega (arith, pow-suc 10 fuel) in
      let (lo, hi) = ilog10_loop_lem fuel (n / 10) (ground arith) below in
      rw s (omega (arith, pow-suc 10 (ilog10_loop fuel (n / 10))))
]

-- A positive u64 of `d` digits lies from 10 ^ (d - 1) up to 10 ^ d.
digit_count_bounds :
    (n : ℕ) → 0 < n → n < 2 ^ 64 → (10 ^ digit_count n ≤ 10 * n) × (n < 10 ^ digit_count n)
unfolding digit_count
digit_count_bounds n p h =
    let z : (n == 0) ≡ false = ground arith in
    let (lo, hi) = ilog10_loop_lem 20 n p (omega arith) in
    let s : ilog10_loop 20 n + 1 ≡ suc (ilog10_loop 20 n) = omega arith in
    rw (z, s) (omega (arith, pow-suc 10 (ilog10_loop 20 n)))

-- A u64 has at most `k` digits exactly if it is below 10 ^ k.
pub digit_count-le_iff : (n k : ℕ) → n < 2 ^ 64 → 0 < k → (digit_count n ≤ k) ↔ (n < 10 ^ k)
digit_count-le_iff zero k h p = (λ _. one-le-pow k 10 (omega arith), λ _. unfold digit_count in p)
digit_count-le_iff (suc m) k h p =
    let (lo, hi) = digit_count_bounds (suc m) (omega arith) h in
    (
      λ d. omega (arith, pow-le-pow_right {n = 10} (omega arith) d),
      λ lt. elim (dec_le (digit_count (suc m)) k) [
        | yes d ↦ d
        | no d ↦
            let e : suc k ≤ digit_count (suc m) = omega arith in
            absurd (omega (arith, pow-le-pow_right {n = 10} (omega arith) e, pow-suc 10 k))
      ],
    )
