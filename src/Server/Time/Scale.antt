-- ===== src/Server/Time/Scale.antt =====
-- When `maybe_to_ms` scales, and that the product never wraps.
use native.Mathlib.Decide.{dec_le}
use dirpc.Prelude.{
  ℕ, ◌-◌, ◌^◌, ◌≤◌, ◌<◌, ◌≡◌, ◌⊎◌, inl, inr, arith, ltb, if◌then◌else◌, Bool-cases, true, false,
}
use dirpc.Prelude.Int.{ℤ, pos, negsuc, unsigned_abs}
use dirpc.Server.Time.{digit_count, maybe_to_ms, times_1000, wrap_i64}
use dirpc.Server.Time.Digits.{digit_count-le_iff}

-- The range of an i64.
abbrev pub IsI64 : ℤ → Type 0
IsI64 (pos n) = n < 2 ^ 63
IsI64 (negsuc n) = n < 2 ^ 63

wrap_i64_exact : (z : ℤ) → IsI64 z → wrap_i64 z ≡ z
wrap_i64_exact (pos n) h = ground arith
wrap_i64_exact (negsuc n) h = ground arith

times_1000_fits : (z : ℤ) → unsigned_abs z < 10 ^ 15 → IsI64 (times_1000 z)
times_1000_fits (pos n) h = omega arith
times_1000_fits (negsuc n) h = omega arith

abs-lt : (z : ℤ) → IsI64 z → unsigned_abs z < 2 ^ 64
abs-lt (pos n) h = omega arith
abs-lt (negsuc n) h = omega arith

-- For a clock of at most eighteen digits the result is the timestamp or its exact thousandfold,
-- never a wrapped product.
maybe_to_ms_exact :
    (now ts : ℤ)
    → unsigned_abs now < 10 ^ 18
    → IsI64 ts
    → (maybe_to_ms now ts ≡ ts) ⊎ (maybe_to_ms now ts ≡ times_1000 ts)
unfolding maybe_to_ms
maybe_to_ms_exact now ts hn ht =
    elim (Bool-cases (ltb 2 (digit_count (unsigned_abs now) - digit_count (unsigned_abs ts)))) [
      | inl s ↦
          let d : digit_count (unsigned_abs now) ≤ 18 =
            (digit_count-le_iff (unsigned_abs now) 18 (omega arith) (omega arith)).1 hn in
          let small : unsigned_abs ts < 10 ^ 15 =
            (digit_count-le_iff (unsigned_abs ts) 15 (abs-lt ts ht) (omega arith)).0
              (ground arith) in
          inr (rw (s, wrap_i64_exact (times_1000 ts) (times_1000_fits ts small)))
      | inr s ↦ inl (rw s)
    ]

-- With the clock between September 2001 and November 2286 a timestamp is scaled exactly if its
-- magnitude is below 10 ^ 10.
pub maybe_to_ms_today :
    (m : ℕ) (ts : ℤ)
    → 10 ^ 12 ≤ m
    → m < 10 ^ 13
    → IsI64 ts
    → maybe_to_ms (pos m) ts ≡ (if ltb (unsigned_abs ts) (10 ^ 10) then times_1000 ts else ts)
unfolding maybe_to_ms
maybe_to_ms_today m ts lo hi ht =
    let up : digit_count m ≤ 13 = (digit_count-le_iff m 13 (omega arith) (omega arith)).1 hi in
    let above : 13 ≤ digit_count m = elim (dec_le (digit_count m) 12) [
      | yes d ↦ absurd (omega (arith, (digit_count-le_iff m 12 (omega arith) (omega arith)).0 d))
      | no d ↦ omega arith
    ] in
    let iff = digit_count-le_iff (unsigned_abs ts) 10 (abs-lt ts ht) (omega arith) in
    elim (Bool-cases (ltb (unsigned_abs ts) (10 ^ 10))) [
      | inl s ↦
          let few : digit_count (unsigned_abs ts) ≤ 10 = iff.1 (ground arith) in
          let scaled : ltb 2 (digit_count m - digit_count (unsigned_abs ts)) ≡ true =
            ground arith in
          rw (s, scaled) (wrap_i64_exact (times_1000 ts) (times_1000_fits ts (ground arith)))
      | inr s ↦
          let many : 11 ≤ digit_count (unsigned_abs ts) =
            elim (dec_le (digit_count (unsigned_abs ts)) 10) [
              | yes d ↦ let t = iff.0 d in absurd (ground arith)
              | no d ↦ omega arith
            ] in
          let kept : ltb 2 (digit_count m - digit_count (unsigned_abs ts)) ≡ false = ground arith in
          rw (s, kept)
    ]
