-- ===== src/Server/Time.antt =====
-- `maybe_to_ms` and `digit_count` of src/server.rs: timestamps in seconds become milliseconds. An
-- i64 is an integer; a product wraps, as in a release build. `now` is the reading of the clock in
-- milliseconds, which the source takes from `jiff::Timestamp::now`.
pub mod Digits
pub mod Scale
use dirpc.Prelude.{ℕ, zero, suc, ◌+◌, ◌-◌, ◌*◌, ◌/◌, ◌%◌, ◌^◌, ltb, if◌then◌else◌, ◌==◌, nat_eq}
use dirpc.Prelude.Int.{ℤ, pos, negsuc, unsigned_abs}

-- `u64::ilog10`, with fuel for the twenty digits of a u64
ilog10_loop : ℕ → ℕ → ℕ
ilog10_loop zero n = 0
ilog10_loop (suc fuel) n = let rest = ilog10_loop fuel (n / 10) in if ltb n 10 then 0 else suc rest

abbrev u64_digits : ℕ
u64_digits = 20

unfoldable pub digit_count : ℕ → ℕ
unfolding ilog10_loop
digit_count n = if n == 0 then 1 else ilog10_loop u64_digits n + 1

-- the i64 with the low 64 bits of an integer
abbrev of_pattern : ℕ → ℤ
of_pattern p = if ltb p (2 ^ 63) then pos p else negsuc (2 ^ 64 - 1 - p)

abbrev pub wrap_i64 : ℤ → ℤ
wrap_i64 (pos n) = of_pattern (n % 2 ^ 64)
wrap_i64 (negsuc n) = of_pattern (2 ^ 64 - 1 - n % 2 ^ 64)

-- the exact product
abbrev pub times_1000 : ℤ → ℤ
times_1000 (pos n) = pos (n * 1000)
times_1000 (negsuc n) = negsuc (n * 1000 + 999)

unfoldable pub maybe_to_ms : ℤ → ℤ → ℤ
maybe_to_ms now ts =
    let now_digits = digit_count (unsigned_abs now) in
    let ts_digits = digit_count (unsigned_abs ts) in
    if ltb 2 (now_digits - ts_digits) then wrap_i64 (times_1000 ts) else ts
