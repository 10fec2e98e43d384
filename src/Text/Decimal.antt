-- ===== src/Text/Decimal.antt =====
-- `str::parse::<u32>`.
pub mod RoundTrip
use dirpc.Prelude.{
  ℕ, ◌+◌, ◌-◌, ◌*◌, ◌^◌, Bool, ◌&&◌, Option, none, some, ◌>>=◌, List, [], ◌∷◌, ltb, leb,
  if◌then◌else◌, ◌==◌, nat_eq,
}

abbrev pub digit_of : ℕ → Option ℕ
digit_of c = if leb 48 c && leb c 57 then some (c - 48) else none

abbrev checked : ℕ → Option ℕ
checked n = if ltb n (2 ^ 32) then some n else none

-- `checked_mul`, `checked_add` for each digit
unfoldable pub digits_from : List ℕ → ℕ → Option ℕ
digits_from [] acc = some acc
digits_from (c ∷ s) acc =
    digit_of c >>= λ d. checked (acc * 10) >>= λ m. checked (m + d) >>= digits_from s

unfoldable pub parse_u32 : List ℕ → Option ℕ
parse_u32 [] = none
parse_u32 (c ∷ []) = digits_from (c ∷ []) 0
parse_u32 (c ∷ d ∷ s) = if c == b'+' then digits_from (d ∷ s) 0 else digits_from (c ∷ d ∷ s) 0
