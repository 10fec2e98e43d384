-- ===== src/Text/Decimal/RoundTrip.antt =====
-- A number that is printed in decimal is read back.
use native.Mathlib.Nat.{pow-suc}
use Prim.Native.String
use Prim.Native.String.append.{nil, cons}
use dirpc.Prelude.{
  ℕ, zero, suc, ◌+◌, ◌*◌, ◌/◌, ◌%◌, ◌<◌, ◌^◌, String, Option, none, some, ◌>>=◌, Bytes, [], ◌∷◌,
  ◌++◌, append_assoc, ltb, ◌==◌, nat_eq, ◌≡◌, ◌∙◌, refl, sym, ap, subst, arith, Bool-cases, inl,
  inr,
}
use dirpc.Words.{as_bytes}
use dirpc.Bridge.{digit_text, decimal_loop, decimal}
use dirpc.Text.Decimal.{digit_of, checked, digits_from, parse_u32}

as_bytes-append : (s t : String) → as_bytes (String.◌++◌ s t) ≡ as_bytes s ++ as_bytes t
unfolding as_bytes
as_bytes-append String.[] t = rw (nil t) refl
as_bytes-append (String.◌∷◌ c s) t =
    rw (cons c s t, as_bytes-append s t) (sym (append_assoc _ (as_bytes s) (as_bytes t)))

as_bytes-digit_text : (d : ℕ) → d < 10 → as_bytes (digit_text d) ≡ (48 + d) ∷ []
unfolding as_bytes digit_text
as_bytes-digit_text zero h = refl
as_bytes-digit_text (suc zero) h = refl
as_bytes-digit_text (suc (suc zero)) h = refl
as_bytes-digit_text (suc (suc (suc zero))) h = refl
as_bytes-digit_text (suc (suc (suc (suc zero)))) h = refl
as_bytes-digit_text (suc (suc (suc (suc (suc zero))))) h = refl
as_bytes-digit_text (suc (suc (suc (suc (suc (suc zero)))))) h = refl
as_bytes-digit_text (suc (suc (suc (suc (suc (suc (suc zero))))))) h = refl
as_bytes-digit_text (suc (suc (suc (suc (suc (suc (suc (suc zero)))))))) h = refl
as_bytes-digit_text (suc (suc (suc (suc (suc (suc (suc (suc (suc zero))))))))) h = refl
as_bytes-digit_text (suc (suc (suc (suc (suc (suc (suc (suc (suc (suc d)))))))))) h =
    absurd (omega arith)

bind-ext :
    (o : Option ℕ) (f g : ℕ → Option ℕ) (k : ℕ → Option ℕ)
    → ((x : ℕ) → f x ≡ (g x >>= k))
    → (o >>= f) ≡ ((o >>= g) >>= k)
bind-ext none f g k h = refl
bind-ext (some x) f g k h = h x

digits_from-append :
    (s : Bytes) (c acc : ℕ)
    → digits_from (s ++ c ∷ []) acc ≡ (digits_from s acc >>= digits_from (c ∷ []))
unfolding digits_from
digits_from-append [] c acc = refl
digits_from-append (x ∷ s) c acc = bind-ext (digit_of x) _ _ (digits_from (c ∷ [])) (λ d.
    bind-ext (checked (acc * 10)) _ _ (digits_from (c ∷ []))
      (λ m. bind-ext (checked (m + d)) _ _ (digits_from (c ∷ [])) (digits_from-append s c)))

digits_from-digit :
    (d acc : ℕ)
    → d < 10
    → acc * 10 + d < 2 ^ 32
    → digits_from ((48 + d) ∷ []) acc ≡ some (acc * 10 + d)
unfolding digits_from
digits_from-digit d acc h k =
    let p : digit_of (48 + d) ≡ some d = ground arith in
    let q : checked (acc * 10) ≡ some (acc * 10) = ground arith in
    let r : checked (acc * 10 + d) ≡ some (acc * 10 + d) = ground arith in rw (p, q, r)

empty_text : digits_from (as_bytes "") 0 ≡ some 0
unfolding digits_from as_bytes
empty_text = refl

digits_from-decimal_loop :
    (fuel n : ℕ)
    → n < 10 ^ fuel
    → n < 2 ^ 32
    → digits_from (as_bytes (decimal_loop fuel n)) 0 ≡ some n
unfolding decimal_loop
digits_from-decimal_loop zero n h k = let z : n ≡ 0 = omega arith in rw z empty_text
digits_from-decimal_loop (suc fuel) n h k = elim (Bool-cases (ltb n 10)) [
  | inl e ↦
      rw (e, as_bytes-digit_text n (ground arith))
        (digits_from-digit n 0 (ground arith) (omega arith) ∙ ap some (omega arith))
  | inr e ↦
      let below : n / 10 < 10 ^ fuel = omega (arith, pow-suc 10 fuel) in
      let front = digits_from-decimal_loop fuel (n / 10) below (omega arith) in
      let sum : n / 10 * 10 + n % 10 ≡ n = omega arith in
      rw
        (
          e,
          as_bytes-append (decimal_loop fuel (n / 10)) (digit_text (n % 10)),
          as_bytes-digit_text (n % 10) (omega arith),
          digits_from-append (as_bytes (decimal_loop fuel (n / 10))) (48 + n % 10) 0,
          front,
        )
        (digits_from-digit (n % 10) (n / 10) (omega arith) (omega arith) ∙ ap some sum)
]

-- A text with a value has no sign in front of its digits.
parse_u32-digits :
    (c n : ℕ) (s : Bytes) → digits_from (c ∷ s) 0 ≡ some n → parse_u32 (c ∷ s) ≡ some n
unfolding parse_u32 digits_from
parse_u32-digits c n [] h = h
parse_u32-digits c n (d ∷ s) h = elim (Bool-cases (c == b'+')) [
  | inl e ↦
      let q : c ≡ b'+' = ground arith in
      let x : ◌≡◌ {A = Option ℕ} none (some n) =
        subst (λ y. digits_from (y ∷ d ∷ s) 0 ≡ some n) q h in
      absurd (ground arith)
  | inr e ↦ rw e h
]

-- The text ends in a digit.
decimal_loop-last :
    (fuel n : ℕ) → (b : Bytes) × (c : ℕ) × (as_bytes (decimal_loop (suc fuel) n) ≡ b ++ c ∷ [])
unfolding decimal_loop
decimal_loop-last fuel n = elim (Bool-cases (ltb n 10)) [
  | inl e ↦ ([], 48 + n, rw e (as_bytes-digit_text n (ground arith)))
  | inr e ↦ (
    as_bytes (decimal_loop fuel (n / 10)),
    48 + n % 10,
    rw e (
        as_bytes-append (decimal_loop fuel (n / 10)) (digit_text (n % 10))
        ∙ rw (as_bytes-digit_text (n % 10) (omega arith)) refl),
  )
]

parse_u32-last :
    (b : Bytes) (c n : ℕ) → digits_from (b ++ c ∷ []) 0 ≡ some n → parse_u32 (b ++ c ∷ []) ≡ some n
parse_u32-last [] c n h = parse_u32-digits c n [] h
parse_u32-last (x ∷ b) c n h = parse_u32-digits x n (b ++ c ∷ []) h

-- A number of 32 bits that is printed in decimal is read back.
pub parse_u32-decimal : (n : ℕ) → n < 2 ^ 32 → parse_u32 (as_bytes (decimal n)) ≡ some n
unfolding decimal
parse_u32-decimal n h =
    let (b, c, e) = decimal_loop-last 19 n in
    let d : digits_from (b ++ c ∷ []) 0 ≡ some n =
      subst (λ s. digits_from s 0 ≡ some n) e (digits_from-decimal_loop 20 n (omega arith) h) in
    subst (λ s. parse_u32 s ≡ some n) (sym e) (parse_u32-last b c n d)
