-- ===== src/Ipc/Codec/Panics.antt =====
-- Where `decode` panics, and what it does for each range of the length field.
use dirpc.Prelude.{
  ℕ, ◌+◌, ◌-◌, ◌%◌, ◌^◌, ◌≤◌, ◌<◌, ◌≡◌, ◌↔◌, Bool, none, some, Bytes, ◌++◌, ◌∷◌, arith, done, panic,
  length, take, drop, All, ltb, if◌then◌else◌,
}
use native.Mathlib.Decide.{dec_lt}
use dirpc.Words.{
  u32_mod, usize_mod, i32_sign, to_le_bytes, from_le_bytes, to_le_bytes-from_le_bytes, i32_as_usize,
}
use dirpc.Ipc.Codec.{decode, decode_body, opcode_field, length_field}
use dirpc.Ipc.Codec.RoundTrip.{decode_header}

abbrev pub IsByte : ℕ → Type 0
IsByte b = b < 256

-- what a slice can hold at most: `isize::MAX` bytes
abbrev pub max_len : ℕ
max_len = 2 ^ 63

pub header_split :
    (xs : Bytes)
    → All IsByte xs
    → 8 ≤ length xs
    → to_le_bytes (opcode_field xs) ++ (to_le_bytes (length_field xs) ++ drop 8 xs) ≡ xs
header_split (a ∷ b ∷ c ∷ d ∷ e ∷ f ∷ g ∷ h ∷ s) w n = rw (
  to_le_bytes-from_le_bytes a b c d (omega arith),
  to_le_bytes-from_le_bytes e f g h (omega arith),
)
header_split _ w n = absurd (omega arith)

pub length_field-lt : (xs : Bytes) → All IsByte xs → 8 ≤ length xs → length_field xs < u32_mod
unfolding from_le_bytes
length_field-lt (a ∷ b ∷ c ∷ d ∷ e ∷ f ∷ g ∷ h ∷ s) w n = omega arith
length_field-lt _ w n = absurd (omega arith)

-- Where the body ends, for each range of the length field.
abbrev body_end : ℕ → ℕ
body_end len = (8 + i32_as_usize len) % usize_mod

body_end_pos : (len : ℕ) → len < i32_sign → body_end len ≡ 8 + len
unfolding i32_as_usize
body_end_pos len h = ground arith

body_end_neg : (len : ℕ) → i32_sign ≤ len → len < 2 ^ 32 - 8 → max_len ≤ body_end len
unfolding i32_as_usize
body_end_neg len h k = ground arith

body_end_wraps : (len : ℕ) → 2 ^ 32 - 8 ≤ len → len < u32_mod → body_end len < 8
unfolding i32_as_usize
body_end_wraps len h k = ground arith

module _ (valid : Bytes → Bool) (op len : ℕ) (xs : Bytes) (room : length xs < max_len) where
  pub decode_body_pos :
      len < i32_sign
      → decode_body valid op (i32_as_usize len) xs ≡ (
          if ltb (length xs) (8 + len)
          then done none
          else let body = take len (drop 8 xs) in
            done (if valid body then some (op, body) else none))
  unfolding decode_body
  decode_body_pos h =
      rw (body_end_pos len h) (let e : 8 + len - 8 ≡ len = omega arith in rw e (ground arith))

  pub decode_body_neg :
      i32_sign ≤ len → len < 2 ^ 32 - 8 → decode_body valid op (i32_as_usize len) xs ≡ done none
  unfolding decode_body
  decode_body_neg h k = ground (arith, body_end_neg len h k)

  pub decode_body_wraps :
      8 ≤ length xs
      → 2 ^ 32 - 8 ≤ len
      → len < u32_mod
      → decode_body valid op (i32_as_usize len) xs ≡ panic
  unfolding decode_body
  decode_body_wraps n h k = ground (arith, body_end_wraps len h k)

  decode_body_panics :
      8 ≤ length xs
      → len < u32_mod
      → (decode_body valid op (i32_as_usize len) xs ≡ panic) ↔ (2 ^ 32 - 8 ≤ len)
  decode_body_panics n k = (
    λ e. elim (dec_lt len (2 ^ 32 - 8)) [
      | yes p ↦ elim (dec_lt len i32_sign) [
        | yes q ↦ absurd (let e' = decode_body_pos q in ground arith)
        | no q ↦ cc (decode_body_neg (omega arith) p)
      ]
      | no p ↦ omega arith
    ],
    λ h. decode_body_wraps n h k,
  )

-- On bytes, in a buffer shorter than 2 ^ 63 bytes, `decode` panics exactly on a complete header
-- whose length field is an i32 from -8 to -1.
pub decode_panics :
    (valid : Bytes → Bool) (xs : Bytes)
    → All IsByte xs
    → length xs < max_len
    → (decode valid xs ≡ panic) ↔ ((8 ≤ length xs) × (2 ^ 32 - 8 ≤ length_field xs))
decode_panics valid xs w room = elim (dec_lt (length xs) 8) [
  | yes p ↦ (λ e. unfold decode in ground arith, λ h. absurd (omega arith))
  | no p ↦
      let n : 8 ≤ length xs = omega arith in
      rw (decode_header valid xs n) (
        let h =
          decode_body_panics valid (opcode_field xs) (length_field xs) xs room n
            (length_field-lt xs w n) in
        (λ e. (n, h.0 e), λ k. h.1 k.1))
]
