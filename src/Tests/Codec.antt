-- ===== src/Tests/Codec.antt =====
-- Tests of the frame codec and of the opcodes.
use dirpc.Prelude.{
  ℕ, ◌+◌, ◌≤◌, ◌≡◌, ◌↔◌, ◌^◌, ◌-◌, ltb, true, all, Bool, Bytes, some, [], ◌∷◌, ◌++◌, done, panic,
  refl, arith, length, length-append, All,
}
use dirpc.Words.{i32_sign}
use dirpc.Ipc.Codec.{encode, decode, read_frame, length_field}
use dirpc.Ipc.Codec.RoundTrip.{decode-encode}
use dirpc.Ipc.Codec.Panics.{decode_panics, IsByte}

abbrev accept : Bytes → Bool
accept b = true

-- a FRAME with the body "{}", then one more byte
abbrev two_braces : Bytes
two_braces = 1 ∷ 0 ∷ 0 ∷ 0 ∷ 2 ∷ 0 ∷ 0 ∷ 0 ∷ 123 ∷ 125 ∷ 7 ∷ []

abbrev braces : Bytes
braces = 123 ∷ 125 ∷ []

-- a header whose length is -1
abbrev minus_one : Bytes
minus_one = 1 ∷ 0 ∷ 0 ∷ 0 ∷ 255 ∷ 255 ∷ 255 ∷ 255 ∷ []

encode_test : encode 1 braces ++ 7 ∷ [] ≡ two_braces
unfolding encode dirpc.Words.to_le_bytes
encode_test = refl

decode-encode_example :
    decode accept (encode 3 (65 ∷ 66 ∷ []) ++ 7 ∷ []) ≡ done (some (3, 65 ∷ 66 ∷ []))
decode-encode_example =
    decode-encode accept 3 (65 ∷ 66 ∷ []) (7 ∷ []) (omega arith) (omega arith) refl

below_256 : (s : Bytes) → all (λ b. ltb b 256) s ≡ true → All IsByte s
below_256 [] e = tt
below_256 (b ∷ s) e = (ground arith, below_256 s (ground arith))

decode_panics_example :
    (decode accept minus_one ≡ panic)
    ↔ ((8 ≤ length minus_one) × (2 ^ 32 - 8 ≤ length_field minus_one))
decode_panics_example = decode_panics accept minus_one (below_256 minus_one refl) (omega arith)

two_braces_decoded : decode accept two_braces ≡ done (some (1, braces))
unfolding decode dirpc.Words.from_le_bytes
two_braces_decoded = refl

two_braces_read : read_frame two_braces ≡ some ((1, braces), 7 ∷ [])
unfolding read_frame dirpc.Words.from_le_bytes
two_braces_read = refl

length-encode :
    (op : ℕ) (b rest : Bytes) → length (encode op b ++ rest) ≡ 8 + (length b + length rest)
unfolding encode dirpc.Words.to_le_bytes
length-encode op b rest = omega (arith, length-append b rest)
