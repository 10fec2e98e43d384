-- ===== src/Ipc/Codec/Soundness.antt =====
-- What `decode` and `read_frame` accept is an encoded frame; a frame that only the stream accepts.
use native.Mathlib.Decide.{dec_lt}
use dirpc.Prelude.{
  ℕ, ◌+◌, ◌-◌, ◌%◌, ◌^◌, ◌≤◌, ◌<◌, ◌≡◌, sym, ap, Bool, true, Option, none, some, Bytes, ◌++◌, [],
  ◌∷◌, refl, arith, done, length, take, drop, length-take, length-drop, take-append-drop, All, ◌∙◌,
  ◌>>=◌,
}
use dirpc.Words.{u32_mod, i32_sign, to_le_bytes, i32_as_usize}
use dirpc.Ipc.Codec.{
  Frame, encode, decode, decode_body, read_frame, read_exact, opcode_field, length_field,
}
use dirpc.Ipc.Codec.RoundTrip.{
  encode-append, read_frame-append, read_frame-encode, decode_header, length-header,
  length_field-header,
}
use dirpc.Ipc.Codec.Panics.{
  IsByte, max_len, header_split, length_field-lt, decode_body_pos, decode_body_neg,
  decode_body_wraps,
}

-- the two fields, a body of the length that they give and the rest spell the whole input
encode_of_parts :
    (xs body rest : Bytes)
    → All IsByte xs
    → 8 ≤ length xs
    → length body ≡ length_field xs
    → body ++ rest ≡ drop 8 xs
    → encode (opcode_field xs) body ++ rest ≡ xs
encode_of_parts xs body rest w n e split =
    let small : length_field xs < u32_mod = length_field-lt xs w n in
    let m : length_field xs % u32_mod ≡ length_field xs = omega arith in
    rw (encode-append, e, m, split) (header_split xs w n)

module _ (valid : Bytes → Bool) (op len : ℕ) (xs : Bytes) (room : length xs < max_len) where
  decode_body-some :
      {op' : ℕ} {body : Bytes}
      → 8 ≤ length xs
      → len < u32_mod
      → decode_body valid op (i32_as_usize len) xs ≡ done (some (op', body))
      → (op ≡ op')
        × (len < i32_sign)
        × (8 + len ≤ length xs)
        × (valid body ≡ true)
        × (take len (drop 8 xs) ≡ body)
  decode_body-some {op'} {body} n k e = elim (dec_lt len (2 ^ 32 - 8)) [
    | yes p ↦ elim (dec_lt len i32_sign) [
      | yes q ↦ ground (arith, decode_body_pos valid op len xs room q)
      | no q ↦ absurd (cc (decode_body_neg valid op len xs room (omega arith) p))
    ]
    | no p ↦ absurd (cc (decode_body_wraps valid op len xs room n (omega arith) k))
  ]

decode_needs_header :
    (valid : Bytes → Bool) (xs : Bytes) {f : Frame}
    → decode valid xs ≡ done (some f)
    → 8 ≤ length xs
unfolding decode
decode_needs_header valid xs e = ground arith

read_exact-some :
    (n : ℕ) (s : Bytes) {a b : Bytes}
    → read_exact n s ≡ some (a, b)
    → (n ≤ length s) × (take n s ≡ a) × (drop n s ≡ b)
unfolding read_exact
read_exact-some n s e = ground arith

-- A buffer of bytes, shorter than 2 ^ 63, that `decode` accepts begins with the frame that `encode`
-- makes of the result, the body is valid UTF-8 and shorter than 2 ^ 31 bytes.
decode_sound :
    (valid : Bytes → Bool) (xs : Bytes) (op : ℕ) (body : Bytes)
    → All IsByte xs
    → length xs < max_len
    → decode valid xs ≡ done (some (op, body))
    → (valid body ≡ true)
      × (length body < i32_sign)
      × ((rest : Bytes) × (encode op body ++ rest ≡ xs))
decode_sound valid xs op body w room e =
    let n : 8 ≤ length xs = decode_needs_header valid xs e in
    let (o, small, fits, ok, cut) =
      decode_body-some valid (opcode_field xs) (length_field xs) xs room n (length_field-lt xs w n)
        (sym (decode_header valid xs n) ∙ e) in
    let len : length body ≡ length_field xs =
      omega (arith, ap length cut, length-take (length_field xs) (drop 8 xs), length-drop 8 xs) in
    (
      ok,
      omega arith,
      (
        drop (length_field xs) (drop 8 xs),
        rw (← o) (
            encode_of_parts xs body _ w n len
              (rw (← cut) (take-append-drop (length_field xs) (drop 8 xs)))),
      ),
    )

read_frame_needs_header : (s : Bytes) {r : Frame × Bytes} → read_frame s ≡ some r → 8 ≤ length s
unfolding read_frame
read_frame_needs_header s e = ground arith

read_frame_fields :
    (s : Bytes)
    → 8 ≤ length s
    → read_frame s
      ≡ (read_exact (length_field s) (drop 8 s) >>= λ r. some ((opcode_field s, r.0), r.1))
read_frame_fields (a ∷ b ∷ c ∷ d ∷ e ∷ f ∷ g ∷ h ∷ s) n =
    read_frame-append (a ∷ b ∷ c ∷ d ∷ e ∷ f ∷ g ∷ h ∷ []) s refl
read_frame_fields _ n = absurd (omega arith)

pair_some :
    (o : Option (Bytes × Bytes)) (w op : ℕ) {body rest : Bytes}
    → ◌>>=◌ {B = Frame × Bytes} o (λ r. some ((w, r.0), r.1)) ≡ some ((op, body), rest)
    → (w ≡ op) × (o ≡ some (body, rest))
pair_some none w op e = cc
pair_some (some (x, y)) w op e = ground arith

-- What `read_frame` takes from a stream of bytes is the frame that `encode` makes of its result:
-- nothing is lost or reordered.
read_frame_sound :
    (s : Bytes) (op : ℕ) (body rest : Bytes)
    → All IsByte s
    → read_frame s ≡ some ((op, body), rest)
    → encode op body ++ rest ≡ s
read_frame_sound s op body rest w e =
    let n : 8 ≤ length s = read_frame_needs_header s e in
    let (o, read) =
      pair_some (read_exact (length_field s) (drop 8 s)) (opcode_field s) op
        (sym (read_frame_fields s n) ∙ e) in
    let (fits, front, back) = read_exact-some (length_field s) (drop 8 s) read in
    let len : length body ≡ length_field s =
      omega (arith, ap length front, length-take (length_field s) (drop 8 s)) in
    rw (← o) (
      encode_of_parts s body rest w n len
        (rw (← front, ← back) (take-append-drop (length_field s) (drop 8 s))))

-- With a 32-bit opcode and a body of 2 ^ 31 up to 2 ^ 32 - 9 bytes, in a buffer shorter than 2 ^
-- 63: the stream reader accepts the frame, and `decode` refuses it, complete as it is.
pub decode_refuses_large :
    (valid : Bytes → Bool) (op : ℕ) (body rest : Bytes)
    → op < u32_mod
    → i32_sign ≤ length body
    → length body < 2 ^ 32 - 8
    → length (encode op body ++ rest) < max_len
    → (decode valid (encode op body ++ rest) ≡ done none)
      × (read_frame (encode op body ++ rest) ≡ some ((op, body), rest))
decode_refuses_large valid op body rest hop h k room =
    let m : length body % u32_mod ≡ length body = omega arith in
    let small : length body < u32_mod = omega arith in
    let xs = encode op body ++ rest in
    let split : xs ≡ to_le_bytes op ++ (to_le_bytes (length body) ++ (body ++ rest)) =
      rw (encode-append, m) in
    let n : 8 ≤ length xs =
      rw split (omega (arith, length-header op (length body) (body ++ rest))) in
    let field : length_field xs ≡ length body =
      rw split (length_field-header op (length body) (body ++ rest) small) in
    (
      decode_header valid xs n
          ∙ rw field (decode_body_neg valid (opcode_field xs) (length body) xs room h k),
      read_frame-encode op body rest hop small,
    )
