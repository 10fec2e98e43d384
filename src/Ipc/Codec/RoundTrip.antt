-- ===== src/Ipc/Codec/RoundTrip.antt =====
-- What is encoded is read back: by `decode` from a buffer, by `read_frame` from a stream.
use dirpc.Prelude.{
  ℕ, ◌+◌, ◌%◌, ◌≤◌, ◌<◌, ◌>>=◌, ◌≡◌, refl, Bool, true, some, Bytes, ◌++◌, arith, done, length,
  take-append, drop-append, length-append,
}
use dirpc.Words.{u32_mod, usize_mod, i32_sign, to_le_bytes, from_le_bytes-to_le_bytes, i32_as_usize}
use dirpc.Ipc.Codec.{
  encode, decode, decode_body, read_frame, read_exact, opcode_field, length_field,
}

-- a header of two words, as the fields are cut from it
opcode_field-header :
    (w v : ℕ) (rest : Bytes)
    → w < u32_mod
    → opcode_field (to_le_bytes w ++ (to_le_bytes v ++ rest)) ≡ w
unfolding to_le_bytes
opcode_field-header w v rest h = from_le_bytes-to_le_bytes w h

pub length_field-header :
    (w v : ℕ) (rest : Bytes)
    → v < u32_mod
    → length_field (to_le_bytes w ++ (to_le_bytes v ++ rest)) ≡ v
unfolding to_le_bytes
length_field-header w v rest h = from_le_bytes-to_le_bytes v h

pub encode-append :
    (op : ℕ) (body rest : Bytes)
    → encode op body ++ rest
      ≡ to_le_bytes op ++ (to_le_bytes (length body % u32_mod) ++ (body ++ rest))
unfolding encode to_le_bytes
encode-append op body rest = refl

pub length-header :
    (w v : ℕ) (rest : Bytes) → length (to_le_bytes w ++ (to_le_bytes v ++ rest)) ≡ 8 + length rest
unfolding to_le_bytes
length-header w v rest = omega arith

-- a complete header hands its fields to the rest of `decode`
pub decode_header :
    (valid : Bytes → Bool) (xs : Bytes)
    → 8 ≤ length xs
    → decode valid xs ≡ decode_body valid (opcode_field xs) (i32_as_usize (length_field xs)) xs
unfolding decode
decode_header valid xs h = ground arith

decode_body-append :
    (valid : Bytes → Bool) (op w v : ℕ) (body rest : Bytes)
    → length body < i32_sign
    → valid body ≡ true
    → decode_body valid op (length body) (to_le_bytes w ++ (to_le_bytes v ++ (body ++ rest)))
      ≡ done (some (op, body))
unfolding decode_body to_le_bytes
decode_body-append valid op w v body rest hlen hv =
    let e : (8 + length body) % usize_mod ≡ 8 + length body = omega arith in
    rw e (ground (arith, length-append body rest, take-append body rest))

-- A frame that is encoded from a 32-bit opcode and valid UTF-8 shorter than 2 ^ 31 bytes is decoded
-- to its opcode and body, whatever bytes follow it in the buffer.
pub decode-encode :
    (valid : Bytes → Bool) (op : ℕ) (body rest : Bytes)
    → op < u32_mod
    → length body < i32_sign
    → valid body ≡ true
    → decode valid (encode op body ++ rest) ≡ done (some (op, body))
decode-encode valid op body rest hop hlen hv =
    let m : length body % u32_mod ≡ length body = omega arith in
    let small : length body < u32_mod = omega arith in
    let f : i32_as_usize (length body) ≡ length body = unfold i32_as_usize in ground arith in
    let room : 8 ≤ length (to_le_bytes op ++ (to_le_bytes (length body) ++ (body ++ rest))) =
      omega (arith, length-header op (length body) (body ++ rest)) in
    rw
      (
        encode-append,
        m,
        decode_header valid _ room,
        opcode_field-header,
        length_field-header op (length body) _ small,
        f,
      )
      (decode_body-append valid op op (length body) body rest hlen hv)

read_exact-append :
    (n : ℕ) (xs ys : Bytes) → length xs ≡ n → read_exact n (xs ++ ys) ≡ some (xs, ys)
unfolding read_exact
read_exact-append n xs ys e =
    rw (← e) (ground (arith, length-append xs ys, take-append xs ys, drop-append xs ys))

-- the second half of `read_frame`, once a header of eight bytes is there
pub read_frame-append :
    (header rest : Bytes)
    → length header ≡ 8
    → read_frame (header ++ rest)
      ≡ (read_exact (length_field header) rest >>= λ r. some ((opcode_field header, r.0), r.1))
unfolding read_frame
read_frame-append header rest e = rw (read_exact-append 8 header rest e)

read_frame_lem :
    (op : ℕ) (body rest : Bytes)
    → op < u32_mod
    → length body < u32_mod
    → read_frame (to_le_bytes op ++ (to_le_bytes (length body) ++ (body ++ rest)))
      ≡ some ((op, body), rest)
unfolding to_le_bytes
read_frame_lem op body rest hop hlen = rw (
  read_frame-append (to_le_bytes op ++ to_le_bytes (length body)) (body ++ rest) (omega arith),
  from_le_bytes-to_le_bytes op hop,
  from_le_bytes-to_le_bytes (length body) hlen,
  read_exact-append _ body rest refl,
)

-- A frame of a 32-bit opcode and a body of less than 2 ^ 32 bytes is read from the stream, and what
-- follows it is left unread.
pub read_frame-encode :
    (op : ℕ) (body rest : Bytes)
    → op < u32_mod
    → length body < u32_mod
    → read_frame (encode op body ++ rest) ≡ some ((op, body), rest)
read_frame-encode op body rest hop hlen =
    let m : length body % u32_mod ≡ length body = omega arith in
    rw (encode-append, m) (read_frame_lem op body rest hop hlen)
