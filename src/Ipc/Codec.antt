-- ===== src/Ipc/Codec.antt =====
-- The frame codec of src/transports/ipc.rs: `encode`, `decode` and `read_frame`.
-- Additions of usize wrap, as in a release build. A reader is the bytes that the peer has sent
-- before it closes; `none` is the error of `read_exact` at the end of the stream.
pub mod RoundTrip
pub mod Panics
pub mod Soundness
use dirpc.Prelude.{
  ℕ, ◌+◌, ◌-◌, ◌%◌, Bool, Option, none, some, Bytes, ◌++◌, Run, done, panic, ltb, length, take,
  drop, ◌||◌, ◌>>=◌, if◌then◌else◌,
}
use dirpc.Words.{u32_mod, usize_mod, to_le_bytes, from_le_bytes, i32_as_usize}

abbrev pub Frame : Type 0
Frame = ℕ × Bytes

-- `bytes.len() as i32` keeps the low 32 bits.
unfoldable pub encode : ℕ → Bytes → Bytes
encode opcode bytes =
    let len = length bytes % u32_mod in to_le_bytes opcode ++ (to_le_bytes len ++ bytes)

-- `&data[lo..hi]` panics where the range is not within the slice.
abbrev pub slice : ℕ → ℕ → Bytes → Run Bytes
slice lo hi xs =
    if ltb hi lo || ltb (length xs) hi then panic else done (take (hi - lo) (drop lo xs))

-- `from_utf8` and the pair.
abbrev utf8_body : (Bytes → Bool) → ℕ → Run Bytes → Run (Option Frame)
utf8_body valid opcode (done body) = done (if valid body then some (opcode, body) else none)
utf8_body valid opcode panic = panic

abbrev pub opcode_field : Bytes → ℕ
opcode_field xs = from_le_bytes (take 4 xs)

abbrev pub length_field : Bytes → ℕ
length_field xs = from_le_bytes (take 4 (drop 4 xs))

-- Once the header is read. `valid` is the test of `simdutf8::basic::from_utf8`.
pub decode_body : (Bytes → Bool) → ℕ → ℕ → Bytes → Run (Option Frame)
decode_body valid opcode len xs =
    let end = (8 + len) % usize_mod in
    if ltb (length xs) end then done none else utf8_body valid opcode (slice 8 end xs)

unfoldable pub decode : (Bytes → Bool) → Bytes → Run (Option Frame)
unfolding decode_body i32_as_usize
decode valid xs =
    if ltb (length xs) 8
    then done none
    else decode_body valid (opcode_field xs) (i32_as_usize (length_field xs)) xs

unfoldable pub read_exact : ℕ → Bytes → Option (Bytes × Bytes)
read_exact n s = if ltb (length s) n then none else some (take n s, drop n s)

-- The length is read as a u32. The result holds what is left of the stream.
unfoldable pub read_frame : Bytes → Option (Frame × Bytes)
unfolding read_exact
read_frame s = do
  (header, rest) ← read_exact 8 s
  let opcode = opcode_field header
  let len = length_field header
  (body, rest) ← read_exact len rest
  some ((opcode, body), rest)
