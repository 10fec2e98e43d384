-- ===== src/Paths.antt =====
-- Path helpers of src/process/detectable.rs: `path_filename`, `path_variants`, `strip_64_suffix`.
-- A `&str` is its bytes. The separators and the suffixes are ASCII, so every slice that the source
-- takes lies on character boundaries.
pub mod Strip
pub mod Split
pub mod Filename
pub mod Variants
pub mod Contents
use dirpc.Prelude.{
  ℕ, zero, suc, ◌+◌, ◌-◌, Bool, true, false, not, ◌&&◌, ◌||◌, Option, none, some, Bytes, codes,
  List, [], ◌∷◌, ◌++◌, ◌==◌, nat_eq, bytes_eq, ltb, leb, if◌then◌else◌, length, take, drop, get_or,
  filter,
}

abbrev pub is_sep : ℕ → Bool
is_sep c = c == b'/' || c == b'\\'

-- `str::split` at each separator: always one part more than there are separators.
abbrev cons_head : ℕ → List Bytes → List Bytes
cons_head c [] = (c ∷ []) ∷ []
cons_head c (p ∷ ps) = (c ∷ p) ∷ ps

pub split : Bytes → List Bytes
split [] = [] ∷ []
split (c ∷ s) = if is_sep c then [] ∷ split s else cons_head c (split s)

abbrev pub is_empty : Bytes → Bool
is_empty [] = true
is_empty (_ ∷ _) = false

-- `path.split(['/', '\\']).filter(|s| !s.is_empty())`
unfoldable pub parts : Bytes → List Bytes
unfolding split
parts path = filter (λ s. not (is_empty s)) (split path)

-- `join("/")`
unfoldable pub join : List Bytes → Bytes
join [] = []
join (p ∷ []) = p
join (p ∷ q ∷ ps) = p ++ b'/' ∷ join (q ∷ ps)

abbrev pub ends_with : Bytes → Bytes → Bool
ends_with suffix s =
    leb (length suffix) (length s) && bytes_eq (drop (length s - length suffix) s) suffix

unfoldable pub find_slash : Bytes → Option ℕ
find_slash [] = none
find_slash (c ∷ s) =
    if c == b'/' then some 0 else elim (find_slash s) [ none ↦ none | some i ↦ some (suc i) ]

unfoldable pub strip_64_suffix : Bytes → Bytes
strip_64_suffix name =
    let len = length name in
    if leb 4 len && bytes_eq (drop (len - 4) name) (codes ".x64")
    then take (len - 4) name
    else if ltb len 2
        || not (get_or name (len - 2) 0 == b'6')
        || not (get_or name (len - 1) 0 == b'4')
    then name
    else if leb 3 len && (get_or name (len - 3) 0 == b'x' || get_or name (len - 3) 0 == b'_')
    then take (len - 3) name
    else take (len - 2) name

-- `while end > 0 && matches!(bytes[end - 1], b'/' | b'\\')`
skip_seps : Bytes → ℕ → ℕ
skip_seps s zero = 0
skip_seps s (suc end) =
    let rest = skip_seps s end in if is_sep (get_or s end 0) then rest else suc end

-- `while start > 0 && !matches!(bytes[start - 1], b'/' | b'\\')`
scan_back : Bytes → ℕ → ℕ
scan_back s zero = 0
scan_back s (suc start) =
    let rest = scan_back s start in if is_sep (get_or s start 0) then suc start else rest

unfoldable pub path_filename : Bytes → Bytes
unfolding skip_seps scan_back
path_filename path =
    let end = skip_seps path (length path) in
    if end == 0 then [] else let start = scan_back path end in take (end - start) (drop start path)

-- What one round of the loop pushes.
pushed : Bytes → List Bytes
pushed suffix =
    if ends_with (codes "64") suffix
    then (let cleaned = strip_64_suffix suffix in
        if ltb (length cleaned) (length suffix) then suffix ∷ cleaned ∷ [] else suffix ∷ [])
    else suffix ∷ []

advance : ℕ → Option ℕ → ℕ
advance offset none = offset
advance offset (some pos) = offset + (pos + 1)

-- `for _ in start..parts.len()`, on the rounds left
suffix_loop : ℕ → Bytes → ℕ → List Bytes → List Bytes
suffix_loop zero full offset variants = variants
suffix_loop (suc rounds) full offset variants =
    let suffix = drop offset full in
    suffix_loop rounds full (advance offset (find_slash suffix)) (variants ++ pushed suffix)

unfoldable pub path_variants : Bytes → List Bytes
unfolding suffix_loop pushed advance parts join find_slash strip_64_suffix
path_variants path =
    let ps = parts path in
    let len = length ps in
    let start = if ltb 4 len then len - 4 else 0 in
    if leb len start then [] else suffix_loop (len - start) (join (drop start ps)) 0 []
