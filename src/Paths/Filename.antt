-- ===== src/Paths/Filename.antt =====
-- `path_filename`, two scans from the end, against the components of the path.
use dirpc.Prelude.{
  ℕ, zero, suc, ◌≤◌, ◌<◌, ◌-◌, ◌≡◌, ◌≢◌, refl, sym, ap, ◌∙◌, Bool-cases, ◌⊎◌, inl, inr, Bytes, List,
  [], ◌∷◌, ◌++◌, arith, All, All-append, length, take, drop, get_or, take-suc, take-length,
  take-drop, length-append, length-take, append_assoc, append-nil, nat_eq, ◌==◌,
}
use dirpc.Paths.{is_sep, parts, skip_seps, scan_back, path_filename}
use dirpc.Paths.Split.{IsSep, IsPlain, IsPart, parts-append, parts_plain, parts_seps}

-- The last component, or nothing.
abbrev pub last_or_empty : List Bytes → Bytes
last_or_empty [] = []
last_or_empty (p ∷ []) = p
last_or_empty (p ∷ q ∷ ps) = last_or_empty (q ∷ ps)

last_or_empty-append : (ps : List Bytes) (w : Bytes) → last_or_empty (ps ++ w ∷ []) ≡ w
last_or_empty-append [] w = refl
last_or_empty-append (p ∷ []) w = refl
last_or_empty-append (p ∷ q ∷ ps) w = last_or_empty-append (q ∷ ps) w

skip_seps-le : (s : Bytes) (e : ℕ) → skip_seps s e ≤ e
unfolding skip_seps
skip_seps-le s zero = omega arith
skip_seps-le s (suc e) = ground (arith, skip_seps-le s e)

scan_back-le : (s : Bytes) (e : ℕ) → scan_back s e ≤ e
unfolding scan_back
scan_back-le s zero = omega arith
scan_back-le s (suc e) = ground (arith, scan_back-le s e)

-- the first loop drops separators
skip_seps_lem :
    (s : Bytes) (e : ℕ)
    → e ≤ length s
    → (z : Bytes) × (take e s ≡ take (skip_seps s e) s ++ z) × All IsSep z
unfolding skip_seps
skip_seps_lem s zero h = ([], refl, tt)
skip_seps_lem s (suc e) h = elim (Bool-cases (is_sep (get_or s e 0))) [
  | inl p ↦
      let (z, cut, seps) = skip_seps_lem s e (omega arith) in
      rw p (
        z ++ get_or s e 0 ∷ [],
        rw (take-suc s e 0 h, cut) (append_assoc _ z (get_or s e 0 ∷ [])),
        All-append IsSep z (get_or s e 0 ∷ []) seps (p, tt),
      )
  | inr p ↦ rw p ([], sym (append-nil _), tt)
]

-- and stops behind a byte that is none, from which the second loop takes at least one
scan_back-skip_seps :
    (s : Bytes) (e : ℕ) → 0 < skip_seps s e → scan_back s (skip_seps s e) < skip_seps s e
unfolding skip_seps
scan_back-skip_seps s zero h = absurd (omega arith)
scan_back-skip_seps s (suc e) h = elim (Bool-cases (is_sep (get_or s e 0))) [
  | inl p ↦ rw p (scan_back-skip_seps s e (rw p at h))
  | inr p ↦ rw p (scan_back_lt s e p)
]
  where
    scan_back_lt : (s : Bytes) (e : ℕ) → IsPlain (get_or s e 0) → scan_back s (suc e) < suc e
    scan_back_lt s e p = let b = scan_back-le s e in unfold scan_back in rw p (omega arith)

-- the second loop keeps bytes that are no separators, and stops behind a separator
scan_back_lem :
    (s : Bytes) (e : ℕ)
    → e ≤ length s
    → (w : Bytes) × (take e s ≡ take (scan_back s e) s ++ w)
      × All IsPlain w
      × ((take (scan_back s e) s ≡ [])
          ⊎ ((t : Bytes) × (c : ℕ) × (take (scan_back s e) s ≡ t ++ c ∷ []) × IsSep c))
unfolding scan_back
scan_back_lem s zero h = ([], refl, tt, inl refl)
scan_back_lem s (suc e) h = elim (Bool-cases (is_sep (get_or s e 0))) [
  | inl p ↦ rw p ([], sym (append-nil _), tt, inr (take e s, get_or s e 0, take-suc s e 0 h, p))
  | inr p ↦
      let (w, cut, plain, stop) = scan_back_lem s e (omega arith) in
      rw p (
        w ++ get_or s e 0 ∷ [],
        rw (take-suc s e 0 h, cut) (append_assoc _ w (get_or s e 0 ∷ [])),
        All-append IsPlain w (get_or s e 0 ∷ []) plain (p, tt),
        stop,
      )
]

parts_word_seps : (w z : Bytes) → IsPart w → All IsSep z → parts (w ++ z) ≡ w ∷ []
parts_word_seps w [] h k = rw append-nil (parts_plain w h)
parts_word_seps w (c ∷ z) h (hc, hz) = rw (parts-append w c z hc, parts_plain w h, parts_seps z hz)

parts_front :
    (a w z : Bytes)
    → (a ≡ []) ⊎ ((t : Bytes) × (c : ℕ) × (a ≡ t ++ c ∷ []) × IsSep c)
    → IsPart w
    → All IsSep z
    → (ps : List Bytes) × (parts (a ++ w ++ z) ≡ ps ++ w ∷ [])
parts_front a w z (inl e) h k = ([], rw e (parts_word_seps w z h k))
parts_front a w z (inr (t, c, e, hc)) h k = (
  parts t,
  rw (
    e,
    append_assoc t (c ∷ []) w,
    append_assoc t (c ∷ w) z,
    parts-append t c (w ++ z) hc,
    parts_word_seps w z h k,
  ),
)

-- the first scan reaches the front: there are separators only
no_name : (path : Bytes) → skip_seps path (length path) ≡ 0 → last_or_empty (parts path) ≡ []
no_name path e =
    let (z, cut, seps) = skip_seps_lem path (length path) (omega arith) in
    let all_seps : path ≡ z = sym (take-length path) ∙ cut ∙ rw e in
    rw (all_seps, parts_seps z seps)

named :
    (path : Bytes) (end : ℕ)
    → skip_seps path (length path) ≡ end
    → 0 < end
    → take (end - scan_back path end) (drop (scan_back path end) path) ≡ last_or_empty (parts path)
named path end e pos =
    let (z, cut, seps) = skip_seps_lem path (length path) (omega arith) in
    let below : end ≤ length path = omega (arith, skip_seps-le path (length path)) in
    let (w, cut', plain, stop) = scan_back_lem path end below in
    let start = scan_back path end in
    let back : start < end = rw e at (scan_back-skip_seps path (length path) (rw e pos)) in
    let len : length w ≢ 0 = omega (
      arith,
      ap length cut',
      length-append (take start path) w,
      length-take start path,
      length-take end path,
    ) in
    let whole : path ≡ take start path ++ w ++ z =
      sym (take-length path) ∙ (rw e at cut) ∙ ap (λ t. t ++ z) cut' in
    let (ps, split) =
      parts_front (take start path) w z stop ((λ e. len (ap length e)), plain) seps in
    rw (take-drop path w start end (omega arith) (omega arith) cut')
      (sym (ap last_or_empty (ap parts whole ∙ split) ∙ last_or_empty-append ps w))

-- The file name that the two scans find is the last component of the path that `path_variants`
-- splits it into, and empty if there is none.
pub path_filename-parts : (path : Bytes) → path_filename path ≡ last_or_empty (parts path)
unfolding path_filename
path_filename-parts path = elim (Bool-cases (skip_seps path (length path) == 0)) [
  | inl e ↦ rw e (sym (no_name path (ground arith)))
  | inr e ↦ rw e (named path (skip_seps path (length path)) refl (ground arith))
]
