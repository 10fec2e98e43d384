-- ===== src/Scanner/Tracked.antt =====
-- Which games are tracked after a scan.
use dirpc.Prelude.{
  ℕ, String, Bool, false, Bytes, Option, none, some, is_some, List, [], ◌∷◌, ◌||◌, if◌then◌else◌,
  ◌==◌, ==_iff, nat_eq, ◌≡◌, ◌∙◌, refl, ap, arith, Bool-cases, inl, inr,
}
use dirpc.Prelude.Assoc.{Assoc, get, get-insert}
use dirpc.Json.{Numbers, Value}
use dirpc.Server.State.{ServerState}
use dirpc.Detect.{or_rest, or_rest_assoc}
use dirpc.Detect.Db.{Rkyv, DetectableDb, match_process}
use dirpc.Scanner.{ProcessInfo, Times, Scan, on_match, is_present, retained, scan_all, scan_once}

-- The id of a match, if it is one of process `k`.
abbrev pub match_of : ℕ → ℕ → Option (Bytes × Bytes) → Option Bytes
match_of k pid none = none
match_of k pid (some (id, name)) = if pid == k then some id else none

is_some-or_rest {ℓ} :
    {A : Type ℓ} (x y : Option A) (b : Bool)
    → (is_some x || (is_some y || b)) ≡ (is_some (or_rest x y) || b)
is_some-or_rest none y b = refl
is_some-or_rest (some a) y b = refl

module _ (rkyv : Rkyv) (db : DetectableDb) where
  -- The application that the last matching process with pid `k` is.
  unfoldable pub last_match : ℕ → List ProcessInfo → Option Bytes
  last_match k [] = none
  last_match k (p ∷ ps) =
      or_rest (last_match k ps) (match_of k p.pid (match_process rkyv p.path p.args db))

  module _ (num : Numbers) (text : Bytes → String) (to_string : Value num.Number → Option String)
      (times : ℕ → Times) where
    on_match_lem :
        (k pid : ℕ) (m : Option (Bytes × Bytes)) (s : Scan num.Number)
        → (get k (on_match num text to_string times pid m s).active
            ≡ or_rest (match_of k pid m) (get k s.active))
          × (is_present (on_match num text to_string times pid m s).present k
              ≡ (is_some (match_of k pid m) || is_present s.present k))
    unfolding on_match
    on_match_lem k pid none s = (refl, refl)
    on_match_lem k pid (some (id, name)) s =
        (ground (arith, get-insert pid k id s.active), ground arith)

    pub scan_all_lem :
        (k : ℕ) (ps : List ProcessInfo) (s : Scan num.Number)
        → (get k (scan_all num text to_string times rkyv db ps s).active
            ≡ or_rest (last_match k ps) (get k s.active))
          × (is_present (scan_all num text to_string times rkyv db ps s).present k
              ≡ (is_some (last_match k ps) || is_present s.present k))
    unfolding scan_all last_match
    scan_all_lem k [] s = (refl, refl)
    scan_all_lem k (p ∷ ps) s =
        let m = match_process rkyv p.path p.args db in
        let (got, here) = on_match_lem k p.pid m s in
        let (got', here') = scan_all_lem k ps (on_match num text to_string times p.pid m s) in
        (
          got' ∙ ap (or_rest (last_match k ps)) got ∙ or_rest_assoc (last_match k ps) _ _,
          here'
              ∙ ap (λ b. is_some (last_match k ps) || b) here
              ∙ is_some-or_rest (last_match k ps) (match_of k p.pid m) (is_present s.present k),
        )

    get-retained :
        (k : ℕ) (present : List ℕ) (m : Assoc ℕ Bytes)
        → get k (retained present m) ≡ (if is_present present k then get k m else none)
    unfolding retained get
    get-retained k present [] = ground arith
    get-retained k present ((pid, id) ∷ m) = elim (Bool-cases (pid == k)) [
      | inl e ↦
          let same : is_present present pid ≡ is_present present k =
            ap (is_present present) ((==_iff pid k).0 e) in
          elim (Bool-cases (is_present present k)) [
            | inl b ↦ rw (same, b) (ground arith)
            | inr b ↦ rw (same, b) (get-retained k present m ∙ rw b refl)
          ]
      | inr e ↦ ground (arith, get-retained k present m)
    ]

    still_tracked : (o p : Option Bytes) → (if is_some o || false then or_rest o p else none) ≡ o
    still_tracked none p = refl
    still_tracked (some id) p = refl

    -- After a scan a pid is tracked exactly if a process with it matches, as the application that
    -- the last such process is, whatever was tracked before.
    pub get-scan_once :
        (k : ℕ) (ps : List ProcessInfo) (server : ServerState num.Number) (active : Assoc ℕ Bytes)
        → get k (scan_once num text to_string times rkyv db ps server active).1 ≡ last_match k ps
    unfolding scan_once
    get-scan_once k ps server active =
        let s : Scan num.Number = record { server = server; active = active; present = [] } in
        let (got, here) = scan_all_lem k ps s in
        let after = scan_all num text to_string times rkyv db ps s in
        get-retained k after.present after.active
        ∙ rw (got, here) (still_tracked (last_match k ps) (get k active))
