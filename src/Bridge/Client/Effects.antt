-- ===== src/Bridge/Client/Effects.antt =====
-- What messages to a client add up to, socket by socket.
use dirpc.Prelude.{
  ℕ, String, Bool, true, false, Option, none, some, List, [], ◌∷◌, ◌++◌, ◌≡◌, ◌∙◌, refl, ap, arith,
  if◌then◌else◌, ◌==◌, nat_eq, All, Bool-cases, inl, inr,
}
use dirpc.Prelude.Assoc.{Assoc, get, get-insert, get-remove, IsMap}
use dirpc.Bridge.Client.{values}
use dirpc.Bridge.Client.World.{apply_read, apply, apply_all}

-- What one message does to what is known of one socket.
abbrev pub effect : Option (ℕ × Bool) → String → ℕ → Option String → Option String
effect none t k old = old
effect (some (j, b)) t k old = if j == k then (if b then some t else none) else old

pub effect_twice :
    (r : Option (ℕ × Bool)) (t : String) (k : ℕ) (x y : Option String)
    → (x ≡ y)
    → effect r t k (effect r t k x) ≡ effect r t k y
effect_twice none t k x y e = e
effect_twice (some (j, b)) t k x y e = ground arith

-- a message in between does not matter to a message that has the last word
pub effect_last :
    (r : Option (ℕ × Bool)) (t : String) (k : ℕ) (f : Option String → Option String)
    (x : Option String)
    → f x ≡ x
    → effect r t k (f (effect r t k x)) ≡ effect r t k x
effect_last none t k f x e = e
effect_last (some (j, b)) t k f x e = ground arith

module _ (reads : String → Option (ℕ × Bool)) where
  unfoldable pub effects : List String → ℕ → Option String → Option String
  effects [] k old = old
  effects (t ∷ q) k old = effects q k (effect (reads t) t k old)

  get-apply_read :
      (r : Option (ℕ × Bool)) (view : Assoc ℕ String) (t : String) (k : ℕ)
      → get k (apply_read reads r t view) ≡ effect r t k (get k view)
  unfolding apply_read
  get-apply_read none view t k = refl
  get-apply_read (some (j, true)) view t k = get-insert j k t view
  get-apply_read (some (j, false)) view t k = get-remove j k view

  pub get-apply :
      (view : Assoc ℕ String) (t : String) (k : ℕ)
      → get k (apply reads view t) ≡ effect (reads t) t k (get k view)
  unfolding apply
  get-apply view t k = get-apply_read (reads t) view t k

  pub get-apply_all :
      (q : List String) (view : Assoc ℕ String) (k : ℕ)
      → get k (apply_all reads view q) ≡ effects q k (get k view)
  unfolding apply_all effects
  get-apply_all [] view k = refl
  get-apply_all (t ∷ q) view k =
      get-apply_all q (apply reads view t) k ∙ ap (effects q k) (get-apply view t k)

  pub effects-append :
      (q : List String) (t : String) (k : ℕ) (x : Option String)
      → effects (q ++ t ∷ []) k x ≡ effect (reads t) t k (effects q k x)
  unfolding effects
  effects-append [] t k x = refl
  effects-append (u ∷ q) t k x = effects-append q t k (effect (reads u) u k x)

  -- each remembered message sets the socket that it is remembered for
  abbrev pub IsEntry : (ℕ × String) → Type 0
  IsEntry p = reads p.1 ≡ some (p.0, true)

  absent_cons :
      (j k : ℕ) (t : String) (m : Assoc ℕ String)
      → get k ((j, t) ∷ m) ≡ none
      → ((j == k) ≡ false) × (get k m ≡ none)
  unfolding get
  absent_cons j k t m e = ground arith

  absent_effects :
      (m : Assoc ℕ String) (k : ℕ) (x : Option String)
      → All IsEntry m
      → get k m ≡ none
      → effects (values m) k x ≡ x
  unfolding effects values
  absent_effects [] k x h e = refl
  absent_effects ((j, t) ∷ m) k x (entry, h) e =
      let (other, absent) = absent_cons j k t m e in
      ap (effects (values m) k) (ap (λ r. effect r t k x) entry ∙ rw other)
      ∙ absent_effects m k x h absent

  -- the snapshot gives the client exactly what is remembered
  pub snapshot_effects :
      (m : Assoc ℕ String) (k : ℕ) → All IsEntry m → IsMap m → effects (values m) k none ≡ get k m
  unfolding get values effects
  snapshot_effects [] k h d = refl
  snapshot_effects ((j, t) ∷ m) k (entry, h) (fresh, d) = elim (Bool-cases (j == k)) [
    | inl same ↦ rw same (
        ap (effects (values m) k) (ap (λ r. effect r t k none) entry ∙ rw same)
        ∙ absent_effects m k (some t) h (let q : j ≡ k = ground arith in rw q at fresh))
    | inr other ↦ rw other (
        ap (effects (values m) k) (ap (λ r. effect r t k none) entry ∙ rw other)
        ∙ snapshot_effects m k h d)
  ]
