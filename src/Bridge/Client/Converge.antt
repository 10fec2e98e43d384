-- ===== src/Bridge/Client/Converge.antt =====
-- A client that joins at any moment ends with the messages that the bridge remembers, whatever the
-- interleaving of its own steps with those of the feeding task.
use dirpc.Prelude.{
  ℕ, String, Bool, true, false, Option, none, some, is_some, List, [], ◌∷◌, ◌++◌, ◌≡◌, ◌∙◌, refl,
  sym, ap, subst, arith, if◌then◌else◌, ◌==◌, ==_iff, nat_eq, ◌||◌, All, Bool-cases, Option-cases,
  inl, inr,
}
use dirpc.Prelude.Assoc.{Assoc, get, get-insert, insert, remove, IsMap, IsMap-insert, IsMap-remove}
use dirpc.Json.{Numbers, Value}
use dirpc.Types.{ActivityEvent}
use dirpc.Bridge.{bridge_msg, remember}
use dirpc.Bridge.Feed.{get-remember, handle_event-some}
use dirpc.Bridge.Client.{values}
use dirpc.Bridge.Client.World.{
  IsSendable, stored_last, apply_all, World, with_pending, has_key, queue, Step, Reach, here, next,
  store, send, subscribe, visit, snapshot, deliver,
}
use dirpc.Bridge.Client.Effects.{
  effect, effect_twice, effect_last, effects, get-apply, get-apply_all, effects-append, IsEntry,
  snapshot_effects,
}

module _ (reads : String → Option (ℕ × Bool)) where
  abbrev base : World → Assoc ℕ String
  base w = if w.snapped then w.view else w.last

  record IsValid (w : World) : Type 0 where
    entries : All (IsEntry reads) w.last
    distinct : IsMap w.last
    ordered : w.snapped ≡ true → w.subscribed ≡ true
    stored :
        (t : String)
        → w.pending ≡ some t
        → (k : ℕ) → effect (reads t) t k (get k w.last) ≡ get k w.last
    joined :
        w.subscribed ≡ true → (k : ℕ) → effects reads (queue w) k (get k (base w)) ≡ get k w.last
    found_entries : All (IsEntry reads) w.found
    found_distinct : IsMap w.found
    found_joined :
        w.snapped ≡ false
        → w.subscribed ≡ true
        → (k : ℕ) (t : String) → get k w.found ≡ some t
        → effects reads (queue w) k (some t) ≡ get k w.last
    changed_joined :
        w.snapped ≡ false
        → w.subscribed ≡ true
        → (k : ℕ) → has_key k w.changed ≡ true
        → (x : Option String) → effects reads (queue w) k x ≡ get k w.last

  -- a subscriber that has read nothing is at most a message behind that changes nothing
  fresh_joined :
      (o : Option String) (k : ℕ) (x : Option String)
      → ((t : String) → o ≡ some t → effect (reads t) t k x ≡ x)
      → effects reads (with_pending o []) k x ≡ x
  unfolding effects
  fresh_joined none k x h = refl
  fresh_joined (some t) k x h = h t refl

  read_joined :
      (o : Option String) (t : String) (rest : List String) (k : ℕ) (x y : Option String)
      → effects reads (with_pending o (t ∷ rest)) k x ≡ y
      → effects reads (with_pending o rest) k (effect (reads t) t k x) ≡ y
  unfolding effects
  read_joined none t rest k x y h = h
  read_joined (some u) t rest k x y h = h

  view_of_snapshot :
      (w : World)
      → IsValid w
      → (k : ℕ) → get k (apply_all reads [] (values w.found)) ≡ get k w.found
  view_of_snapshot w v k =
      get-apply_all reads (values w.found) [] k
      ∙ (unfold get in snapshot_effects reads w.found k v.found_entries v.found_distinct)

  get-IsEntry :
      (k : ℕ) (t : String) (m : Assoc ℕ String)
      → All (IsEntry reads) m
      → get k m ≡ some t
      → reads t ≡ some (k, true)
  unfolding get
  get-IsEntry k t [] h e = cc
  get-IsEntry k t ((j, u) ∷ m) (hj, h) e = elim (Bool-cases (j == k)) [
    | inl same ↦
        let q : j ≡ k = ground arith in let r : u ≡ t = cc (rw same at e) in rw (← q, ← r) hj
    | inr other ↦ get-IsEntry k t m h (rw other at e)
  ]

  -- What the iteration has found is behind the map by no more than what waits.
  found_base :
      (w : World) (k : ℕ)
      → IsValid w
      → w.snapped ≡ false
      → w.subscribed ≡ true
      → ((t : String)
          → get k w.last ≡ some t
          → (is_some (get k w.found) || has_key k w.changed) ≡ true)
      → effects reads (queue w) k (get k w.found) ≡ get k w.last
  found_base w k v not_yet sub complete =
      let same : effects reads (queue w) k (get k w.last) ≡ get k w.last =
        rw not_yet at (v.joined sub k) in
      elim (Option-cases (get k w.found)) [
        | inl e ↦ elim (Option-cases (get k w.last)) [
          | inl f ↦ ap (effects reads (queue w) k) (e ∙ sym f) ∙ same
          | inr (t, f) ↦ rw e (v.changed_joined not_yet sub k (rw e at (complete t f)) none)
        ]
        | inr (t, e) ↦ rw e (v.found_joined not_yet sub k t e)
      ]

  visited :
      (w : World) (k j : ℕ) (t v : String)
      → IsValid w
      → w.snapped ≡ false
      → w.subscribed ≡ true
      → get k w.last ≡ some t
      → get j (insert k t w.found) ≡ some v
      → effects reads (queue w) j (some v) ≡ get j w.last
  visited w k j t v h not_yet sub e q = elim (Bool-cases (k == j)) [
    | inl same ↦
        let m : ◌≡◌ {A = Option String} (some t) (some v) =
          rw (get-insert k j t w.found, same) at q in
        let now : get j w.last ≡ some v =
          ap (λ i. get i w.last) (sym ((==_iff k j).0 same)) ∙ e ∙ m in
        ap (effects reads (queue w) j) (sym now) ∙ (rw not_yet at (h.joined sub j))
    | inr other ↦ h.found_joined not_yet sub j v (rw (get-insert k j t w.found, other) at q)
  ]

module _ (num : Numbers) (to_string : Value num.Number → Option String)
    (reads : String → Option (ℕ × Bool))
    (reads-to_string : (e : ActivityEvent num.Number) (t : String)
      → IsSendable num e
      → to_string (bridge_msg num e) ≡ some t
      → reads t ≡ some (e.socket_id, is_some e.activity)) where
  -- The event `e` has the text `t`.
  abbrev Says : ActivityEvent num.Number → String → Type 0
  Says e t = to_string (bridge_msg num e) ≡ some t

  stored_last_lem :
      (w : World) (e : ActivityEvent num.Number) (t : String)
      → Says e t
      → stored_last num to_string reads e w ≡ remember num e.socket_id e.activity t w.last
  stored_last_lem w e t says =
      ap (λ b. b.last_msgs)
        (handle_event-some num to_string e t (record { last_msgs = w.last; sent = [] }) says)

  get-stored :
      (w : World) (e : ActivityEvent num.Number) (t : String) (k : ℕ)
      → IsSendable num e
      → Says e t
      → get k (stored_last num to_string reads e w) ≡ effect (reads t) t k (get k w.last)
  get-stored w e t k ok says =
      ap (get k) (stored_last_lem w e t says)
      ∙ get-remember num e.socket_id k e.activity t w.last
      ∙ sym (ap (λ r. effect r t k (get k w.last)) (reads-to_string e t ok says) ∙ ground arith)

  entries-insert :
      (k : ℕ) (t : String) (m : Assoc ℕ String)
      → reads t ≡ some (k, true)
      → All (IsEntry reads) m
      → All (IsEntry reads) (insert k t m)
  unfolding insert
  entries-insert k t [] e h = (e, tt)
  entries-insert k t ((j, u) ∷ m) e (hj, h) = elim (Bool-cases (j == k)) [
    | inl same ↦ rw same (let q : j ≡ k = ground arith in rw q e, h)
    | inr other ↦ rw other (hj, entries-insert k t m e h)
  ]

  entries-remove :
      (k : ℕ) (m : Assoc ℕ String) → All (IsEntry reads) m → All (IsEntry reads) (remove k m)
  unfolding remove
  entries-remove k [] h = tt
  entries-remove k ((j, u) ∷ m) (hj, h) = elim (Bool-cases (j == k)) [
    | inl same ↦ rw same (entries-remove k m h)
    | inr other ↦ rw other (hj, entries-remove k m h)
  ]

  remember-entries :
      (key : ℕ) (a : Option (Value num.Number)) (t : String) (m : Assoc ℕ String)
      → reads t ≡ some (key, is_some a)
      → All (IsEntry reads) m
      → IsMap m
      → All (IsEntry reads) (remember num key a t m) × IsMap (remember num key a t m)
  unfolding remember
  remember-entries key none t m e h d = (entries-remove key m h, IsMap-remove key m d)
  remember-entries key (some v) t m e h d = (entries-insert key t m e h, IsMap-insert key t m d)

  store_entries :
      (w : World) (e : ActivityEvent num.Number) (t : String)
      → IsSendable num e
      → Says e t
      → IsValid reads w
      → All (IsEntry reads) (stored_last num to_string reads e w)
        × IsMap (stored_last num to_string reads e w)
  store_entries w e t ok says h =
      subst (λ m. All (IsEntry reads) m × IsMap m) (sym (stored_last_lem w e t says))
        (remember-entries e.socket_id e.activity t w.last (reads-to_string e t ok says) h.entries
          h.distinct)

  store_joined :
      (w : World) (e : ActivityEvent num.Number) (t : String) (k : ℕ)
      → IsSendable num e
      → Says e t
      → effects reads w.inbox k (get k (base reads w)) ≡ get k w.last
      → effects reads
          (w.inbox ++ t ∷ [])
          k
          (get k (if w.snapped then w.view else stored_last num to_string reads e w))
        ≡ get k (stored_last num to_string reads e w)
  store_joined w e t k ok says h = elim (Bool-cases w.snapped) [
    | inl s ↦ rw s (
        effects-append reads w.inbox t k (get k w.view)
        ∙ ap (effect (reads t) t k) (rw s at h)
        ∙ sym (get-stored w e t k ok says))
    | inr s ↦ rw s (
        effects-append reads w.inbox t k (get k (stored_last num to_string reads e w))
        ∙ ap (λ x. effect (reads t) t k (effects reads w.inbox k x)) (get-stored w e t k ok says)
        ∙ effect_last (reads t) t k (effects reads w.inbox k) (get k w.last) (rw s at h)
        ∙ sym (get-stored w e t k ok says))
  ]

  stored_again :
      (w : World) (e : ActivityEvent num.Number) (k : ℕ) (t u : String)
      → IsSendable num e
      → Says e t
      → t ≡ u
      → effect (reads u) u k (get k (stored_last num to_string reads e w))
        ≡ get k (stored_last num to_string reads e w)
  stored_again w e k t u ok says q = rw (← q) (
      ap (effect (reads t) t k) (get-stored w e t k ok says)
      ∙ effect_twice (reads t) t k (get k w.last) (get k w.last) refl
      ∙ sym (get-stored w e t k ok says))

  -- one more message, whatever is known before the ones that wait
  store_any :
      (w : World) (e : ActivityEvent num.Number) (t : String) (k : ℕ) (x : Option String)
      → IsSendable num e
      → Says e t
      → effects reads w.inbox k x ≡ get k w.last
      → effects reads (w.inbox ++ t ∷ []) k x ≡ get k (stored_last num to_string reads e w)
  store_any w e t k x ok says h =
      effects-append reads w.inbox t k x
      ∙ ap (effect (reads t) t k) h
      ∙ sym (get-stored w e t k ok says)

  effect_own :
      (r : Option (ℕ × Bool)) (j k : ℕ) (b : Bool) (t : String) (x y : Option String)
      → r ≡ some (j, b)
      → (j == k) ≡ true
      → effect r t k x ≡ effect r t k y
  effect_own r j k b t x y e same = rw (e, same) refl

  store_changed :
      (w : World) (e : ActivityEvent num.Number) (t : String) (k : ℕ) (x : Option String)
      → IsSendable num e
      → Says e t
      → has_key k (e.socket_id ∷ w.changed) ≡ true
      → (has_key k w.changed ≡ true → effects reads w.inbox k x ≡ get k w.last)
      → effects reads (w.inbox ++ t ∷ []) k x ≡ get k (stored_last num to_string reads e w)
  store_changed w e t k x ok says c h = elim (Bool-cases (e.socket_id == k)) [
    | inl same ↦
        effects-append reads w.inbox t k x
        ∙ effect_own (reads t) e.socket_id k (is_some e.activity) t (effects reads w.inbox k x)
            (get k w.last) (reads-to_string e t ok says) same
        ∙ sym (get-stored w e t k ok says)
    | inr other ↦ store_any w e t k x ok says (h (rw other at c))
  ]

  get-nil : (k : ℕ) → get {V = String} k [] ≡ none
  unfolding get
  get-nil k = refl

  not_snapped : (w : World) → IsValid reads w → w.subscribed ≡ false → w.snapped ≡ false
  not_snapped w h fresh = elim (Bool-cases w.snapped) [ inl s ↦ cc (h.ordered s) | inr s ↦ s ]

  Step-IsValid : {w v : World} → Step num to_string reads w v → IsValid reads w → IsValid reads v
  Step-IsValid {w} (store e t ok says idle) h =
      let (entries, distinct) = store_entries w e t ok says h in
      record {
        entries = entries;
        distinct = distinct;
        ordered = h.ordered;
        stored = λ u p k. stored_again w e k t u ok says (cc);
        joined = λ s k. store_joined w e t k ok says (rw idle at (h.joined s k));
        found_entries = h.found_entries;
        found_distinct = h.found_distinct;
        found_joined =
            λ n s k u f. store_any w e t k (some u) ok says (rw idle at (h.found_joined n s k u f));
        changed_joined = λ n s k c x.
            store_changed w e t k x ok says c (λ old. rw idle at (h.changed_joined n s k old x));
      }
  Step-IsValid {w} (send t waits) h = record {
    entries = h.entries;
    distinct = h.distinct;
    ordered = h.ordered;
    stored = λ t p k. cc;
    joined = λ s k. rw s (rw waits at (h.joined s k));
    found_entries = h.found_entries;
    found_distinct = h.found_distinct;
    found_joined = λ n s k u f. rw s (rw waits at (h.found_joined n s k u f));
    changed_joined = λ n s k c x. rw s (rw waits at (h.changed_joined n s k c x));
  }
  Step-IsValid {w} (subscribe fresh) h = record {
    entries = h.entries;
    distinct = h.distinct;
    ordered = λ _. refl;
    stored = h.stored;
    joined = λ s k.
        rw (not_snapped w h fresh)
          (fresh_joined reads w.pending k (get k w.last) (λ t p. h.stored t p k));
    found_entries = tt;
    found_distinct = tt;
    found_joined = λ n s k u f. absurd (cc (get-nil k, f));
    changed_joined = λ n s k c x. cc;
  }
  Step-IsValid {w} (visit j t sub not_yet e) h = record {
    entries = h.entries;
    distinct = h.distinct;
    ordered = h.ordered;
    stored = h.stored;
    joined = h.joined;
    found_entries =
        entries-insert j t w.found (get-IsEntry reads j t w.last h.entries e) h.found_entries;
    found_distinct = IsMap-insert j t w.found h.found_distinct;
    found_joined = λ n s k u f. visited reads w j k t u h n s e f;
    changed_joined = h.changed_joined;
  }
  Step-IsValid {w} (snapshot sub not_yet complete) h = record {
    entries = h.entries;
    distinct = h.distinct;
    ordered = λ _. sub;
    stored = h.stored;
    joined = λ s k.
        ap (effects reads (queue w) k) (view_of_snapshot reads w h k)
        ∙ found_base reads w k h not_yet sub (complete k);
    found_entries = h.found_entries;
    found_distinct = h.found_distinct;
    found_joined = λ n s k u f. cc;
    changed_joined = λ n s k c x. cc;
  }
  Step-IsValid {w} (deliver t rest snapped head) h = record {
    entries = h.entries;
    distinct = h.distinct;
    ordered = h.ordered;
    stored = h.stored;
    joined = λ s k.
        rw (snapped, get-apply reads w.view t k)
          (read_joined reads w.pending t rest k (get k w.view) (get k w.last)
            (rw (snapped, head) at (h.joined s k)));
    found_entries = h.found_entries;
    found_distinct = h.found_distinct;
    found_joined = λ n s k u f. cc;
    changed_joined = λ n s k c x. cc;
  }

  Reach-IsValid : {w : World} → Reach num to_string reads w → IsValid reads w
  Reach-IsValid here = record {
    entries = tt;
    distinct = tt;
    ordered = λ e. cc;
    stored = λ t p k. cc;
    joined = λ s k. cc;
    found_entries = tt;
    found_distinct = tt;
    found_joined = λ n s k u f. cc;
    changed_joined = λ n s k c x. cc;
  }
  Reach-IsValid (next r st) = Step-IsValid st (Reach-IsValid r)

  -- If the text of each event that the server makes shows its socket and whether it sets or clears
  -- the activity, and no receiver lags: once a client that has had its snapshot, taken while events are
  -- stored, has nothing left to read and no message waits to be broadcast, what it was sent adds up to
  -- exactly the remembered messages.
  pub view_converges :
      {w : World}
      → Reach num to_string reads w
      → w.snapped ≡ true
      → w.pending ≡ none
      → w.inbox ≡ []
      → (k : ℕ) → get k w.view ≡ get k w.last
  unfolding effects
  view_converges {w} r snapped idle empty k =
      let v = Reach-IsValid r in rw (snapped, idle, empty) at (v.joined (v.ordered snapped) k)
