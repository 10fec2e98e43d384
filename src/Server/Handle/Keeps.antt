-- ===== src/Server/Handle/Keeps.antt =====
-- What the effects of one socket's round leave as it is.
use dirpc.Prelude.{
  ℕ, String, Bool, false, Option, none, some, is_some, List, [], ◌∷◌, ◌==◌, nat_eq, ==_refl, ◌≡◌,
  ◌∙◌, sym, ap, subst, Option-cases, inl, inr,
}
use dirpc.Prelude.Assoc.{get, insert, get-insert}
use dirpc.Types.{ActivityEvent}
use dirpc.Bridge.Feed.{last_event, last_event_others}
use dirpc.Server.State.{ServerState, Channel, try_send, broadcast, send_to_socket, pop}
use dirpc.Server.Handle.Closed.{IsClosed}

module _ {N : Type 0} (id : ℕ) where
  -- A text that is popped leaves a channel with the rest.
  popped :
      (c : Channel) (q : List String) (s s' : ServerState N) (msg : String)
      → pop id c q s ≡ some (msg, s')
      → (rest : List String) × (record s {
        sockets = insert id (record c { queue = rest }) s.sockets;
      }
          ≡ s')
  unfolding pop
  popped c [] s s' msg e = cc
  popped c (m ∷ q) s s' msg e = (q, cc)

  send_cases :
      (msg : String) (s : ServerState N) (P : ServerState N → Type 0)
      → (get id s.sockets ≡ none → P s)
      → ((c : Channel)
          → get id s.sockets ≡ some c
          → P (record s { sockets = insert id (try_send c msg) s.sockets }))
      → P (send_to_socket id msg s)
  send_cases msg s P absent present = elim (Option-cases (get id s.sockets)) [
    | inl e ↦ unfold send_to_socket in rw (e, send_to_socket) (absent e)
    | inr (c, e) ↦ unfold send_to_socket in rw (e, send_to_socket) (present c e)
  ]

  -- No other socket is touched.
  pub others-IsClosed :
      (j : ℕ)
      → (id == j) ≡ false
      → (o : Option Channel) → IsClosed {N = N} id (λ s. get j s.sockets ≡ o)
  others-IsClosed j other o = record {
    emits = λ s e own p. unfold broadcast in p;
    sends = λ s msg p.
        send_cases msg s (λ t. get j t.sockets ≡ o) (λ _. p)
          (λ c e. rw (get-insert id j (try_send c msg) s.sockets, other) p);
    pops = λ s s' c msg g e p.
        let (rest, same) = popped c c.queue s s' msg e in
        subst (λ t. get j t.sockets ≡ o) same
          (rw (get-insert id j (record c { queue = rest }) s.sockets, other) p);
  }

  -- The socket is registered or not, as it was.
  abbrev pub Registered : Bool → ServerState N → Type 0
  Registered b s = is_some (get id s.sockets) ≡ b

  pub Registered-IsClosed : (b : Bool) → IsClosed {N = N} id (Registered b)
  Registered-IsClosed b = record {
    emits = λ s e own p. unfold broadcast in p;
    sends = λ s msg p.
        send_cases msg s (Registered b) (λ _. p)
          (λ c e.
            rw (get-insert id id (try_send c msg) s.sockets, ==_refl id)
              (sym (ap (λ o. is_some o) e) ∙ p));
    pops = λ s s' c msg g e p.
        let (rest, same) = popped c c.queue s s' msg e in
        subst (Registered b) same (
          rw (get-insert id id (record c { queue = rest }) s.sockets, ==_refl id)
            (sym (ap (λ o. is_some o) g) ∙ p));
  }

  -- No id is given.
  pub next-IsClosed : (n : ℕ) → IsClosed {N = N} id (λ s. s.next_socket_id ≡ n)
  next-IsClosed n = record {
    emits = λ s e own p. unfold broadcast in p;
    sends = λ s msg p. send_cases msg s (λ t. t.next_socket_id ≡ n) (λ _. p) (λ c e. p);
    pops = λ s s' c msg g e p.
        let (rest, same) = popped c c.queue s s' msg e in subst (λ t. t.next_socket_id ≡ n) same p;
  }

  -- No event carries another socket's id.
  pub events-IsClosed :
      (j : ℕ)
      → (id == j) ≡ false
      → (o : Option (ActivityEvent N)) → IsClosed {N = N} id (λ s. last_event j s.sent ≡ o)
  events-IsClosed j other o = record {
    emits = λ s e own p.
        unfold broadcast in last_event_others s.sent e j (ap (λ k. k == j) own ∙ other) ∙ p;
    sends = λ s msg p. send_cases msg s (λ t. last_event j t.sent ≡ o) (λ _. p) (λ c e. p);
    pops = λ s s' c msg g e p.
        let (rest, same) = popped c c.queue s s' msg e in
        subst (λ t. last_event j t.sent ≡ o) same p;
  }
