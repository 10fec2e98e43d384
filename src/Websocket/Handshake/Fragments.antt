-- ===== src/Websocket/Handshake/Fragments.antt =====
-- How the client's bytes are cut into reads makes no difference to the WebSocket handshake.
use dirpc.Prelude.{
  ◌≤◌, false, Bytes, List, [], ◌∷◌, ◌++◌, append_assoc, append-nil, length, length-append, ltb, ◌≡◌,
  ◌∙◌, refl, sym, ap, arith,
}
use dirpc.Websocket.{max_ws_handshake_bytes}
use dirpc.Websocket.Handshake.{
  Upgrade, incomplete, Read, read_error, chunk, Outcome, is_empty, received, do_handshake,
}
use dirpc.Websocket.Handshake.Allowed.{joined}

-- Reads that all bring some bytes.
abbrev pub AllFull : List Read → Type 0
AllFull [] = Unit
AllFull (read_error ∷ rs) = ⊥
AllFull (chunk s ∷ rs) = (is_empty s ≡ false) × AllFull rs

module _ (up : Upgrade) where
  -- No proper prefix of the bytes that is longer than `buf` is a request yet.
  abbrev pub IncompleteUntil : Bytes → Bytes → Type 0
  IncompleteUntil buf all =
      (p s : Bytes)
      → is_empty s ≡ false
      → buf ++ all ≡ (buf ++ p) ++ s
      → up.parse_request (buf ++ p) ≡ incomplete

  joined-full : (r : Read) (rs : List Read) → AllFull (r ∷ rs) → is_empty (joined (r ∷ rs)) ≡ false
  joined-full read_error rs h = absurd h
  joined-full (chunk []) rs h = cc
  joined-full (chunk (b ∷ s)) rs h = refl

  received-incomplete :
      (buf : Bytes) (w : List Bytes) (rest : Outcome × List Bytes)
      → length buf ≤ max_ws_handshake_bytes
      → up.parse_request buf ≡ incomplete
      → received up buf w rest ≡ rest
  unfolding received
  received-incomplete buf w rest small e =
      let f : ltb max_ws_handshake_bytes (length buf) ≡ false = ground arith in rw (f, e)

  step :
      (s : Bytes) (rs : List Read) (buf : Bytes) (w : List Bytes)
      → is_empty s ≡ false
      → do_handshake up (chunk s ∷ rs) buf w
        ≡ received up (buf ++ s) w (do_handshake up rs (buf ++ s) w)
  unfolding do_handshake
  step s rs buf w full = rw full

  -- The answer to all the bytes at once.
  at_once : Bytes → List Bytes → Outcome × List Bytes
  at_once buf w = received up buf w (do_handshake up [] buf w)

  is_empty-append : (s t : Bytes) → is_empty s ≡ false → is_empty (s ++ t) ≡ false
  is_empty-append [] t h = cc
  is_empty-append (b ∷ s) t h = refl

  IncompleteUntil-later :
      (buf s all : Bytes) → IncompleteUntil buf (s ++ all) → IncompleteUntil (buf ++ s) all
  IncompleteUntil-later buf s all inc p t full e =
      let assoc : (buf ++ s) ++ p ≡ buf ++ (s ++ p) = append_assoc buf s p in
      let whole : buf ++ (s ++ all) ≡ (buf ++ (s ++ p)) ++ t =
        sym (append_assoc buf s all) ∙ e ∙ ap (λ b. b ++ t) assoc in
      rw assoc (inc (s ++ p) t full whole)

  small-front :
      (buf s t : Bytes)
      → length (buf ++ (s ++ t)) ≤ max_ws_handshake_bytes
      → length (buf ++ s) ≤ max_ws_handshake_bytes
  small-front buf s t h =
      omega (arith, length-append buf (s ++ t), length-append s t, length-append buf s)

  at_once-reads :
      (r : Read) (rs : List Read) (buf : Bytes) (w : List Bytes)
      → AllFull (r ∷ rs)
      → length (buf ++ joined (r ∷ rs)) ≤ max_ws_handshake_bytes
      → IncompleteUntil buf (joined (r ∷ rs))
      → do_handshake up (r ∷ rs) buf w ≡ at_once (buf ++ joined (r ∷ rs)) w
  unfolding at_once
  at_once-reads read_error rs buf w full small inc = absurd full
  at_once-reads (chunk s) [] buf w (full, _) small inc = step s [] buf w full ∙ rw (append-nil s)
  at_once-reads (chunk s) (r ∷ rs) buf w (full, more) small inc =
      let assoc = append_assoc buf s (joined (r ∷ rs)) in
      step s (r ∷ rs) buf w full
      ∙ received-incomplete (buf ++ s) w (do_handshake up (r ∷ rs) (buf ++ s) w)
          (small-front buf s (joined (r ∷ rs)) small)
          (inc s (joined (r ∷ rs)) (joined-full r rs more) (sym assoc))
      ∙ at_once-reads r rs (buf ++ s) w more (rw assoc small)
          (IncompleteUntil-later buf s (joined (r ∷ rs)) inc)
      ∙ ap (λ b. at_once b w) assoc

  -- A request of at most 16384 bytes is answered the same way whether it arrives in one read or cut
  -- into several, where no read is empty and no proper prefix of it is a request or malformed.
  pub do_handshake_fragments :
      (r : Read) (rs : List Read)
      → AllFull (r ∷ rs)
      → length (joined (r ∷ rs)) ≤ max_ws_handshake_bytes
      → IncompleteUntil [] (joined (r ∷ rs))
      → do_handshake up (r ∷ rs) [] [] ≡ do_handshake up (chunk (joined (r ∷ rs)) ∷ []) [] []
  unfolding at_once
  do_handshake_fragments r rs full small inc =
      at_once-reads r rs [] [] full small inc
      ∙ sym (step (joined (r ∷ rs)) [] [] [] (joined-full r rs full))
