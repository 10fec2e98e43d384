-- ===== src/Tests/Bridge.antt =====
-- Tests of the bridge.
use Prim.Native.Char.{code}
use Prim.Native.String
use Prim.Native.String.append.{nil as append_nil, cons as append_cons}
use native.Mathlib.Nat.{pow-suc}
use dirpc.Json.{Value, null, bool, number, string, array, object, get as json_get}
use dirpc.Bridge.{bridge_msg, handle_event, opt_value, digit_text, decimal_loop, decimal}
use dirpc.Prelude.{
  ℕ, zero, suc, String, Bool, true, false, Option, none, some, is_some, List, [], ◌∷◌, ◌≡◌, refl,
  nat_eq, ◌==◌, string_eq, ◌<◌, ◌^◌, ◌+◌, ◌*◌, ◌-◌, ◌/◌, ◌%◌, ◌∙◌, sym, ap, ◌||◌, ltb, arith, subst,
  Bool-cases, inl, inr,
}
use dirpc.Prelude.Int.{ℤ}
use dirpc.Prelude.Assoc.{get, insert}
use dirpc.Types.{ActivityEvent}
use dirpc.Bridge.{Received, ok, lagged, new, feed}
use dirpc.Bridge.Client.{values}
use dirpc.Bridge.Feed.{delivered, last_event, remembered, feed_lem}
use dirpc.Bridge.Client.World.{
  IsObject, IsSendable, has_key, stored_last, World, start, apply, apply_all, Reach, here, next,
  store, send, subscribe, visit, snapshot, deliver,
}
use dirpc.Bridge.Client.Converge.{view_converges}
use dirpc.Bridge.Accept.{waiting, do_handshake}
use dirpc.Websocket.Handshake.{Upgrade, incomplete, chunk}
use dirpc.Tests.{integers, fixed_text, set_event, clear_event}

abbrev events : List (Received (ActivityEvent ℤ))
events = ok set_event ∷ lagged 2 ∷ ok clear_event ∷ ok set_event ∷ []

feed_lem_example :
    ((k : ℕ)
      → get k (feed integers fixed_text events new).last_msgs
        ≡ remembered (λ e. "{}") (last_event k (delivered events)) (get k new.last_msgs))
    × ((feed integers fixed_text events new).sent ≡ "{}" ∷ "{}" ∷ "{}" ∷ [])
feed_lem_example = feed_lem integers fixed_text (λ e. "{}") (λ e. refl) events new

-- A printer of the bridge's messages: a mark for the activity, and the text of the socket's id.
abbrev mark : Option (Value ℤ) → String → String
mark (some null) s = String.◌∷◌ "-" s
mark _ s = String.◌∷◌ "+" s

abbrev marked : Option (Value ℤ) → Option (Value ℤ) → Option String
marked a (some (string id)) = some (mark a id)
marked a _ = none

abbrev shown : Value ℤ → Option String
shown v = marked (json_get "activity" v) (json_get "socketId" v)

value : String → ℕ → ℕ
value String.[] acc = acc
value (String.◌∷◌ c s) acc = value s (acc * 10 + (code c - 48))

reads : String → Option (ℕ × Bool)
reads String.[] = none
reads (String.◌∷◌ c s) = some (value s 0, code c == 43)

value-append : (s t : String) (acc : ℕ) → value (String.◌++◌ s t) acc ≡ value t (value s acc)
unfolding value
value-append String.[] t acc = rw (append_nil t) refl
value-append (String.◌∷◌ c s) t acc =
    rw (append_cons c s t) (value-append s t (acc * 10 + (code c - 48)))

value-digit_text : (d acc : ℕ) → d < 10 → value (digit_text d) acc ≡ acc * 10 + d
unfolding value digit_text
value-digit_text zero acc h = refl
value-digit_text (suc zero) acc h = refl
value-digit_text (suc (suc zero)) acc h = refl
value-digit_text (suc (suc (suc zero))) acc h = refl
value-digit_text (suc (suc (suc (suc zero)))) acc h = refl
value-digit_text (suc (suc (suc (suc (suc zero))))) acc h = refl
value-digit_text (suc (suc (suc (suc (suc (suc zero)))))) acc h = refl
value-digit_text (suc (suc (suc (suc (suc (suc (suc zero))))))) acc h = refl
value-digit_text (suc (suc (suc (suc (suc (suc (suc (suc zero)))))))) acc h = refl
value-digit_text (suc (suc (suc (suc (suc (suc (suc (suc (suc zero))))))))) acc h = refl
value-digit_text (suc (suc (suc (suc (suc (suc (suc (suc (suc (suc d)))))))))) acc h =
    absurd (omega arith)

value-decimal_loop : (fuel n : ℕ) → n < 10 ^ fuel → value (decimal_loop fuel n) 0 ≡ n
unfolding decimal_loop
value-decimal_loop zero n h = unfold value in omega arith
value-decimal_loop (suc fuel) n h = elim (Bool-cases (ltb n 10)) [
  | inl e ↦ rw e (value-digit_text n 0 (ground arith) ∙ omega arith)
  | inr e ↦
      rw
        (
          e,
          value-append (decimal_loop fuel (n / 10)) (digit_text (n % 10)) 0,
          value-decimal_loop fuel (n / 10) (omega (arith, pow-suc 10 fuel)),
        )
        (value-digit_text (n % 10) (n / 10) (omega arith) ∙ omega arith)
]

reads-mark :
    (a : Option (Value ℤ)) (n : ℕ)
    → IsObject integers a
    → n < 2 ^ 64
    → reads (mark (some (opt_value integers a)) (decimal n)) ≡ some (n, is_some a)
unfolding reads decimal
reads-mark none n o h = rw (value-decimal_loop 20 n (omega arith)) refl
reads-mark (some (object m)) n o h = rw (value-decimal_loop 20 n (omega arith)) refl
reads-mark (some null) n o h = absurd o
reads-mark (some (bool b)) n o h = absurd o
reads-mark (some (number x)) n o h = absurd o
reads-mark (some (string t)) n o h = absurd o
reads-mark (some (array vs)) n o h = absurd o

reads-shown :
    (e : ActivityEvent ℤ) (t : String)
    → IsSendable integers e
    → shown (bridge_msg integers e) ≡ some t
    → reads t ≡ some (e.socket_id, is_some e.activity)
unfolding bridge_msg dirpc.Json.lookup
reads-shown e t (below, o) h =
    subst (λ u. reads u ≡ some (e.socket_id, is_some e.activity)) (some-inj h)
      (reads-mark e.activity e.socket_id o below)
  where
    some-inj : {x y : String} → ◌≡◌ {A = Option String} (some x) (some y) → x ≡ y
    some-inj q = cc

-- A client that subscribes while a message is remembered and not yet broadcast, and finds it in the map:
-- it is sent the message twice.
abbrev stored : World
stored = record start {
  last = stored_last integers shown reads set_event start;
  pending = some "+3";
  changed = 3 ∷ [];
}

abbrev subscribed : World
subscribed = record stored { subscribed = true; inbox = []; found = []; changed = [] }

abbrev visited : World
visited = record subscribed { found = insert 3 "+3" [] }

abbrev sent : World
sent = record visited { pending = none; inbox = "+3" ∷ [] }

abbrev snapped : World
snapped = record sent { snapped = true; view = apply_all reads [] (values sent.found) }

abbrev delivered_twice : World
delivered_twice = record snapped { inbox = []; view = apply reads snapped.view "+3" }

says : shown (bridge_msg integers set_event) ≡ some "+3"
unfolding bridge_msg decimal dirpc.Json.lookup
says = refl

remembers : stored.last ≡ insert 3 "+3" []
unfolding handle_event bridge_msg decimal dirpc.Json.lookup insert
remembers = refl

there : get 3 subscribed.last ≡ some "+3"
unfolding get insert
there = ap (get 3) remembers

complete :
    (k : ℕ) (t : String)
    → get k sent.last ≡ some t
    → (is_some (get k sent.found) || has_key k sent.changed) ≡ true
complete k t e = ap (λ m. is_some (get k m) || false) (sym remembers) ∙ rw e refl

delivered_twice-Reach : Reach integers shown reads delivered_twice
delivered_twice-Reach =
    let a : Reach integers shown reads stored =
      next here (store set_event "+3" (omega arith, tt) says refl) in
    let b : Reach integers shown reads subscribed = next a (subscribe refl) in
    let c : Reach integers shown reads visited = next b (visit 3 "+3" refl refl there) in
    let d : Reach integers shown reads sent = next c (send "+3" refl) in
    let e : Reach integers shown reads snapped = next d (snapshot refl refl complete) in
    next e (deliver "+3" [] refl refl)

view_converges_example : get 3 delivered_twice.view ≡ get 3 delivered_twice.last
view_converges_example =
    view_converges integers shown reads reads-shown {w = delivered_twice} delivered_twice-Reach refl
      refl refl 3

-- No request is ever complete.
abbrev endless : Upgrade
endless = record {
  parse_request = λ b. incomplete;
  response_to = λ key. [];
  write_ok = λ written b. true;
  flush_ok = λ written. true;
}

still_waiting :
    do_handshake endless (chunk (b'x' ∷ []) ∷ chunk (b'y' ∷ []) ∷ []) []
    ≡ waiting (b'x' ∷ b'y' ∷ [])
unfolding do_handshake
still_waiting = refl
