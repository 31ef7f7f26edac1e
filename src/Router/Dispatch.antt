-- ===== src/Router/Dispatch.antt =====
-- router.go, matchAndDispatch: which handlers run for a message, and in which order.
use paho_mqtt_golang.Base.{
  ℕ, ◌+◌, ◌≡◌, ◌≢◌, ◌↔◌, ◌⊎◌, refl, ap, inl, inr, List, [], ◌∷◌, Bytes, Bool, true, false, Option,
  none, some, if◌then◌else◌, ◌||◌, ltb, length, All, Listed, arith,
}
use paho_mqtt_golang.Router.{
  Router, route_match, matching, handlers_for, or_default, Event, handled, acked, run_handlers,
  dispatch,
}

-- No route panics on the topic.
abbrev pub IsSafe : Bytes → List (Bytes × ℕ) → Type 0
IsSafe topic = All (λ (r : Bytes × ℕ). route_match r.0 topic ≢ none)

-- The handler `h` is the callback of a route that matches.
abbrev pub Routed : ℕ → Bytes → List (Bytes × ℕ) → Type 0
Routed h topic [] = ⊥
Routed h topic ((t, c) ∷ routes) =
    ((route_match t topic ≡ some true) × (c ≡ h)) ⊎ Routed h topic routes

abbrev Answers : Bytes → List (Bytes × ℕ) → Option (List ℕ) → Type 0
Answers topic routes r =
    (hs : List ℕ) × (r ≡ some hs) × ((h : ℕ) → Listed h hs ↔ Routed h topic routes)

matching_step :
    (topic t : Bytes) (c : ℕ) (routes : List (Bytes × ℕ)) (o : Option Bool)
    → route_match t topic ≡ o
    → o ≢ none
    → Answers topic routes (matching routes topic)
    → Answers topic ((t, c) ∷ routes) (matching ((t, c) ∷ routes) topic)
unfolding matching
matching_step topic t c routes none e ne a = absurd (ne refl)
matching_step topic t c routes (some true) e ne (hs, at, iff) =
    (c ∷ hs, ground arith, λ h. ground (arith, iff h))
matching_step topic t c routes (some false) e ne (hs, at, iff) =
    (hs, ground arith, λ h. ground (arith, iff h))

matching-Answers :
    (topic : Bytes) (routes : List (Bytes × ℕ))
    → IsSafe topic routes
    → Answers topic routes (matching routes topic)
matching-Answers topic [] s = ([], unfold matching in refl, λ h. ground arith)
matching-Answers topic ((t, c) ∷ routes) s =
    matching_step topic t c routes (route_match t topic) refl s.0
      (matching-Answers topic routes s.1)

-- Where no route panics, a message goes to the callbacks of the matching routes, to all of them and no
-- other, or, where no route matches, to the default handler if one is set and to none otherwise.
pub handlers_for_lem :
    (r : Router) (topic : Bytes)
    → IsSafe topic r.routes
    → (hs : List ℕ) × (handlers_for r topic ≡ some hs)
      × (((hs ≢ []) × ((h : ℕ) → Listed h hs ↔ Routed h topic r.routes))
          ⊎ (((h : ℕ) → ¬ Routed h topic r.routes) × (hs ≡ or_default r.default_handler [])))
unfolding handlers_for
handlers_for_lem r topic s = go (matching-Answers topic r.routes s)
  where
    go :
        Answers topic r.routes (matching r.routes topic)
        → (hs : List ℕ) × (handlers_for r topic ≡ some hs)
          × (((hs ≢ []) × ((h : ℕ) → Listed h hs ↔ Routed h topic r.routes))
              ⊎ (((h : ℕ) → ¬ Routed h topic r.routes) × (hs ≡ or_default r.default_handler [])))
    go ([], e, iff) =
        (or_default r.default_handler [], rw (e, handlers_for), inr (λ h x. (iff h).1 x, refl))
    go (c ∷ hs, e, iff) = (c ∷ hs, ground (arith, e), inl (λ x. cc, iff))

abbrev pub handled_of : List Event → List ℕ
handled_of [] = []
handled_of (handled h ∷ es) = h ∷ handled_of es
handled_of (acked ∷ es) = handled_of es

abbrev pub acks_of : List Event → ℕ
acks_of [] = 0
acks_of (handled h ∷ es) = acks_of es
acks_of (acked ∷ es) = acks_of es + 1

run_handlers_lem :
    (off once : Bool) (hs : List ℕ)
    → (handled_of (run_handlers off once hs) ≡ hs)
      × (acks_of (run_handlers off once hs)
          ≡ (if off || once then 0 else if ltb 0 (length hs) then 1 else 0))
unfolding run_handlers
run_handlers_lem true once [] = (refl, refl)
run_handlers_lem false true [] = (refl, refl)
run_handlers_lem false false [] = (refl, refl)
run_handlers_lem true once (h ∷ hs) =
    (ap (λ l. h ∷ l) (run_handlers_lem true once hs).0, (run_handlers_lem true once hs).1)
run_handlers_lem false true (h ∷ hs) =
    (ap (λ l. h ∷ l) (run_handlers_lem false true hs).0, (run_handlers_lem false true hs).1)
run_handlers_lem false false (h ∷ hs) = (
  ap (λ l. h ∷ l) (run_handlers_lem false true hs).0,
  ground (arith, (run_handlers_lem false true hs).1),
)

-- The loop calls the handlers of a message once each, in the order of the routes, and acknowledges the
-- message once, if it has a handler, unless that is disabled.
pub dispatch_lem :
    (r : Router) (off : Bool) (topic : Bytes) (hs : List ℕ)
    → handlers_for r topic ≡ some hs
    → (es : List Event) × (dispatch r off topic ≡ some es)
      × (handled_of es ≡ hs)
      × (acks_of es ≡ (if off || false then 0 else if ltb 0 (length hs) then 1 else 0))
unfolding dispatch
dispatch_lem r off topic hs e = (
  run_handlers off false hs,
  rw (e, dispatch),
  (run_handlers_lem off false hs).0,
  (run_handlers_lem off false hs).1,
)
