-- ===== src/Router/Routes.antt =====
-- router.go: the list of routes as a map from topics to callbacks.
use paho_mqtt_golang.Base.{
  ℕ, ◌≡◌, refl, List, [], ◌∷◌, Bytes, none, some, if◌then◌else◌, str_eq, str_eq_iff, arith,
  Bool-cases, inl, inr,
}
use paho_mqtt_golang.Base.Assoc.{lookup, bytes_eq, Distinct}
use paho_mqtt_golang.Router.{Router, put_route, add_route, remove_route, delete_route}

lookup-put_route :
    (t s : Bytes) (c : ℕ) (m : List (Bytes × ℕ))
    → lookup s (put_route t c m) ≡ (if str_eq t s then some c else lookup s m)
unfolding lookup put_route
lookup-put_route t s c [] = refl
lookup-put_route t s c ((k, d) ∷ m) =
    ground (arith, str_eq_iff k t, str_eq_iff k s, str_eq_iff t s, lookup-put_route t s c m)

put_route-Distinct :
    (t : Bytes) (c : ℕ) (m : List (Bytes × ℕ)) → Distinct m → Distinct (put_route t c m)
unfolding put_route
put_route-Distinct t c [] d = (unfold lookup in refl, tt)
put_route-Distinct t c ((k, v) ∷ m) d = elim (Bool-cases (str_eq k t)) [
  | inl same ↦ rw same d
  | inr other ↦ rw other (
    ground (arith, str_eq_iff k t, str_eq_iff t k, lookup-put_route t k c m, d.0),
    put_route-Distinct t c m d.1,
  )
]

lookup-remove_route :
    (t s : Bytes) (m : List (Bytes × ℕ))
    → Distinct m
    → lookup s (remove_route t m) ≡ (if str_eq t s then none else lookup s m)
unfolding lookup remove_route
lookup-remove_route t s [] d = ground arith
lookup-remove_route t s ((k, v) ∷ m) d =
    ground
      (arith, str_eq_iff k t, str_eq_iff k s, str_eq_iff t s, d.0, lookup-remove_route t s m d.1)

remove_route-Distinct :
    (t : Bytes) (m : List (Bytes × ℕ)) → Distinct m → Distinct (remove_route t m)
unfolding remove_route
remove_route-Distinct t [] d = d
remove_route-Distinct t ((k, v) ∷ m) d = elim (Bool-cases (str_eq k t)) [
  | inl same ↦ rw same d.1
  | inr other ↦
      rw other (ground (arith, lookup-remove_route t k m d.1, d.0), remove_route-Distinct t m d.1)
]

-- Where each topic has at most one route, `addRoute` sets the callback of its topic and of no other,
-- and each topic still has at most one route.
pub add_route_lem :
    (topic other : Bytes) (callback : ℕ) (r : Router)
    → Distinct r.routes
    → Distinct (add_route topic callback r).routes
      × (lookup other (add_route topic callback r).routes
          ≡ (if str_eq topic other then some callback else lookup other r.routes))
unfolding add_route
add_route_lem topic other callback r d =
    (put_route-Distinct topic callback r.routes d, lookup-put_route topic other callback r.routes)

-- Where each topic has at most one route, `deleteRoute` leaves none for its topic, and does not touch
-- the others.
pub delete_route_lem :
    (topic other : Bytes) (r : Router)
    → Distinct r.routes
    → Distinct (delete_route topic r).routes
      × (lookup other (delete_route topic r).routes
          ≡ (if str_eq topic other then none else lookup other r.routes))
unfolding delete_route
delete_route_lem topic other r d =
    (remove_route-Distinct topic r.routes d, lookup-remove_route topic other r.routes d)
