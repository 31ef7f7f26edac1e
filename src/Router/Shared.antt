-- ===== src/Router/Shared.antt =====
-- router.go: shared subscriptions, `$share/name/filter`, and texts that only begin like one.
use paho_mqtt_golang.Base.{
  ◌≡◌, ◌≢◌, refl, [], ◌∷◌, ◌++◌, Bytes, codes, true, false, none, some, str_eq_iff, All, arith,
}
use paho_mqtt_golang.Topic.{split}
use paho_mqtt_golang.Router.{share, has_prefix, route_split, route_includes_topic, route_match}

-- A text with no separator.
abbrev pub IsLevel : Bytes → Type 0
IsLevel = All (λ c. c ≢ 47)

split-IsLevel : (s : Bytes) → IsLevel s → split s ≡ s ∷ []
unfolding split
split-IsLevel [] h = refl
split-IsLevel (c ∷ s) h = ground (arith, split-IsLevel s h.1)

-- The first level ends at the first separator.
pub split-append : (s t : Bytes) → IsLevel s → split (s ++ (47 ∷ t)) ≡ s ∷ split t
unfolding split
split-append [] t h = refl
split-append (c ∷ s) t h = ground (arith, split-append s t h.1)

-- The filter of a shared subscription is what follows the name of the share; one that does not begin
-- with `$share` is taken as it is.
pub route_split_lem :
    (name filter route : Bytes)
    → IsLevel name
    → has_prefix route share ≡ false
    → (route_split (codes "$share/" ++ (name ++ (47 ∷ filter))) ≡ some (split filter))
      × (route_split route ≡ some (split route))
unfolding route_split has_prefix split
route_split_lem name filter route h plain = (rw (split-append name filter h) refl, rw plain refl)

-- A route that begins with `$share` and has no separator makes the router panic on every topic but
-- its own text.
pub route_match_panics :
    (route topic : Bytes)
    → has_prefix route share ≡ true
    → IsLevel route
    → route ≢ topic
    → route_match route topic ≡ none
unfolding route_match route_includes_topic route_split
route_match_panics route topic p h ne =
    ground (arith, str_eq_iff route topic, split-IsLevel route h)
