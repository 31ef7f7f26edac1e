-- ===== src/Router/Tests.antt =====
-- Routes with wildcards, and one that is a shared subscription.
use paho_mqtt_golang.Base.{
  Listed, ℕ, ◌≡◌, ◌≢◌, ◌↔◌, ◌⊎◌, refl, List, [], ◌∷◌, Bytes, codes, true, none, some, str_eq, arith,
}
use paho_mqtt_golang.Base.Assoc.{bytes_eq}
use paho_mqtt_golang.Topic.{split, validate_topic_and_qos, check_levels}
use paho_mqtt_golang.Router.{
  Router, route_match, route_includes_topic, route_split, has_prefix, match_levels,
  is_unmatched_wildcard_filter, matching, handlers_for,
}
use paho_mqtt_golang.Router.Match.{Matches, Excluded, route_match_iff}
use paho_mqtt_golang.Router.Shared.{route_split_lem, route_match_panics}
use paho_mqtt_golang.Router.Dispatch.{IsSafe, Routed, handlers_for_lem}

abbrev routes : List (Bytes × ℕ)
routes = (codes "a/#", 1) ∷ (codes "$share/g/a/+", 2) ∷ (codes "b", 3) ∷ []

abbrev router : Router
router = record { routes = routes; default_handler = some 9 }

handlers_for-both : handlers_for router (codes "a/x") ≡ some (1 ∷ 2 ∷ [])
unfolding handlers_for matching route_match route_includes_topic route_split has_prefix split
    match_levels is_unmatched_wildcard_filter str_eq
handlers_for-both = refl

handlers_for-default : handlers_for router (codes "$sys") ≡ some (9 ∷ [])
unfolding handlers_for matching route_match route_includes_topic route_split has_prefix split
    match_levels is_unmatched_wildcard_filter str_eq
handlers_for-default = refl

route_match_iff_example : (route_match (codes "a/#") (codes "a") ≡ some true) ↔ (
    (codes "a/#" ≡ codes "a")
    ⊎ (Matches (codes "a" ∷ codes "#" ∷ []) (split (codes "a"))
        × ¬ Excluded (codes "a" ∷ codes "#" ∷ []) (split (codes "a"))))
unfolding validate_topic_and_qos check_levels split str_eq route_split has_prefix
route_match_iff_example =
    route_match_iff (codes "a/#") (codes "a") 1 (codes "a" ∷ codes "#" ∷ []) refl refl

route_split-shared :
    (route_split (codes "$share/g/a/+") ≡ some (split (codes "a/+")))
    × (route_split (codes "a") ≡ some (split (codes "a")))
unfolding has_prefix
route_split-shared = route_split_lem (codes "g") (codes "a/+") (codes "a") (omega arith, tt) refl

-- A filter that is valid, and that the server may take.
route_match_panics_example : route_match (codes "$shared") (codes "a") ≡ none
unfolding has_prefix
route_match_panics_example =
    route_match_panics (codes "$shared") (codes "a") refl (ground arith) (λ e. cc)

validate-shared : validate_topic_and_qos (codes "$shared") 0 ≡ none
unfolding validate_topic_and_qos check_levels split str_eq
validate-shared = refl

router-IsSafe : IsSafe (codes "a/x") router.routes
unfolding route_match route_includes_topic route_split has_prefix split match_levels
    is_unmatched_wildcard_filter str_eq
router-IsSafe = (λ e. cc, (λ e. cc, (λ e. cc, tt)))

handlers_for_lem_example :
    (hs : List ℕ) × (handlers_for router (codes "a/x") ≡ some hs)
    × (((hs ≢ []) × ((h : ℕ) → Listed h hs ↔ Routed h (codes "a/x") router.routes))
        ⊎ (((h : ℕ) → ¬ Routed h (codes "a/x") router.routes) × (hs ≡ 9 ∷ [])))
handlers_for_lem_example = handlers_for_lem router (codes "a/x") router-IsSafe
