-- ===== src/Topic/Tests.antt =====
-- Topic filters.
use paho_mqtt_golang.Base.{◌≡◌, ◌≢◌, ◌↔◌, ◌≤◌, refl, [], ◌∷◌, codes, none, some, str_eq}
use paho_mqtt_golang.Topic.{split, validate_topic_and_qos, check_levels, multilevel}
use paho_mqtt_golang.Topic.Levels.{IsFilter, validate_topic_and_qos_iff}

split_two : split (codes "a//b") ≡ codes "a" ∷ [] ∷ codes "b" ∷ []
unfolding split
split_two = refl

validate_inner : validate_topic_and_qos (codes "a/#/b") 0 ≡ some multilevel
unfolding validate_topic_and_qos split check_levels str_eq
validate_inner = refl

validate_topic_and_qos_iff_example :
    (validate_topic_and_qos (codes "a/#") 2 ≡ none)
    ↔ ((codes "a/#" ≢ []) × IsFilter (split (codes "a/#")) × (2 ≤ 2))
validate_topic_and_qos_iff_example = validate_topic_and_qos_iff (codes "a/#") 2
