-- ===== src/Topic.antt =====
-- topic.go: the levels of a topic, and the validation of topic filters.
pub mod Levels
mod Tests
use paho_mqtt_golang.Base.{
  ℕ, ◌+◌, ◌-◌, List, [], ◌∷◌, ◌++◌, Bytes, codes, not, ◌&&◌, Option, none, some, if◌then◌else◌, ltb,
  ◌==◌, length, str_eq,
}

-- `c` in front of the first string.
abbrev pub onto_first : ℕ → List Bytes → List Bytes
onto_first c [] = (c ∷ []) ∷ []
onto_first c (l ∷ ls) = (c ∷ l) ∷ ls

-- `strings.Split(s, "/")`.
unfoldable pub split : Bytes → List Bytes
split [] = [] ∷ []
split (c ∷ s) = let rest = split s in if c == 47 then [] ∷ rest else onto_first c rest

pub data TopicError : Type 0 where
  invalid_qos empty_string multilevel empty_map : TopicError

-- The loop over the levels, from the index `i`, of `n` levels in all.
unfoldable pub check_levels : ℕ → ℕ → List Bytes → Option TopicError
check_levels n i [] = none
check_levels n i (level ∷ levels) =
    let rest = check_levels n (i + 1) levels in
    if str_eq level (codes "#") && not (i == n - 1) then some multilevel else rest

-- `none` is a nil error.
unfoldable pub validate_topic_and_qos : Bytes → ℕ → Option TopicError
validate_topic_and_qos topic qos =
    if length topic == 0
    then some empty_string
    else elim (check_levels (length (split topic)) 0 (split topic)) [
      | some e ↦ some e
      | none ↦ if ltb 2 qos then some invalid_qos else none
    ]

pub data Validated : Type 0 where
  valid : List Bytes → Bytes → Validated
  invalid : TopicError → Validated

-- The loop over the map, in the order in which the range visits it.
unfoldable pub validate_entries : List (Bytes × ℕ) → List Bytes → Bytes → Validated
validate_entries [] topics qoss = valid topics qoss
validate_entries ((topic, qos) ∷ subs) topics qoss =
    let rest = validate_entries subs (topics ++ (topic ∷ [])) (qoss ++ (qos ∷ [])) in
    elim (validate_topic_and_qos topic qos) [ some e ↦ invalid e | none ↦ rest ]

unfoldable pub validate_subscribe_map : List (Bytes × ℕ) → Validated
validate_subscribe_map [] = invalid empty_map
validate_subscribe_map (sub ∷ subs) = validate_entries (sub ∷ subs) [] []
