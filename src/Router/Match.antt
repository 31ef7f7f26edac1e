-- ===== src/Router/Match.antt =====
-- The rules of MQTT for topic filters, beside the matching of the router.
use paho_mqtt_golang.Base.{
  ℕ, ◌≡◌, ◌↔◌, ◌⊎◌, refl, ap, inl, inr, List, [], ◌∷◌, Bytes, true, Bool-cases, none, some, str_eq,
  str_eq_iff, str_eq_self, arith,
}
use paho_mqtt_golang.Topic.{split, validate_topic_and_qos}
use paho_mqtt_golang.Topic.Levels.{IsFilter, validate_topic_and_qos_iff}
use paho_mqtt_golang.Router.{
  hash, plus, share, match_levels, begins_with_dollar, is_unmatched_wildcard_filter, has_prefix,
  skip_two, route_split, route_includes_topic, route_match,
}

-- Section 4.7 of the standard: `#` stands for any levels, also none; `+` for any one level.
pub data Matches : List Bytes → List Bytes → Type 0 where
  both_end : Matches [] []
  multi_level : (topic : List Bytes) → Matches (hash ∷ []) topic
  single_level :
      (t : Bytes) (route topic : List Bytes)
      → Matches route topic
      → Matches (plus ∷ route) (t ∷ topic)
  same_level :
      (t : Bytes) (route topic : List Bytes) → Matches route topic → Matches (t ∷ route) (t ∷ topic)

-- A filter with `#` in its first level consists of it.
only_hash :
    (r : Bytes) (route : List Bytes)
    → IsFilter (r ∷ route)
    → str_eq r hash ≡ true
    → r ∷ route ≡ hash ∷ []
only_hash r [] f h = ap (λ l. l ∷ []) ((str_eq_iff r hash).0 h)
only_hash r (k ∷ route) f h = cc (f.0, h)

IsFilter-tail : (r : Bytes) (route : List Bytes) → IsFilter (r ∷ route) → IsFilter route
IsFilter-tail r [] f = tt
IsFilter-tail r (k ∷ route) f = f.1

match_levels-Matches :
    (route topic : List Bytes)
    → IsFilter route
    → match_levels route topic ≡ true
    → Matches route topic
unfolding match_levels
match_levels-Matches [] [] f h = both_end
match_levels-Matches [] (t ∷ topic) f h = cc
match_levels-Matches (r ∷ route) [] f h = rw (only_hash r route f h) (multi_level [])
match_levels-Matches (r ∷ route) (t ∷ topic) f h = elim (Bool-cases (str_eq r hash)) [
  | inl multi ↦ rw (only_hash r route f multi) (multi_level (t ∷ topic))
  | inr one ↦ elim (Bool-cases (str_eq r plus)) [
    | inl single ↦ rw ((str_eq_iff r plus).0 single) (
        single_level t route topic
          (match_levels-Matches route topic (IsFilter-tail r route f) (ground arith)))
    | inr named ↦ elim (Bool-cases (str_eq r t)) [
      | inl same ↦ rw ((str_eq_iff r t).0 same) (
          same_level t route topic
            (match_levels-Matches route topic (IsFilter-tail r route f) (ground arith)))
      | inr other ↦ ground arith
    ]
  ]
]

match_levels_of_Matches :
    (route topic : List Bytes) → Matches route topic → match_levels route topic ≡ true
unfolding match_levels
match_levels_of_Matches _ _ both_end = refl
match_levels_of_Matches _ _ (multi_level []) = str_eq_self hash
match_levels_of_Matches _ _ (multi_level (t ∷ topic)) = rw (str_eq_self hash) refl
match_levels_of_Matches _ _ (single_level t route topic m) =
    ground (arith, str_eq_self plus, match_levels_of_Matches route topic m)
match_levels_of_Matches _ _ (same_level t route topic m) =
    ground (arith, str_eq_self t, match_levels_of_Matches route topic m)

-- A filter that begins with a wildcard over a topic that begins with a dollar.
abbrev pub Excluded : List Bytes → List Bytes → Type 0
Excluded (r ∷ _) (t ∷ _) = ((r ≡ hash) ⊎ (r ≡ plus)) × (begins_with_dollar t ≡ true)
Excluded _ _ = ⊥

is_unmatched_wildcard_filter_iff :
    (route topic : List Bytes)
    → (is_unmatched_wildcard_filter route topic ≡ true) ↔ Excluded route topic
unfolding is_unmatched_wildcard_filter
is_unmatched_wildcard_filter_iff [] topic = ground arith
is_unmatched_wildcard_filter_iff (r ∷ route) [] = ground arith
is_unmatched_wildcard_filter_iff (r ∷ route) (t ∷ topic) =
    ground (arith, str_eq_iff r hash, str_eq_iff r plus, str_eq_iff r [], str_eq_iff t [])

IsFilter-skip_two :
    (ls levels : List Bytes) → skip_two ls ≡ some levels → IsFilter ls → IsFilter levels
IsFilter-skip_two [] levels e f = cc
IsFilter-skip_two (a ∷ []) levels e f = cc
IsFilter-skip_two (a ∷ b ∷ ls) levels e f =
    let same : ls ≡ levels = ground arith in
    rw same at (IsFilter-tail b ls (IsFilter-tail a (b ∷ ls) f))

IsFilter-route_split :
    (route : Bytes) (levels : List Bytes)
    → IsFilter (split route)
    → route_split route ≡ some levels
    → IsFilter levels
unfolding route_split
IsFilter-route_split route levels f e = elim (Bool-cases (has_prefix route share)) [
  | inl shared ↦ IsFilter-skip_two (split route) levels (ground arith) f
  | inr plain ↦ let same : split route ≡ levels = ground arith in rw same at f
]

-- For a filter that `validateTopicAndQos` accepts and whose levels, as `routeSplit` takes them, are
-- `levels`: the route matches a topic exactly if both are the same text, or if the levels match those of
-- the topic by the rules of the standard and no wildcard meets a leading dollar.
pub route_match_iff :
    (route topic : Bytes) (qos : ℕ) (levels : List Bytes)
    → validate_topic_and_qos route qos ≡ none
    → route_split route ≡ some levels
    → (route_match route topic ≡ some true)
      ↔ ((route ≡ topic) ⊎ (Matches levels (split topic) × ¬ Excluded levels (split topic)))
unfolding route_match route_includes_topic
route_match_iff route topic qos levels v e =
    let f = IsFilter-route_split route levels ((validate_topic_and_qos_iff route qos).0 v).1 e in
    ground (
      arith,
      str_eq_iff route topic,
      is_unmatched_wildcard_filter_iff levels (split topic),
      match_levels-Matches levels (split topic) f,
      match_levels_of_Matches levels (split topic),
    )
