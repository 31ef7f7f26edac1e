-- ===== src/Topic/Levels.antt =====
-- topic.go: the filters that are valid.
use paho_mqtt_golang.Base.{
  ℕ, ◌+◌, ◌≤◌, ◌≡◌, ◌≢◌, ◌↔◌, refl, List, [], ◌∷◌, Bytes, codes, false, none, length, str_eq, arith,
}
use paho_mqtt_golang.Topic.{split, check_levels, validate_topic_and_qos}

-- The multi-level wildcard stands in the last level at most.
abbrev pub IsFilter : List Bytes → Type 0
IsFilter [] = Unit
IsFilter (l ∷ []) = Unit
IsFilter (l ∷ k ∷ ls) = (str_eq l (codes "#") ≡ false) × IsFilter (k ∷ ls)

check_levels-IsFilter :
    (ls : List Bytes) (n i : ℕ) → i + length ls ≡ n → (check_levels n i ls ≡ none) ↔ IsFilter ls
unfolding check_levels
check_levels-IsFilter [] n i e = (λ _. tt, λ _. refl)
check_levels-IsFilter (l ∷ []) n i e = ground arith
check_levels-IsFilter (l ∷ k ∷ ls) n i e = ground (arith, check_levels-IsFilter (k ∷ ls) n (i + 1))

-- A topic filter and QoS are valid exactly if the filter is not empty, `#` is the last level only, and
-- the QoS is at most 2; nothing else is asked, neither a length of at most 65535 bytes nor UTF-8.
pub validate_topic_and_qos_iff :
    (topic : Bytes) (qos : ℕ)
    → (validate_topic_and_qos topic qos ≡ none)
      ↔ ((topic ≢ []) × IsFilter (split topic) × (qos ≤ 2))
unfolding validate_topic_and_qos
validate_topic_and_qos_iff [] qos = ground arith
validate_topic_and_qos_iff (c ∷ s) qos =
    ground (arith, check_levels-IsFilter (split (c ∷ s)) (length (split (c ∷ s))) 0 (omega arith))
