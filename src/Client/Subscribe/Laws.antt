-- ===== src/Client/Subscribe/Laws.antt =====
-- client.go, Subscribe and its kin: the topic of the callback.
use paho_mqtt_golang.Base.{
  ℕ, ◌≡◌, refl, sym, ap, ◌∙◌, inl, inr, List, [], ◌∷◌, ◌++◌, Bytes, false, Bool-cases, ◌==◌, arith,
}
use paho_mqtt_golang.Topic.{split, onto_first}
use paho_mqtt_golang.Router.{has_prefix}
use paho_mqtt_golang.Router.Shared.{IsLevel, split-append}
use paho_mqtt_golang.Client.Subscribe.{
  join, share_slash, queue_slash, without_share, trim_prefix, route_topic,
}

-- What is split begins with a level.
split_shape : (s : Bytes) → (level : Bytes) × (levels : List Bytes) × (split s ≡ level ∷ levels)
unfolding split
split_shape [] = ([], [], refl)
split_shape (c ∷ s) =
    let (level, levels, e) = split_shape s in
    elim (Bool-cases (c == 47)) [
      | inl slash ↦ ([], split s, rw slash refl)
      | inr other ↦ (c ∷ level, levels, rw (other, e) refl)
    ]

join-onto_first :
    (c : ℕ) (level : Bytes) (levels : List Bytes)
    → join (onto_first c (level ∷ levels)) ≡ c ∷ join (level ∷ levels)
unfolding join
join-onto_first c level [] = refl
join-onto_first c level (m ∷ levels) = refl

join_slash :
    (levels : List Bytes) (level : Bytes) (more : List Bytes)
    → levels ≡ level ∷ more
    → join ([] ∷ levels) ≡ 47 ∷ join levels
unfolding join
join_slash levels level more e = rw e refl

-- Joining what was split gives it back.
pub join-split : (s : Bytes) → join (split s) ≡ s
unfolding split
join-split [] = unfold join in refl
join-split (c ∷ s) =
    let (level, levels, e) = split_shape s in
    elim (Bool-cases (c == 47)) [
      | inl slash ↦
          let is_slash : c ≡ 47 = ground (arith, slash) in
          rw slash (join_slash (split s) level levels e ∙ rw (is_slash, join-split s) refl)
      | inr other ↦ rw other (
          ap (λ l. join (onto_first c l)) e
          ∙ (join-onto_first c level levels ∙ ap (λ l. c ∷ l) (ap join (sym e) ∙ join-split s)))
    ]

-- For a group name without a slash: the callback of a shared subscription is for the topic behind the
-- name, without a leading `$queue/`; where a topic has neither prefix, it is the topic itself.
pub route_topic_lem :
    (group topic : Bytes)
    → IsLevel group
    → has_prefix topic queue_slash ≡ false
    → (route_topic (share_slash ++ (group ++ (47 ∷ topic))) ≡ topic)
      × (route_topic (queue_slash ++ topic) ≡ topic)
      × (has_prefix topic share_slash ≡ false → route_topic topic ≡ topic)
unfolding route_topic without_share trim_prefix has_prefix split
route_topic_lem group topic level plain = (
  rw
      (
        route_topic,
        without_share,
        trim_prefix,
        split-append group topic level,
        join-split topic,
        plain,
      )
      refl,
  refl,
  λ h. rw (route_topic, without_share, trim_prefix, h, plain) refl,
)
