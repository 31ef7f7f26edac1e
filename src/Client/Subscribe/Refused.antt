-- ===== src/Client/Subscribe/Refused.antt =====
-- client.go, Subscribe, SubscribeMultiple and Unsubscribe: when a call is refused, and what it leaves.
use paho_mqtt_golang.Base.{
  none, ◌↔◌, ℕ, ◌≡◌, refl, sym, ap, ◌∙◌, List, Bytes, Bool, true, Option, some, arith,
}
use paho_mqtt_golang.Token.{
  Token, TokenError, TokenKind, subscribe_token, unsubscribe_token, fresh, set_error, has_base,
}
use paho_mqtt_golang.MessageIds.{update}
use paho_mqtt_golang.Store.{StoreOps}
use paho_mqtt_golang.Net.{on_token}
use paho_mqtt_golang.Client.{Client, Looks, Returns, make_token, give_up, with_token}
use paho_mqtt_golang.Client.Subscribe.{
  refuses, subscribe_topic, subscribe_multiple, unsubscribe_from,
}
use paho_mqtt_golang.Client.Subscribe.Barred.{
  IsBarred, is_reason, IsBarred-refuses, refuses-IsBarred,
}
use paho_mqtt_golang.Client.Subscribe.Allowed.{
  IsOther, subscribe_topic-IsOther, subscribe_multiple-IsOther, unsubscribe_from-IsOther,
}

module _ {S : Type 0} where
  -- The token has completed with the error, and nothing else has happened.
  abbrev pub IsRefused : TokenKind → TokenError → Client S → Returns S → Type 0
  IsRefused kind e c outcome =
      (c' : Client S) × (outcome ≡ some (c.next_token, c'))
      × (c'.comms.ids.tokens c.next_token ≡ record (fresh kind) { complete = true; error = some e })
      × (c'.comms.persist ≡ c.comms.persist)
      × (c'.comms.ids.index ≡ c.comms.ids.index)
      × (c'.obound ≡ c.obound)
      × (c'.obound_p ≡ c.obound_p)
      × (c'.msg_router ≡ c.msg_router)

  give_up-IsRefused :
      (kind : TokenKind) (e : TokenError) (c : Client S)
      → has_base kind ≡ true
      → IsRefused kind e c (give_up e c.next_token (make_token kind c).1)
  unfolding on_token update set_error
  give_up-IsRefused kind e c base = (
    with_token (set_error e) c.next_token (make_token kind c).1,
    refl,
    ground (arith, base),
    refl,
    refl,
    refl,
    refl,
    refl,
  )

  abbrev error_of : ℕ → Returns S → Option TokenError
  error_of ref none = none
  error_of ref (some (token, c)) = (c.comms.ids.tokens ref).error

  -- A refusal of an operation, which the reason decides, is one for this reason only.
  IsRefused-IsBarred :
      (looks : Looks) (kind : TokenKind) (e : TokenError) (c : Client S) (outcome : Returns S)
      → is_reason e ≡ true
      → ((x : TokenError) → refuses c.options looks ≡ some x → IsRefused kind x c outcome)
      → (refuses c.options looks ≡ none → IsOther c.next_token outcome)
      → IsBarred c.options looks e ↔ IsRefused kind e c outcome
  IsRefused-IsBarred looks kind e c outcome reason refused other = (
    λ barred. refused e (IsBarred-refuses c.options looks e barred),
    λ r. refuses-IsBarred c.options looks e (go r.0 r.1 r.2 (refuses c.options looks) refl),
  )
    where
      go :
          (c' : Client S)
          → outcome ≡ some (c.next_token, c')
          → c'.comms.ids.tokens c.next_token
            ≡ record (fresh kind) { complete = true; error = some e }
          → (x : Option TokenError) → refuses c.options looks ≡ x
          → x ≡ some e
      go c' returns error none h =
          let (same, clean) : IsOther c.next_token (some (c.next_token, c')) =
            rw returns at other h in
          absurd (ground (arith, clean, ap (λ t. t.error) error, reason))
      go c' returns error (some x) h =
          let again = refused x h in
          let first = ap (error_of c.next_token) again.1 ∙ ap (λ (t : Token). t.error) again.2 in
          let second = ap (error_of c.next_token) returns ∙ ap (λ (t : Token). t.error) error in
          sym first ∙ second

  -- For each of the three errors: Subscribe, SubscribeMultiple and Unsubscribe return a token that has
  -- completed with it, with routes, ids and store as they were and nothing sent, exactly if it is the
  -- error of the reason that bars them, where not_connected is that the client is not connected and will
  -- not be, no_resume_subs that it has no connection and does not resume subscriptions, and
  -- reconnecting_clean_session that it has none, resumes them, and reconnects to a clean session.
  pub subscriptions-IsRefused :
      (s : StoreOps S) (looks : Looks) (taken : Bool) (topic : Bytes) (qos : ℕ)
      (filters : List (Bytes × ℕ)) (topics : List Bytes) (callback : Option ℕ) (c : Client S)
      (e : TokenError)
      → is_reason e ≡ true
      → (IsBarred c.options looks e
          ↔ IsRefused subscribe_token e c (subscribe_topic s looks taken topic qos callback c))
        × (IsBarred c.options looks e
            ↔ IsRefused subscribe_token e c (subscribe_multiple s looks taken filters callback c))
        × (IsBarred c.options looks e
            ↔ IsRefused unsubscribe_token e c (unsubscribe_from s looks taken topics c))
  unfolding subscribe_topic subscribe_multiple unsubscribe_from has_base
  subscriptions-IsRefused s looks taken topic qos filters topics callback c e reason = (
    IsRefused-IsBarred looks subscribe_token e c _ reason
        (λ x h. rw (subscribe_topic, h) (give_up-IsRefused subscribe_token x c refl))
        (subscribe_topic-IsOther s looks taken topic qos callback c),
    IsRefused-IsBarred looks subscribe_token e c _ reason
        (λ x h. rw (subscribe_multiple, h) (give_up-IsRefused subscribe_token x c refl))
        (subscribe_multiple-IsOther s looks taken filters callback c),
    IsRefused-IsBarred looks unsubscribe_token e c _ reason
        (λ x h. rw (unsubscribe_from, h) (give_up-IsRefused unsubscribe_token x c refl))
        (unsubscribe_from-IsOther s looks taken topics c),
  )
