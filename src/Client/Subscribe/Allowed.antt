-- ===== src/Client/Subscribe/Allowed.antt =====
-- client.go, Subscribe, SubscribeMultiple and Unsubscribe: the errors of a call that is not refused.
use paho_mqtt_golang.Base.{
  not, none, ℕ, ◌≡◌, refl, inl, inr, List, [], ◌∷◌, Bytes, Bool, true, false, Bool-cases, Option,
  some, ◌==◌, arith,
}
use paho_mqtt_golang.Token.{
  no_message_ids, broken_by_timeout, topic_error, TokenError, subscribe_token, unsubscribe_token,
  set_error,
}
use paho_mqtt_golang.Topic.{
  TopicError, validate_topic_and_qos, Validated, invalid, valid, validate_subscribe_map,
}
use paho_mqtt_golang.MessageIds.{get_id, update}
use paho_mqtt_golang.MessageIds.Laws.{tokens-get_id}
use paho_mqtt_golang.Packets.Packet.{
  ControlPacket, SubscribePacket, plain_header, subscribe, unsubscribe,
}
use paho_mqtt_golang.Store.{StoreOps, persist_outbound}
use paho_mqtt_golang.Net.{on_token, with_persist}
use paho_mqtt_golang.Client.{
  only_stored, persist_if, with_id, with_comms, set_message_id, Client, Looks, Returns, make_token,
  give_up, with_token,
}
use paho_mqtt_golang.Client.Subscribe.{
  send_priority, and_send_priority, with_router, set_subs, add_callback, add_callbacks,
  delete_routes, subscribe_packet, route_topic, refuses, subscribe_topic, subscribe_multiple,
  unsubscribe_from,
}
use paho_mqtt_golang.Status.{Status}
use paho_mqtt_golang.Client.Subscribe.Barred.{is_reason}

-- The error of a token, if it has one, is none of the three.
abbrev pub no_reason : Option TokenError → Bool
no_reason none = true
no_reason (some e) = not (is_reason e)

module _ {S : Type 0} where
  -- What is returned is the token `ref`, with none of the three errors.
  abbrev pub IsOther : ℕ → Returns S → Type 0
  IsOther ref none = Unit
  IsOther ref (some (token, c)) = (token ≡ ref) × (no_reason (c.comms.ids.tokens ref).error ≡ true)

  give_up-IsOther :
      (e : TokenError) (token : ℕ) (c : Client S)
      → is_reason e ≡ false
      → no_reason (c.comms.ids.tokens token).error ≡ true
      → IsOther token (give_up e token c)
  unfolding on_token update set_error
  give_up-IsOther e token c other before = (refl, ground (arith, other, before))

  send_priority-IsOther :
      (status : Status) (taken : Bool) (m : ControlPacket) (f : Client S → Client S) (token : ℕ)
      (c : Client S)
      → ((x : Client S) → (f x).comms.ids ≡ x.comms.ids)
      → no_reason (c.comms.ids.tokens token).error ≡ true
      → IsOther token (send_priority status taken m f token c)
  unfolding send_priority
  send_priority-IsOther status taken m f token c same before =
      elim (Bool-cases (only_stored status)) [
        | inl stored ↦ rw stored (refl, before)
        | inr sending ↦ elim (Bool-cases taken) [
          | inl went ↦ rw (sending, went, same) (refl, before)
          | inr timer ↦ rw (sending, timer) (give_up-IsOther broken_by_timeout token c refl before)
        ]
      ]

  and_send_priority-IsOther :
      (s : StoreOps S) (status : Status) (taken keeps : Bool) (m : ControlPacket)
      (f : Client S → Client S) (token : ℕ) (c : Client S)
      → ((x : Client S) → (f x).comms.ids ≡ x.comms.ids)
      → no_reason (c.comms.ids.tokens token).error ≡ true
      → IsOther token (and_send_priority status taken m f token (persist_if s keeps m c))
  and_send_priority-IsOther s status taken false m f token c same before =
      send_priority-IsOther status taken m f token c same before
  and_send_priority-IsOther s status taken true m f token c same before =
      go (persist_outbound s m c.comms.persist)
    where
      go :
          (x : Option S)
          → IsOther token
              (and_send_priority status taken m f token (with_comms c (with_persist c.comms x)))
      go none = tt
      go (some st) =
          send_priority-IsOther status taken m f token
            (record c { comms = record c.comms { persist = st } }) same before

  with_id-IsOther :
      (token : ℕ) (c : Client S) (go_on : ℕ → Client S → Returns S)
      → ((id : ℕ) (x : Client S)
          → no_reason (x.comms.ids.tokens token).error ≡ true
          → IsOther token (go_on id x))
      → no_reason (c.comms.ids.tokens token).error ≡ true
      → IsOther token (with_id token c go_on)
  unfolding on_token update
  with_id-IsOther token c go_on k before =
      let (m_id, ids) = get_id token c.comms.ids in
      let c' = record c { comms = record c.comms { ids = ids } } in
      let after : no_reason (c'.comms.ids.tokens token).error ≡ true =
        rw (tokens-get_id token c.comms.ids) before in
      elim (Bool-cases (m_id == 0)) [
        | inl used ↦ rw used (give_up-IsOther no_message_ids token c' refl after)
        | inr free ↦
            rw free (k m_id (with_token (set_message_id m_id) token c') (ground (arith, after)))
      ]

  -- What the three operations do once nothing refuses them.
  sends-IsOther :
      (s : StoreOps S) (status : Status) (taken : Bool) (m : ℕ → ControlPacket)
      (f : Client S → Client S) (token : ℕ) (c : Client S)
      → ((x : Client S) → (f x).comms.ids ≡ x.comms.ids)
      → no_reason (c.comms.ids.tokens token).error ≡ true
      → IsOther token (
          with_id token c (λ m_id c'.
            and_send_priority status taken
              (m m_id)
              f
              token
              (persist_if s c'.options.resume_subs (m m_id) c')))
  sends-IsOther s status taken m f token c same before =
      with_id-IsOther token c
        (λ m_id c'.
          and_send_priority status taken (m m_id) f token
            (persist_if s c'.options.resume_subs (m m_id) c'))
        (λ id x clean.
          and_send_priority-IsOther s status taken x.options.resume_subs (m id) f token x same
            clean)
        before

  subscribe_packet-IsOther :
      (s : StoreOps S) (looks : Looks) (taken : Bool) (sub : SubscribePacket) (token : ℕ)
      (c : Client S)
      → no_reason (c.comms.ids.tokens token).error ≡ true
      → IsOther token (subscribe_packet s looks taken sub token c)
  unfolding subscribe_packet
  subscribe_packet-IsOther s looks taken sub token c before =
      sends-IsOther s looks.at_send.status taken (λ id. subscribe (record sub { message_id = id }))
        (λ x. x) token c (λ y. refl) before

  pub subscribe_topic-IsOther :
      (s : StoreOps S) (looks : Looks) (taken : Bool) (topic : Bytes) (qos : ℕ)
      (callback : Option ℕ) (c : Client S)
      → refuses c.options looks ≡ none
      → IsOther c.next_token (subscribe_topic s looks taken topic qos callback c)
  unfolding subscribe_topic on_token update
  subscribe_topic-IsOther s looks taken topic qos callback c let_in =
      rw (subscribe_topic, let_in) (go (validate_topic_and_qos topic qos))
    where
      go :
          (x : Option TopicError)
          → IsOther c.next_token (elim x [
            | some e ↦ give_up (topic_error e) c.next_token (make_token subscribe_token c).1
            | none ↦
                subscribe_packet s looks taken
                  (record {
                    fixed_header = plain_header 8 1;
                    message_id = 0;
                    topics = topic ∷ [];
                    qoss = qos ∷ [];
                  })
                  c.next_token
                  (with_token (set_subs (route_topic topic ∷ [])) c.next_token (
                    with_router
                      (add_callback callback (route_topic topic))
                      (make_token subscribe_token c).1))
          ])
      go none = subscribe_packet-IsOther s looks taken _ c.next_token _ (ground arith)
      go (some e) =
          give_up-IsOther (topic_error e) c.next_token (make_token subscribe_token c).1 refl
            (ground arith)

  pub subscribe_multiple-IsOther :
      (s : StoreOps S) (looks : Looks) (taken : Bool) (filters : List (Bytes × ℕ))
      (callback : Option ℕ) (c : Client S)
      → refuses c.options looks ≡ none
      → IsOther c.next_token (subscribe_multiple s looks taken filters callback c)
  unfolding subscribe_multiple on_token update
  subscribe_multiple-IsOther s looks taken filters callback c let_in =
      rw (subscribe_multiple, let_in) (go (validate_subscribe_map filters))
    where
      go :
          (x : Validated)
          → IsOther c.next_token (elim x [
            | invalid e ↦ give_up (topic_error e) c.next_token (make_token subscribe_token c).1
            | valid topics qoss ↦
                subscribe_packet s looks taken
                  (record {
                    fixed_header = plain_header 8 1;
                    message_id = 0;
                    topics = topics;
                    qoss = qoss;
                  })
                  c.next_token
                  (with_token
                    (set_subs topics)
                    c.next_token
                    (with_router (add_callbacks callback filters) (make_token subscribe_token c).1))
          ])
      go (valid topics qoss) =
          subscribe_packet-IsOther s looks taken _ c.next_token _ (ground arith)
      go (invalid e) =
          give_up-IsOther (topic_error e) c.next_token (make_token subscribe_token c).1 refl
            (ground arith)

  pub unsubscribe_from-IsOther :
      (s : StoreOps S) (looks : Looks) (taken : Bool) (topics : List Bytes) (c : Client S)
      → refuses c.options looks ≡ none
      → IsOther c.next_token (unsubscribe_from s looks taken topics c)
  unfolding unsubscribe_from on_token update
  unsubscribe_from-IsOther s looks taken topics c let_in =
      rw (unsubscribe_from, let_in)
        (sends-IsOther s looks.at_send.status taken
          (λ id.
            unsubscribe
              (record { fixed_header = plain_header 10 1; message_id = id; topics = topics }))
          (with_router (delete_routes topics)) c.next_token (make_token unsubscribe_token c).1
          (λ y. refl) (ground arith))
