-- ===== src/Client/Resume/Unsubscribe.antt =====
-- client.go, resume: what becomes of a stored UNSUBSCRIBE that is sent again.
use paho_mqtt_golang.Base.{
  ℕ, ◌≡◌, refl, ◌∙◌, List, [], ◌∷◌, ◌++◌, Bytes, true, false, none, some, arith, Option, ◌≢◌,
}
use paho_mqtt_golang.Base.Assoc.{nat_eq, lookup, bytes_eq}
use paho_mqtt_golang.Packets.Packet.{UnsubscribePacket, unsubscribe}
use paho_mqtt_golang.Token.{unsubscribe_token, fresh}
use paho_mqtt_golang.MessageIds.{get_token, update}
use paho_mqtt_golang.Store.{StoreOps, is_key_outbound}
use paho_mqtt_golang.Net.{on_token, Comms}
use paho_mqtt_golang.Client.{make_token}
use paho_mqtt_golang.Client.Resume.{
  Resuming, goes_on, with_client, on_obound_p, resume_outbound, resume_key,
}
use paho_mqtt_golang.Net.Incoming.{Arrival, IncomingComms, start_incoming_comms}
use paho_mqtt_golang.Net.Invariant.{start_incoming_comms-Evolves}

module _ {S : Type 0} (s : StoreOps S) where
  abbrev IsSentUnclaimed : Bytes → UnsubscribePacket → Resuming S → Type 0
  IsSentUnclaimed key p r =
      (r' : Resuming S) × (resume_key s true false key r ≡ goes_on r')
      × (r'.client.obound_p
          ≡ r.client.obound_p ++ (record { p = unsubscribe p; t = some r.client.next_token } ∷ []))
      × (r'.client.comms.ids.tokens r.client.next_token ≡ fresh unsubscribe_token)
      × ((id : ℕ) → get_token id r'.client.comms.ids ≡ get_token id r.client.comms.ids)

  -- A stored UNSUBSCRIBE under an outbound key that is sent again, with subscriptions resumed and
  -- no stop: its new token has not completed, and every id leads to what it led to before; an
  -- UNSUBACK for the id of the packet finds what was there.
  resume_key-unsubscribe :
      (key : Bytes) (p : UnsubscribePacket) (r : Resuming S)
      → s.get key r.client.comms.persist ≡ some (some (unsubscribe p))
      → is_key_outbound key ≡ some true
      → IsSentUnclaimed key p r
  unfolding resume_key resume_outbound on_token get_token update
  resume_key-unsubscribe key p r got out =
      let made = (make_token unsubscribe_token r.client).1 in
      (
        with_client (on_obound_p (unsubscribe p) (some r.client.next_token) made) r,
        rw (resume_key, got, out) refl,
        refl,
        ground arith,
        λ id. refl,
      )

  -- The token is as it was made, unless the loop panics.
  abbrev pub IsUnanswered : ℕ → Option (Comms S × List IncomingComms) → Type 0
  IsUnanswered token none = Unit
  IsUnanswered token (some (c, out)) = c.ids.tokens token ≡ fresh unsubscribe_token

  abbrev pub IsAbandoned : Bytes → UnsubscribePacket → Resuming S → List Arrival → Type 0
  IsAbandoned key p r arrivals =
      (r' : Resuming S) × (resume_key s true false key r ≡ goes_on r')
      × (r'.client.obound_p
          ≡ r.client.obound_p ++ (record { p = unsubscribe p; t = some r.client.next_token } ∷ []))
      × IsUnanswered r.client.next_token (start_incoming_comms s arrivals r'.client.comms)

  -- A stored UNSUBSCRIBE under an outbound key, and a client whose ids do not lead to the next token
  -- that it makes: with subscriptions resumed and no stop, the packet is sent again with this token,
  -- and whatever arrives from the network and from the store afterwards, the UNSUBACK of its id
  -- included, and whatever the store does, the incoming loop leaves the token as it was made, never
  -- complete, unless it panics.
  pub resumed_unsubscribe-IsAbandoned :
      (key : Bytes) (p : UnsubscribePacket) (r : Resuming S) (arrivals : List Arrival)
      → s.get key r.client.comms.persist ≡ some (some (unsubscribe p))
      → is_key_outbound key ≡ some true
      → ((id : ℕ) → lookup id r.client.comms.ids.index ≢ some r.client.next_token)
      → IsAbandoned key p r arrivals
  unfolding get_token
  resumed_unsubscribe-IsAbandoned key p r arrivals got out unknown =
      let (r', done, queue, made, same) = resume_key-unsubscribe key p r got out in
      (
        r',
        done,
        queue,
        go r' made (λ id e. unknown id (ground (arith, same id, e)))
            (start_incoming_comms s arrivals r'.client.comms) refl,
      )
    where
      go :
          (r' : Resuming S)
          → r'.client.comms.ids.tokens r.client.next_token ≡ fresh unsubscribe_token
          → ((id : ℕ) → lookup id r'.client.comms.ids.index ≢ some r.client.next_token)
          → (x : Option (Comms S × List IncomingComms))
          → start_incoming_comms s arrivals r'.client.comms ≡ x
          → IsUnanswered r.client.next_token x
      go r' made far none e = tt
      go r' made far (some (c, sent)) e =
          (start_incoming_comms-Evolves s arrivals r'.client.comms c sent e).out_of_reach
            r.client.next_token far
          ∙ made
