-- ===== src/Client/Publish/Laws.antt =====
-- client.go, Publish: what a call leaves behind, on every path.
use paho_mqtt_golang.Base.{
  ℕ, ◌≤◌, ◌≡◌, ◌≢◌, refl, ap, ◌∙◌, ◌⊎◌, inl, inr, [], ◌∷◌, ◌++◌, Bytes, Bool, true, false, not,
  ◌&&◌, none, some, if◌then◌else◌, ◌==◌, arith, str_eq_self,
}
use paho_mqtt_golang.Base.Assoc.{lookup, nat_eq}
use paho_mqtt_golang.Packets.Packet.{PublishPacket, publish, details, packet_type}
use paho_mqtt_golang.Token.{TokenKind, publish_token, set_error, has_base}
use paho_mqtt_golang.MessageIds.{MessageIds, token_ref, dummy, get_token, get_id, update}
use paho_mqtt_golang.MessageIds.Laws.{get_id-Issues, get_token-get_id, tokens-get_id}
use paho_mqtt_golang.Store.{StoreOps, outbound_key_from_mid, persist_outbound}
use paho_mqtt_golang.Store.Laws.{StoreView, StoreLaws}
use paho_mqtt_golang.Store.Persist.{IsPending, outbound_request-IsPending}
use paho_mqtt_golang.Store.Keys.{mid_from_key_lem}
use paho_mqtt_golang.Status.{Status}
use paho_mqtt_golang.Net.{on_token}
use paho_mqtt_golang.Client.{
  Client, Looks, Returns, is_connected, is_reconnecting, with_token, make_token, only_stored,
  set_message_id,
}
use paho_mqtt_golang.Client.Publish.{
  new_publish, offer_publish, send_publish, store_and_send, publish_packet, publish_message,
  payload_bytes, Payload,
}

get_token_index : (j : ℕ) (a b : MessageIds) → a.index ≡ b.index → get_token j a ≡ get_token j b
unfolding get_token
get_token_index j a b e = rw e refl

-- An id for a token does not change its kind, nor that of any other.
same_kind :
    (id token : ℕ) (mids : MessageIds) (r : ℕ)
    → ((on_token (set_message_id id) token (get_id token mids).1).tokens r).kind
      ≡ (mids.tokens r).kind
unfolding on_token update
same_kind id token mids r = rw (tokens-get_id token mids) (ground arith)

publish-IsPending :
    (p : PublishPacket)
    → (p.fixed_header.qos ≡ 1) ⊎ (p.fixed_header.qos ≡ 2)
    → IsPending (publish p)
unfolding details packet_type
publish-IsPending p above = inl (refl, above)

qos_above : (q : ℕ) → (q ≡ 1) ⊎ (q ≡ 2) → (q == 0) ≡ false
qos_above q h = ground (arith, h)

and_false : (a b : Bool) → b ≡ false → (a && b) ≡ false
and_false a b h = ground (arith, h)

test_false : (n : ℕ) → n ≢ 0 → (n == 0) ≡ false
test_false n h = ground (arith, h)

module _ {S : Type 0} where
  -- The PUBLISH goes behind what the channel has taken, with its token, if the connection is up and
  -- the channel takes it. Else nothing is sent; neither way changes the store or the ids in use.
  abbrev pub IsOffered : Bool → PublishPacket → ℕ → Client S → Returns S → Type 0
  IsOffered sends p token c outcome =
      (c' : Client S) × (outcome ≡ some (token, c'))
      × (c'.comms.persist ≡ c.comms.persist)
      × (c'.comms.ids.index ≡ c.comms.ids.index)
      × ((c'.comms.ids.tokens token).kind ≡ (c.comms.ids.tokens token).kind)
      × (c'.obound ≡ (
          if sends then c.obound ++ (record { p = publish p; t = some token } ∷ []) else c.obound))

  send_publish-IsOffered :
      (status : Status) (taken : Bool) (p : PublishPacket) (token : ℕ) (c : Client S)
      → IsOffered
          (not (only_stored status) && taken)
          p
          token
          c
          (send_publish status taken p token c)
  unfolding send_publish on_token update set_error has_base
  send_publish-IsOffered status taken p token c = go (only_stored status) taken
    where
      go :
          (b t : Bool)
          → IsOffered
              (not b && t)
              p
              token
              c
              (if b then some (token, c) else offer_publish t p token c)
      go true t = (c, refl, refl, refl, refl, refl)
      go false true = (_, refl, refl, refl, refl, refl)
      go false false = (_, refl, refl, refl, ground arith, refl)

module _ {S : Type 0} (s : StoreOps S) (v : StoreView S) (laws : StoreLaws s v) where
  -- A PUBLISH with a QoS above 0 is stored under the outbound key of its id, and then offered.
  store_and_send_lem :
      (status : Status) (taken : Bool) (p : PublishPacket) (token : ℕ) (c : Client S)
      → IsPending (publish p)
      → store_and_send s status taken p token c
        ≡ send_publish status taken p token (record c {
          comms = record c.comms {
            persist = s.put (outbound_key_from_mid p.message_id) (publish p) c.comms.persist;
          };
        })
  unfolding store_and_send persist_outbound details
  store_and_send_lem status taken p token c pending =
      rw (outbound_request-IsPending (publish p) pending) refl

  -- The message has got the id `id`, with the token behind `token`.
  abbrev pub IsKept : ℕ → TokenKind → ℕ → Bool → PublishPacket → Client S → Returns S → Type 0
  IsKept token kind id sends p c outcome =
      let kept = record p { message_id = id } in
      (c' : Client S) × (outcome ≡ some (token, c'))
      × (1 ≤ id)
      × (id ≤ 65535)
      × (get_token id c.comms.ids ≡ dummy id)
      × ((j : ℕ)
          → get_token j c'.comms.ids
            ≡ (if id == j then token_ref token else get_token j c.comms.ids))
      × ((c'.comms.ids.tokens token).kind ≡ kind)
      × (v.is_open c'.comms.persist ≡ true)
      × (s.get (outbound_key_from_mid id) c'.comms.persist ≡ some (some (publish kept)))
      × (c'.obound ≡ (
          if sends
          then c.obound ++ (record { p = publish kept; t = some token } ∷ [])
          else c.obound))

  publish_packet-IsKept :
      (status : Status) (taken : Bool) (p : PublishPacket) (token : ℕ) (c : Client S)
      → v.is_open c.comms.persist ≡ true
      → c.comms.ids.last_issued_id ≤ 65535
      → (free : ℕ) × (1 ≤ free) × (free ≤ 65535) × (lookup free c.comms.ids.index ≡ none)
      → (p.fixed_header.qos ≡ 1) ⊎ (p.fixed_header.qos ≡ 2)
      → (id : ℕ) × IsKept token
          (c.comms.ids.tokens token).kind
          id
          (not (only_stored status) && taken)
          p
          c
          (publish_packet s status taken p token c)
  unfolding publish_packet on_token
  publish_packet-IsKept status taken p token c o bound (free, lo, hi, unused) above =
      elim (get_id-Issues token c.comms.ids bound) [
        | inr (zero_id, same, all) ↦
            let (ref, used) = all free lo hi in absurd (ground (arith, used, unused))
        | inl (one, most, was_free, now, last) ↦
            let id = (get_id token c.comms.ids).0 in
            let kept = record p { message_id = id } in
            let key = outbound_key_from_mid id in
            let c1 = record c { comms = record c.comms { ids = (get_id token c.comms.ids).1 } } in
            let c2 = with_token (set_message_id id) token c1 in
            let st = s.put key (publish kept) c.comms.persist in
            let c3 = record c2 { comms = record c2.comms { persist = st } } in
            let put = laws.put_law c.comms.persist key key (publish kept) o in
            let stored =
              store_and_send_lem status taken kept token c2 (publish-IsPending kept above) in
            let (c4, sent, persist, index, kind, queue) =
              send_publish-IsOffered status taken kept token c3 in
            let nonzero : id ≢ 0 = λ e. omega (arith, one, e) in
            let was = (get_token-get_id token 0 c.comms.ids bound nonzero).1 in
            let kind_kept : (c3.comms.ids.tokens token).kind ≡ (c.comms.ids.tokens token).kind =
              same_kind id token c.comms.ids token in
            let positive = qos_above p.fixed_header.qos above in
            (
              id,
              (
                c4,
                rw (positive, test_false id nonzero) (stored ∙ sent),
                one,
                most,
                was,
                λ j.
                    get_token_index j c4.comms.ids (get_id token c.comms.ids).1 index
                    ∙ (get_token-get_id token j c.comms.ids bound nonzero).0,
                kind ∙ kind_kept,
                ap v.is_open persist ∙ put.0,
                ap (s.get key) persist
                    ∙ (laws.get_law st key id put.0 (mid_from_key_lem id most).1
                        ∙ ap some (put.1 ∙ rw (str_eq_self key) refl)),
                queue,
              ),
            )
      ]

  -- No early return.
  publish_message-publish_packet :
      (looks : Looks) (taken : Bool) (topic : Bytes) (qos : ℕ) (retained : Bool) (payload : Payload)
      (bytes : Bytes) (c : Client S)
      → is_connected c.options looks.at_entry ≡ true
      → (is_reconnecting looks.at_gate.status && qos == 0) ≡ false
      → payload_bytes payload ≡ some bytes
      → publish_message s looks taken topic qos retained payload c
        ≡ publish_packet s looks.at_send.status taken
            (new_publish topic qos retained bytes)
            c.next_token
            (make_token publish_token c).1
  unfolding publish_message
  publish_message-publish_packet looks taken topic qos retained payload bytes c up gate known =
      rw (up, gate, known) refl

  -- With an open store that keeps the laws, last issued id at most 65535, and a free id from 1 to
  -- 65535: where the client is connected, or will be, and the type of the payload is known, Publish
  -- with QoS 1 or 2 returns its new token and gives the message an id that was free, which leads to
  -- the token from now on, while every other id leads to what it led to; the PUBLISH with the id is in
  -- the store under the outbound key of the id; and it is sent, behind what was sent before, exactly
  -- where the client is not waiting for a connection when it looks and the channel takes it in time.
  pub publish_message-IsKept :
      (looks : Looks) (taken : Bool) (topic : Bytes) (qos : ℕ) (retained : Bool) (payload : Payload)
      (bytes : Bytes) (c : Client S) (free : ℕ)
      → v.is_open c.comms.persist ≡ true
      → c.comms.ids.last_issued_id ≤ 65535
      → 1 ≤ free
      → free ≤ 65535
      → lookup free c.comms.ids.index ≡ none
      → (qos ≡ 1) ⊎ (qos ≡ 2)
      → payload_bytes payload ≡ some bytes
      → is_connected c.options looks.at_entry ≡ true
      → (id : ℕ) × IsKept c.next_token publish_token id
          (not (only_stored looks.at_send.status) && taken)
          (new_publish topic qos retained bytes)
          c
          (publish_message s looks taken topic qos retained payload c)
  unfolding new_publish on_token get_token update
  publish_message-IsKept looks taken topic qos retained payload bytes c free o bound lo hi unused
        above known up =
      let c' = (make_token publish_token c).1 in
      let p = new_publish topic qos retained bytes in
      let kept =
        publish_packet-IsKept looks.at_send.status taken p c.next_token c' o bound
          (free, lo, hi, unused) above in
      let passes : (is_reconnecting looks.at_gate.status && qos == 0) ≡ false =
        and_false (is_reconnecting looks.at_gate.status) (qos == 0) (qos_above qos above) in
      let made : (c'.comms.ids.tokens c.next_token).kind ≡ publish_token = ground arith in
      rw
        (publish_message-publish_packet looks taken topic qos retained payload bytes c up passes
          known)
        (rw made at kept)
