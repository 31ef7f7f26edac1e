-- ===== src/Client/Delivery.antt =====
-- client.go and net.go: a message that waits for the broker, from its Write to its acknowledgement.
pub mod Published
use paho_mqtt_golang.Base.{
  ℕ, ◌≤◌, ◌≡◌, refl, ap, ◌∙◌, inl, [], ◌∷◌, ◌++◌, Bytes, Bool, true, false, none, some,
  if◌then◌else◌, ◌==◌, arith, str_eq_self,
}
use paho_mqtt_golang.Base.Assoc.{lookup, nat_eq}
use paho_mqtt_golang.Packets.Result.{ok}
use paho_mqtt_golang.Packets.Header.{FixedHeader}
use paho_mqtt_golang.Packets.Packet.{PublishPacket, publish, puback, pubrec, pubrel, pubcomp}
use paho_mqtt_golang.Packets.Write.{write}
use paho_mqtt_golang.Token.{publish_token, flow_complete, has_base}
use paho_mqtt_golang.MessageIds.{MessageIds, token_ref, dummy, get_token}
use paho_mqtt_golang.Store.{StoreOps, outbound_key_from_mid}
use paho_mqtt_golang.Store.Laws.{StoreView, StoreLaws}
use paho_mqtt_golang.Store.Keys.{mid_from_key_lem}
use paho_mqtt_golang.Client.{Client, Returns, Looks, is_connected, only_stored}
use paho_mqtt_golang.Client.Publish.{Payload, payload_bytes, new_publish, publish_message}
use paho_mqtt_golang.Client.Publish.Laws.{IsKept, publish_message-IsKept}
use paho_mqtt_golang.Net.{Comms, PacketAndToken, new_ack, update_last_sent}
use paho_mqtt_golang.Net.Incoming.{received, outbound, handle_network}
use paho_mqtt_golang.Net.Outgoing.{handle_obound, put_on_wire, write_to}
use paho_mqtt_golang.Net.Exchange.{Ending, ends_publish, ending, handle_network-ending}

module _ {S : Type 0} (s : StoreOps S) (v : StoreView S) (laws : StoreLaws s v) where
  -- A PUBLISH with a QoS above 0 that the connection takes changes neither ids nor store.
  handle_obound-published :
      (now ref : ℕ) (p : PublishPacket) (bytes : Bytes) (c : Comms S)
      → (p.fixed_header.qos == 0) ≡ false
      → (write (publish p)).1 ≡ ok bytes
      → handle_obound now none (record { p = publish p; t = some ref }) c
        ≡ some (update_last_sent now (put_on_wire bytes c), [])
  unfolding handle_obound write_to
  handle_obound-published now ref p bytes c above e = rw (e, above) refl

  -- The message of an id, with its token: it waits in the store and has its id.
  abbrev pub IsWaiting : ℕ → ℕ → PublishPacket → Comms S → Type 0
  IsWaiting id ref p c =
      (id ≤ 65535)
      × (get_token id c.ids ≡ token_ref ref)
      × ((c.ids.tokens ref).kind ≡ publish_token)
      × (v.is_open c.persist ≡ true)
      × (s.get (outbound_key_from_mid id) c.persist ≡ some (some (publish p)))

  -- The id is free, its token has completed without a new error, and its message is gone; the other
  -- ids lead to what they led to.
  abbrev pub IsDelivered : ℕ → ℕ → Comms S → Comms S → Type 0
  IsDelivered id ref c c' =
      ((j : ℕ) → get_token j c'.ids ≡ (if id == j then dummy j else get_token j c.ids))
      × ((c'.ids.tokens ref).complete ≡ true)
      × ((c'.ids.tokens ref).error ≡ (c.ids.tokens ref).error)
      × (s.get (outbound_key_from_mid id) c'.persist ≡ some none)

  lookup-get_token :
      (id ref : ℕ) (mids : MessageIds)
      → get_token id mids ≡ token_ref ref
      → lookup id mids.index ≡ some ref
  unfolding get_token
  lookup-get_token id ref mids h = ground (arith, h)

  ended-IsDelivered :
      (e : Ending) (id ref now : ℕ) (p : PublishPacket) (fh : FixedHeader) (c : Comms S)
      → fh.qos ≡ 0
      → IsWaiting id ref p c
      → (c' : Comms S) × (handle_network s now
            (received (ending e (record { fixed_header = fh; message_id = id })))
            c
          ≡ some (c', []))
        × IsDelivered id ref c c'
  unfolding flow_complete has_base
  ended-IsDelivered e id ref now p fh c q (fits, leads, kind, o, kept) =
      let (c', done, (ids, tokens), o', at) =
        handle_network-ending s v laws e (record { fixed_header = fh; message_id = id }) now c q
          fits o in
      let found = lookup-get_token id ref c.ids leads in
      let key = outbound_key_from_mid id in
      (
        c',
        done,
        (
          ids,
          ground (arith, tokens ref, found, kind),
          ground (arith, tokens ref, found, kind),
          laws.get_law c'.persist key id o' (mid_from_key_lem id fits).1
              ∙ ap some (at key ∙ rw (str_eq_self key) refl),
        ),
      )

  -- With an open store that keeps the laws: a PUBLISH with QoS 1 that waits with its id is written,
  -- which keeps it waiting, and the PUBACK of the id with QoS 0 in its header delivers it.
  pub at_least_once_delivery :
      (id ref now later : ℕ) (p : PublishPacket) (bytes : Bytes) (fh : FixedHeader) (c : Comms S)
      → p.fixed_header.qos ≡ 1
      → (write (publish p)).1 ≡ ok bytes
      → fh.qos ≡ 0
      → IsWaiting id ref p c
      → (c1 : Comms S) × (c2 : Comms S) × (handle_obound now none
            (record { p = publish p; t = some ref })
            c
          ≡ some (c1, []))
        × (c1.wire ≡ c.wire ++ bytes)
        × IsWaiting id ref p c1
        × (handle_network s later
              (received (puback (record { fixed_header = fh; message_id = id })))
              c1
            ≡ some (c2, []))
        × IsDelivered id ref c c2
  unfolding update_last_sent
  at_least_once_delivery id ref now later p bytes fh c one e q w =
      let c1 = update_last_sent now (put_on_wire bytes c) in
      let (c2, done, delivered) = ended-IsDelivered ends_publish id ref later p fh c1 q w in
      (
        c1,
        c2,
        handle_obound-published now ref p bytes c (ground (arith, one)) e,
        refl,
        w,
        done,
        delivered,
      )

  -- Written, answered by PUBREC and PUBREL, and delivered by the PUBCOMP.
  abbrev pub IsDeliveredOnce :
      ℕ → ℕ → ℕ → ℕ → ℕ → PublishPacket → Bytes → FixedHeader → FixedHeader → Comms S → Type 0
  IsDeliveredOnce id ref now later last p bytes rec comp c =
      (c1 : Comms S) × (c2 : Comms S) × (c3 : Comms S) × (handle_obound now none
          (record { p = publish p; t = some ref }) c
        ≡ some (c1, []))
      × (handle_network s later (received (pubrec (record { fixed_header = rec; message_id = id })))
            c1
          ≡ some (c2, outbound (record { p = pubrel (new_ack 6 id); t = none }) ∷ []))
      × IsWaiting id ref p c2
      × (handle_network s last
            (received (pubcomp (record { fixed_header = comp; message_id = id }))) c2
          ≡ some (c3, []))
      × IsDelivered id ref c c3
