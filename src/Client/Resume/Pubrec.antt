-- ===== src/Client/Resume/Pubrec.antt =====
-- client.go and net.go: what a client sends again after the first half of an exchange with QoS 2.
use paho_mqtt_golang.Base.{ℕ, ◌≤◌, ◌≡◌, refl, ap, ◌∙◌, [], ◌∷◌, ◌++◌, true, none, some}
use paho_mqtt_golang.Base.Assoc.{lookup, bytes_eq}
use paho_mqtt_golang.Packets.Packet.{PublishPacket, AckPacket, publish, pubrec, pubrel}
use paho_mqtt_golang.Store.{StoreOps, outbound_key_from_mid}
use paho_mqtt_golang.Store.Laws.{StoreView, StoreLaws}
use paho_mqtt_golang.Net.{Comms, new_ack}
use paho_mqtt_golang.Net.Incoming.{received, outbound, handle_network}
use paho_mqtt_golang.Net.Exchange.{handle_network-pubrec}
use paho_mqtt_golang.Client.{Client}
use paho_mqtt_golang.Client.Resume.{Resuming, goes_on, resume}
use paho_mqtt_golang.Client.Resume.Laws.{as_duplicate, resume_keys-republishes}

module _ {S : Type 0} (s : StoreOps S) (v : StoreView S) (laws : StoreLaws s v) where
  -- The answer to the PUBREC, and what is sent on the next connection.
  abbrev pub IsForgotten : ℕ → PublishPacket → AckPacket → Client S → Type 0
  IsForgotten now p rec c =
      (comms : Comms S) × (r : Resuming S) × (handle_network s now (received (pubrec rec)) c.comms
        ≡ some (comms, outbound (record { p = pubrel (new_ack 6 rec.message_id); t = none }) ∷ []))
      × (resume s true none (record c { comms = comms }) ≡ goes_on r)
      × (r.client.obound
          ≡ c.obound ++ (record { p = publish (as_duplicate p); t = some c.next_token } ∷ []))
      × (r.client.obound_p ≡ c.obound_p)

  -- With an open store that keeps the laws and holds one message only, a PUBLISH with a 16-bit id
  -- under the outbound key of the id: the PUBREC of the id, with QoS 0 in its header, is answered by
  -- the PUBREL of the id; but resume after that, with subscriptions resumed and no stop, as on the
  -- next connection, sends the PUBLISH again, with DUP if its QoS is above 0, and no PUBREL.
  pub pubrec-IsForgotten :
      (now : ℕ) (p : PublishPacket) (rec : AckPacket) (c : Client S)
      → v.is_open c.comms.persist ≡ true
      → p.message_id ≤ 65535
      → s.all c.comms.persist ≡ outbound_key_from_mid p.message_id ∷ []
      → v.contents c.comms.persist (outbound_key_from_mid p.message_id) ≡ some (publish p)
      → rec.message_id ≡ p.message_id
      → rec.fixed_header.qos ≡ 0
      → IsForgotten now p rec c
  unfolding resume lookup
  pubrec-IsForgotten now p rec c o fits only at same_id zero_qos =
      let (comms, answers, same, ids, request) = handle_network-pubrec s now rec c.comms zero_qos in
      let key = outbound_key_from_mid p.message_id in
      let (r, done, queue, open_after, contents, priority, claims) =
        resume_keys-republishes s v laws true ((key, p) ∷ [])
          (record { client = record c { comms = comms }; ibound = [] }) (ap v.is_open same ∙ o)
          (refl, tt) (ap (λ st. v.contents st key) same ∙ at, refl, fits, tt) in
      (comms, r, answers, rw (resume, same, only) done, queue, priority)
