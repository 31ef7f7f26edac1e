-- ===== src/Store/Tests.antt =====
-- A message that is stored, found and removed.
use paho_mqtt_golang.Base.{◌≡◌, refl, [], ◌∷◌, codes, true, inl, arith}
use paho_mqtt_golang.Base.Assoc.{bytes_eq}
use paho_mqtt_golang.Packets.Packet.{
  ControlPacket, publish, puback, plain_header, details, packet_type,
}
use paho_mqtt_golang.Store.{outbound_key_from_mid, decimal, persist_inbound, persist_outbound}
use paho_mqtt_golang.Store.Laws.{StoreLaws}
use paho_mqtt_golang.Store.Memory.{MemoryStore, memory_ops}
use paho_mqtt_golang.Store.Memory.Refines.{memory_view, memory_ops-StoreLaws}
use paho_mqtt_golang.Store.Ordered.{
  OrderedMemoryStore, ordered_ops, all, sort_by_time, insert_by_time,
}
use paho_mqtt_golang.Store.Ordered.Refines.{ordered_view, ordered_ops-StoreLaws}
use paho_mqtt_golang.Store.Persist.{KeptUntil, persist_outbound-IsPending}

abbrev message : ControlPacket
message = publish (record {
  fixed_header = plain_header 3 1;
  topic_name = codes "t";
  message_id = 258;
  payload = [];
})

abbrev ack : ControlPacket
ack = puback (record { fixed_header = plain_header 4 0; message_id = 258 })

abbrev empty : MemoryStore
empty = record { messages = []; opened = true }

outbound_key-258 : outbound_key_from_mid 258 ≡ codes "o.258"
unfolding outbound_key_from_mid decimal
outbound_key-258 = refl

ordered_ops-StoreLaws_example : StoreLaws (ordered_ops 5) ordered_view
ordered_ops-StoreLaws_example = ordered_ops-StoreLaws 5

persist_outbound-IsPending_example :
    KeptUntil memory_ops memory_view memory_ops-StoreLaws
      (outbound_key_from_mid 258)
      (codes "i.258")
      message
      empty
      (persist_outbound memory_ops message empty)
      (persist_inbound memory_ops ack)
unfolding details packet_type
persist_outbound-IsPending_example =
    persist_outbound-IsPending memory_ops memory_view memory_ops-StoreLaws empty (codes "i.258")
      message ack refl (omega arith) refl (inl (refl, inl refl)) (refl, inl refl)

-- Two messages, the later one first in the map.
abbrev two : OrderedMemoryStore
two = record {
  messages =
      (codes "o.2", record { ts = 20; msg = message })
      ∷ (codes "o.1", record { ts = 10; msg = message })
      ∷ [];
  opened = true;
}

all-two : all two ≡ codes "o.1" ∷ codes "o.2" ∷ []
unfolding all sort_by_time insert_by_time
all-two = refl
