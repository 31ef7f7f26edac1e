-- ===== src/Client/Resume/Tests.antt =====
-- A client that sends again what is in its store.
use paho_mqtt_golang.Base.{ℕ, ◌≡◌, ◌≢◌, refl, [], ◌∷◌, codes, true, some, str_eq, arith}
use paho_mqtt_golang.Base.Assoc.{lookup, nat_eq, bytes_eq}
use paho_mqtt_golang.Packets.Packet.{AckPacket, publish, unsuback, plain_header}
use paho_mqtt_golang.Router.{has_prefix}
use paho_mqtt_golang.Store.{
  outbound_key_from_mid, is_key_outbound, decimal, mid_from_key, parse_digits,
}
use paho_mqtt_golang.Store.Memory.{MemoryStore, memory_ops, get, all}
use paho_mqtt_golang.Store.Memory.Refines.{memory_view, memory_ops-StoreLaws}
use paho_mqtt_golang.Net.Incoming.{Arrival, received, from_network}
use paho_mqtt_golang.Client.{Client}
use paho_mqtt_golang.Client.Resume.{Resuming}
use paho_mqtt_golang.Client.Resume.Laws.{AreStored, IsResumed, resume_keys-republishes}
use paho_mqtt_golang.Client.Resume.Unsubscribe.{IsAbandoned, resumed_unsubscribe-IsAbandoned}
use paho_mqtt_golang.Client.Resume.Pubrec.{IsForgotten, pubrec-IsForgotten}
use paho_mqtt_golang.Client.Tests.{waiting, leaves, comms, one_client}

abbrev resuming : Resuming MemoryStore
resuming = record { client = one_client; ibound = [] }

o7-outbound : codes "o.7" ≡ outbound_key_from_mid 7
unfolding outbound_key_from_mid decimal
o7-outbound = refl

o7-AreStored : AreStored memory_ops memory_view comms.persist ((codes "o.7", waiting) ∷ [])
unfolding lookup str_eq
o7-AreStored = (refl, o7-outbound, omega arith, tt)

resume_keys-republishes_example :
    IsResumed memory_ops memory_view true ((codes "o.7", waiting) ∷ []) resuming
unfolding lookup
resume_keys-republishes_example =
    resume_keys-republishes memory_ops memory_view memory_ops-StoreLaws true
      ((codes "o.7", waiting) ∷ []) resuming refl (refl, tt) o7-AreStored

-- The ids 7 and 8 lead to the tokens 0 and 1, and the next token is 2.
next_token-unknown : (id : ℕ) → lookup id comms.ids.index ≢ some 2
unfolding lookup
next_token-unknown id = ground arith

abbrev unsuback_8 : Arrival
unsuback_8 =
    from_network 9
      (received (unsuback (record { fixed_header = plain_header 11 0; message_id = 8 })))

resumed_unsubscribe-IsAbandoned_example :
    IsAbandoned memory_ops (codes "o.8") leaves resuming (unsuback_8 ∷ [])
unfolding lookup str_eq get is_key_outbound has_prefix mid_from_key parse_digits
resumed_unsubscribe-IsAbandoned_example =
    resumed_unsubscribe-IsAbandoned memory_ops (codes "o.8") leaves resuming (unsuback_8 ∷ []) refl
      refl next_token-unknown

-- The client when its store holds the PUBLISH only, and the PUBREC that answers it.
abbrev one_message : Client MemoryStore
one_message = record one_client {
  comms = record comms {
    persist = record { messages = (codes "o.7", publish waiting) ∷ []; opened = true };
  };
}

abbrev pubrec_7 : AckPacket
pubrec_7 = record { fixed_header = plain_header 5 0; message_id = 7 }

pubrec-IsForgotten_example :
    IsForgotten memory_ops memory_view memory_ops-StoreLaws 5 waiting pubrec_7 one_message
unfolding outbound_key_from_mid decimal lookup str_eq all
pubrec-IsForgotten_example =
    pubrec-IsForgotten memory_ops memory_view memory_ops-StoreLaws 5 waiting pubrec_7 one_message
      refl (omega arith) refl refl refl refl
