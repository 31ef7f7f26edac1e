-- ===== src/Client/Tests.antt =====
-- A client that is connected, and the same client when its connection is gone.
use paho_mqtt_golang.Base.{
  ◌↔◌, ℕ, ◌≡◌, refl, inl, [], ◌∷◌, codes, true, false, not, ◌&&◌, none, some, if◌then◌else◌, ◌==◌,
  arith,
}
use paho_mqtt_golang.Base.Assoc.{lookup, nat_eq, bytes_eq}
use paho_mqtt_golang.Packets.Packet.{
  PublishPacket, UnsubscribePacket, publish, unsubscribe, plain_header,
}
use paho_mqtt_golang.Token.{
  Token, fresh, publish_token, subscribe_token, unsubscribe_token, not_connected,
}
use paho_mqtt_golang.Router.{new_router}
use paho_mqtt_golang.Store.Memory.{MemoryStore, memory_ops}
use paho_mqtt_golang.Store.Memory.Refines.{memory_view, memory_ops-StoreLaws}
use paho_mqtt_golang.Status.{ConnectionStatus, Status, connected, disconnected}
use paho_mqtt_golang.Options.{new_client_options}
use paho_mqtt_golang.Net.{Comms}
use paho_mqtt_golang.Client.{Client, Looks, is_connected, only_stored}
use paho_mqtt_golang.Client.Publish.{text, payload_bytes, new_publish, publish_message}
use paho_mqtt_golang.Client.Publish.Laws.{IsKept, publish_message-IsKept}
use paho_mqtt_golang.Client.Publish.Dropped.{IsDropped, publish_message-IsDropped}
use paho_mqtt_golang.Client.Subscribe.{subscribe_topic, subscribe_multiple, unsubscribe_from}
use paho_mqtt_golang.Client.Subscribe.Barred.{IsBarred}
use paho_mqtt_golang.Client.Subscribe.Refused.{IsRefused, subscriptions-IsRefused}

abbrev pub waiting : PublishPacket
waiting = record {
  fixed_header = plain_header 3 2;
  topic_name = codes "t";
  message_id = 7;
  payload = codes "hi";
}

abbrev pub leaves : UnsubscribePacket
leaves = record { fixed_header = plain_header 10 1; message_id = 8; topics = codes "t" ∷ [] }

-- Token 0 publishes with the id 7, token 1 subscribes with the id 8.
abbrev tokens : ℕ → Token
tokens r = if r == 1 then fresh subscribe_token else fresh publish_token

abbrev pub comms : Comms MemoryStore
comms = record {
  ids = record { index = (7, 0) ∷ (8, 1) ∷ []; last_issued_id = 8; tokens = tokens };
  persist = record {
    messages = (codes "o.7", publish waiting) ∷ (codes "o.8", unsubscribe leaves) ∷ [];
    opened = true;
  };
  keep_alive = 30;
  ping_outstanding = false;
  last_received = 0;
  last_sent = 0;
  wire = [];
  conn_closed = false;
}

abbrev pub one_client : Client MemoryStore
one_client = record {
  options = new_client_options;
  comms = comms;
  msg_router = new_router;
  obound = [];
  obound_p = [];
  next_token = 2;
}

abbrev at_status : Status → ConnectionStatus
at_status s = record {
  status = s;
  will_reconnect = false;
  action_completed = none;
  made = 0;
  closed = λ k. false;
}

abbrev always : Status → Looks
always s = record {
  at_entry = at_status s;
  at_gate = at_status s;
  at_filter = at_status s;
  at_send = at_status s;
}

is_connected-connected : is_connected new_client_options (at_status connected) ≡ true
unfolding is_connected
is_connected-connected = refl

publish_message-IsKept_example :
    (id : ℕ) × IsKept memory_ops memory_view memory_ops-StoreLaws 2 publish_token id
      (not (only_stored connected) && false)
      (new_publish (codes "t") 1 false (codes "hi"))
      one_client
      (publish_message memory_ops
        (always connected)
        false
        (codes "t")
        1
        false
        (text (codes "hi"))
        one_client)
unfolding lookup payload_bytes
publish_message-IsKept_example =
    publish_message-IsKept memory_ops memory_view memory_ops-StoreLaws (always connected) false
      (codes "t") 1 false (text (codes "hi")) (codes "hi") one_client 9 refl (omega arith)
      (omega arith) (omega arith) refl (inl refl) refl is_connected-connected

-- A client that has lost its connection for good.
publish_message-IsDropped_example :
    IsDropped (some not_connected) one_client (
      publish_message memory_ops
        (always disconnected)
        true
        (codes "t")
        0
        false
        (text [])
        one_client)
unfolding is_connected
publish_message-IsDropped_example =
    publish_message-IsDropped memory_ops (always disconnected) true (codes "t") 0 false (text [])
      one_client (some not_connected) refl

subscriptions-IsRefused_example :
    (IsBarred one_client.options (always disconnected) not_connected
      ↔ IsRefused subscribe_token not_connected one_client
          (subscribe_topic memory_ops (always disconnected) true (codes "t") 1 (some 3) one_client))
    × (IsBarred one_client.options (always disconnected) not_connected
        ↔ IsRefused subscribe_token not_connected one_client
            (subscribe_multiple memory_ops (always disconnected) true [] (some 3) one_client))
    × (IsBarred one_client.options (always disconnected) not_connected
        ↔ IsRefused unsubscribe_token not_connected one_client
            (unsubscribe_from memory_ops (always disconnected) true (codes "t" ∷ []) one_client))
subscriptions-IsRefused_example =
    subscriptions-IsRefused memory_ops (always disconnected) true (codes "t") 1 [] (codes "t" ∷ [])
      (some 3) one_client not_connected refl

-- A client that is disconnected is barred.
disconnected-IsBarred : IsBarred one_client.options (always disconnected) not_connected
unfolding is_connected
disconnected-IsBarred = inl (refl, refl)
