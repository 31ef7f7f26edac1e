-- ===== src/Store/Memory.antt =====
-- memstore.go: the store in a Go map.
pub mod Refines
use paho_mqtt_golang.Base.{
  List, [], ◌∷◌, Bytes, Bool, true, false, Option, none, some, if◌then◌else◌,
}
use paho_mqtt_golang.Base.Assoc.{lookup, insert, delete, bytes_eq}
use paho_mqtt_golang.Packets.Packet.{ControlPacket}
use paho_mqtt_golang.Store.{StoreOps, mid_from_key}

pub record MemoryStore : Type 0 where
  pub messages : List (Bytes × ControlPacket)
  pub opened : Bool

abbrev pub new_memory_store : MemoryStore
new_memory_store = record { messages = []; opened = false }

-- The keys of a map, in the order of the range over it.
abbrev pub keys {κ} : {V : Type κ} → List (Bytes × V) → List Bytes
keys [] = []
keys ((k, v) ∷ m) = k ∷ keys m

unfoldable pub open_store : MemoryStore → MemoryStore
open_store st = record st { opened = true }

unfoldable pub put : Bytes → ControlPacket → MemoryStore → MemoryStore
put key message st =
    if st.opened then record st { messages = insert key message st.messages } else st

-- The message id of the key is read for the log, and can panic.
unfoldable pub get : Bytes → MemoryStore → Option (Option ControlPacket)
get key st =
    if st.opened
    then elim (mid_from_key key) [ none ↦ none | some mid ↦ some (lookup key st.messages) ]
    else some none

-- The map holds the packet that `get` gives.
abbrev pub touched : Bytes → ControlPacket → MemoryStore → Option ControlPacket → MemoryStore
touched key message st none = st
touched key message st (some old) = record st { messages = insert key message st.messages }

unfoldable pub touch : Bytes → ControlPacket → MemoryStore → MemoryStore
touch key message st = touched key message st (lookup key st.messages)

unfoldable pub all : MemoryStore → List Bytes
all st = if st.opened then keys st.messages else []

abbrev pub dropped : Bytes → MemoryStore → Option ControlPacket → MemoryStore
dropped key st none = st
dropped key st (some m) = record st { messages = delete key st.messages }

unfoldable pub del : Bytes → MemoryStore → Option MemoryStore
del key st =
    if st.opened
    then elim (mid_from_key key) [
      | none ↦ none
      | some mid ↦ some (dropped key st (lookup key st.messages))
    ]
    else some st

unfoldable pub close : MemoryStore → MemoryStore
close st = if st.opened then record st { opened = false } else st

-- A closed store is reset as well.
unfoldable pub reset : MemoryStore → MemoryStore
reset st = record st { messages = [] }

abbrev pub memory_ops : StoreOps MemoryStore
memory_ops = record {
  open_store = open_store;
  put = put;
  get = get;
  touch = touch;
  all = all;
  del = del;
  close = close;
  reset = reset;
}
