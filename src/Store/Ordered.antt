-- ===== src/Store/Ordered.antt =====
-- memstore_ordered.go: the store in a Go map with the times of the puts, which order what All returns.
pub mod Sorting
pub mod Refines
use paho_mqtt_golang.Base.{
  ℕ, List, [], ◌∷◌, Bytes, Bool, true, false, Option, none, some, if◌then◌else◌, leb,
}
use paho_mqtt_golang.Base.Assoc.{lookup, insert, delete, bytes_eq}
use paho_mqtt_golang.Packets.Packet.{ControlPacket}
use paho_mqtt_golang.Store.{StoreOps, mid_from_key}

-- A time is a number: of what the clock shows, the code only compares two values.
pub record StoredMessage : Type 0 where
  pub ts : ℕ
  pub msg : ControlPacket

pub record OrderedMemoryStore : Type 0 where
  pub messages : List (Bytes × StoredMessage)
  pub opened : Bool

unfoldable pub open_store : OrderedMemoryStore → OrderedMemoryStore
open_store st = record st { opened = true }

-- `now` is what `time.Now()` returns.
unfoldable pub put : ℕ → Bytes → ControlPacket → OrderedMemoryStore → OrderedMemoryStore
put now key message st =
    if st.opened
    then record st { messages = insert key (record { ts = now; msg = message }) st.messages }
    else st

-- A missing key gives the zero storedMessage, whose message is nil.
abbrev pub message_of : Option StoredMessage → Option ControlPacket
message_of none = none
message_of (some m) = some m.msg

unfoldable pub get : Bytes → OrderedMemoryStore → Option (Option ControlPacket)
get key st =
    if st.opened
    then elim (mid_from_key key) [
      | none ↦ none
      | some mid ↦ some (message_of (lookup key st.messages))
    ]
    else some none

-- The map holds the packet that `get` gives; its time stays.
abbrev pub touched :
    Bytes → ControlPacket → OrderedMemoryStore → Option StoredMessage → OrderedMemoryStore
touched key message st none = st
touched key message st (some old) = record st {
  messages = insert key (record old { msg = message }) st.messages;
}

unfoldable pub touch : Bytes → ControlPacket → OrderedMemoryStore → OrderedMemoryStore
touch key message st = touched key message st (lookup key st.messages)

abbrev pub times : List (Bytes × StoredMessage) → List (ℕ × Bytes)
times [] = []
times ((k, v) ∷ m) = (v.ts, k) ∷ times m

-- `sort.Slice` by the times; equal times may stand in any order, here in the one of the range.
unfoldable pub insert_by_time : ℕ × Bytes → List (ℕ × Bytes) → List (ℕ × Bytes)
insert_by_time x [] = x ∷ []
insert_by_time x (y ∷ ys) = if leb x.0 y.0 then x ∷ y ∷ ys else y ∷ insert_by_time x ys

unfoldable pub sort_by_time : List (ℕ × Bytes) → List (ℕ × Bytes)
sort_by_time [] = []
sort_by_time (x ∷ xs) = insert_by_time x (sort_by_time xs)

abbrev pub second : List (ℕ × Bytes) → List Bytes
second [] = []
second ((t, k) ∷ xs) = k ∷ second xs

unfoldable pub all : OrderedMemoryStore → List Bytes
all st = if st.opened then second (sort_by_time (times st.messages)) else []

abbrev pub dropped : Bytes → OrderedMemoryStore → Option StoredMessage → OrderedMemoryStore
dropped key st none = st
dropped key st (some m) = record st { messages = delete key st.messages }

unfoldable pub del : Bytes → OrderedMemoryStore → Option OrderedMemoryStore
del key st =
    if st.opened
    then elim (mid_from_key key) [
      | none ↦ none
      | some mid ↦ some (dropped key st (lookup key st.messages))
    ]
    else some st

unfoldable pub close : OrderedMemoryStore → OrderedMemoryStore
close st = if st.opened then record st { opened = false } else st

unfoldable pub reset : OrderedMemoryStore → OrderedMemoryStore
reset st = record st { messages = [] }

-- The operations at the time `now`.
abbrev pub ordered_ops : ℕ → StoreOps OrderedMemoryStore
ordered_ops now = record {
  open_store = open_store;
  put = put now;
  get = get;
  touch = touch;
  all = all;
  del = del;
  close = close;
  reset = reset;
}
