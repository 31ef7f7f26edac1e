-- ===== src/Store/Ordered/Refines.antt =====
-- memstore_ordered.go beside the promises of a message store.
use paho_mqtt_golang.Base.{
  ℕ, ◌≡◌, ◌≢◌, ◌↔◌, ◌∙◌, refl, [], Bytes, true, false, Option, none, some, if◌then◌else◌, ◌&&◌,
  Listed, str_eq, str_eq_iff, arith,
}
use paho_mqtt_golang.Base.Assoc.{lookup, bytes_eq, lookup-insert, lookup-delete}
use paho_mqtt_golang.Packets.Packet.{ControlPacket}
use paho_mqtt_golang.Store.{mid_from_key}
use paho_mqtt_golang.Store.Laws.{StoreView, StoreLaws}
use paho_mqtt_golang.Store.Memory.Refines.{keys_lem}
use paho_mqtt_golang.Store.Ordered.{
  OrderedMemoryStore, StoredMessage, message_of, open_store, put, get, touch, touched, all, del,
  dropped, close, reset, ordered_ops,
}
use paho_mqtt_golang.Store.Ordered.Sorting.{Listed-all}

message_of_some : (o : Option StoredMessage) → (o ≢ none) ↔ (message_of o ≢ none)
message_of_some none = ground arith
message_of_some (some m) = ground arith

lookup-dropped :
    (st : OrderedMemoryStore) (k j : Bytes) (o : Option StoredMessage)
    → lookup k st.messages ≡ o
    → ((dropped k st o).opened ≡ st.opened)
      × (lookup j (dropped k st o).messages ≡ (if str_eq k j then none else lookup j st.messages))
lookup-dropped st k j none e = (refl, ground (arith, str_eq_iff k j))
lookup-dropped st k j (some m) e = (refl, lookup-delete k j st.messages)

module _ (st : OrderedMemoryStore) (k : Bytes) where
  put_open :
      (now : ℕ) (j : Bytes) (m : ControlPacket)
      → st.opened ≡ true
      → ((put now k m st).opened ≡ true)
        × (message_of (lookup j (put now k m st).messages)
            ≡ (if str_eq k j then some m else message_of (lookup j st.messages)))
  unfolding put
  put_open now j m o =
      (ground arith, ground (arith, lookup-insert k j (record { ts = now; msg = m }) st.messages))

  all_open : st.opened ≡ true → Listed k (all st) ↔ (message_of (lookup k st.messages) ≢ none)
  all_open o =
      ground
        (arith, Listed-all st k o, keys_lem st.messages k, message_of_some (lookup k st.messages))

  get_open :
      (id : ℕ)
      → st.opened ≡ true
      → mid_from_key k ≡ some id
      → get k st ≡ some (message_of (lookup k st.messages))
  unfolding get
  get_open id o e = ground (arith, o, e)

  del_open :
      (id : ℕ)
      → st.opened ≡ true
      → mid_from_key k ≡ some id
      → (st' : OrderedMemoryStore) × (del k st ≡ some st')
        × (st'.opened ≡ true)
        × ((j : Bytes)
            → message_of (lookup j st'.messages)
              ≡ (if str_eq k j then none else message_of (lookup j st.messages)))
  unfolding del
  del_open id o e = (
    dropped k st (lookup k st.messages),
    ground (arith, o, e),
    (lookup-dropped st k k (lookup k st.messages) refl).0 ∙ o,
    λ j. ground (arith, (lookup-dropped st k j (lookup k st.messages) refl).1),
  )

  touch_open :
      (j : Bytes) (old m : ControlPacket)
      → st.opened ≡ true
      → message_of (lookup k st.messages) ≡ some old
      → ((touch k m st).opened ≡ true)
        × (message_of (lookup j (touch k m st).messages)
            ≡ (if true && str_eq k j then some m else message_of (lookup j st.messages)))
  unfolding touch
  touch_open j old m o e = go (lookup k st.messages) e
    where
      go :
          (x : Option StoredMessage)
          → message_of x ≡ some old
          → ((touched k m st x).opened ≡ true)
            × (message_of (lookup j (touched k m st x).messages)
                ≡ (if true && str_eq k j then some m else message_of (lookup j st.messages)))
      go none h = absurd (ground (arith, h))
      go (some f) h = (o, ground (arith, lookup-insert k j (record f { msg = m }) st.messages))

  closed_store :
      (now : ℕ) (m : ControlPacket)
      → st.opened ≡ false
      → (put now k m st ≡ st) × (del k st ≡ some st) × (get k st ≡ some none) × (all st ≡ [])
  unfolding put del get all
  closed_store now m c = (ground arith, ground arith, ground arith, ground arith)

  close_store :
      ((close st).opened ≡ false)
      × (message_of (lookup k (close st).messages) ≡ message_of (lookup k st.messages))
  unfolding close
  close_store = (ground arith, ground arith)

abbrev pub ordered_view : StoreView OrderedMemoryStore
ordered_view = record {
  contents = λ st k. message_of (lookup k st.messages);
  is_open = λ st. st.opened;
  shares = true;
}

-- OrderedMemoryStore implements the interface at any time of the clock: the times that it adds do not
-- show in what it stores.
pub ordered_ops-StoreLaws : (now : ℕ) → StoreLaws (ordered_ops now) ordered_view
ordered_ops-StoreLaws now = record {
  open_law = λ st k. unfold open_store in (refl, refl);
  put_law = λ st k. put_open st k now;
  get_law = λ st k. get_open st k;
  touch_law = λ st k. touch_open st k;
  del_law = λ st k. del_open st k;
  all_law = λ st k. all_open st k;
  reset_law = λ st k. unfold reset lookup in (refl, refl);
  closed_law = λ st k. closed_store st k now;
  close_law = λ st k. close_store st k;
}
