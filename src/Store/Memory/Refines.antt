-- ===== src/Store/Memory/Refines.antt =====
-- memstore.go beside the promises of a message store.
use paho_mqtt_golang.Base.{
  Listed, ℕ, ◌≡◌, ◌≢◌, ◌↔◌, ◌∙◌, refl, List, [], ◌∷◌, Bytes, true, false, Option, none, some,
  if◌then◌else◌, ◌&&◌, str_eq, str_eq_iff, arith,
}
use paho_mqtt_golang.Base.Assoc.{lookup, bytes_eq, lookup-insert, lookup-delete}
use paho_mqtt_golang.Packets.Packet.{ControlPacket}
use paho_mqtt_golang.Store.{mid_from_key}
use paho_mqtt_golang.Store.Laws.{StoreView, StoreLaws}
use paho_mqtt_golang.Store.Memory.{
  MemoryStore, keys, open_store, put, get, touch, all, del, dropped, close, reset, memory_ops,
}

pub keys_lem {κ} :
    {V : Type κ} (m : List (Bytes × V)) (k : Bytes) → Listed k (keys m) ↔ (lookup k m ≢ none)
unfolding lookup
keys_lem [] k = (λ x. absurd x, λ x. x refl)
keys_lem ((j, v) ∷ m) k = ground (arith, str_eq_iff j k, keys_lem m k)

lookup-dropped :
    (st : MemoryStore) (k j : Bytes) (o : Option ControlPacket)
    → lookup k st.messages ≡ o
    → ((dropped k st o).opened ≡ st.opened)
      × (lookup j (dropped k st o).messages ≡ (if str_eq k j then none else lookup j st.messages))
lookup-dropped st k j none e = (refl, ground (arith, str_eq_iff k j))
lookup-dropped st k j (some m) e = (refl, lookup-delete k j st.messages)

module _ (st : MemoryStore) (k : Bytes) where
  put_open :
      (j : Bytes) (m : ControlPacket)
      → st.opened ≡ true
      → ((put k m st).opened ≡ true)
        × (lookup j (put k m st).messages ≡ (if str_eq k j then some m else lookup j st.messages))
  unfolding put
  put_open j m o = (ground arith, ground (arith, lookup-insert k j m st.messages))

  all_open : st.opened ≡ true → Listed k (all st) ↔ (lookup k st.messages ≢ none)
  unfolding all
  all_open o = ground (arith, keys_lem st.messages k)

  get_open :
      (id : ℕ)
      → st.opened ≡ true
      → mid_from_key k ≡ some id
      → get k st ≡ some (lookup k st.messages)
  unfolding get
  get_open id o e = ground (arith, o, e)

  del_open :
      (id : ℕ)
      → st.opened ≡ true
      → mid_from_key k ≡ some id
      → (st' : MemoryStore) × (del k st ≡ some st')
        × (st'.opened ≡ true)
        × ((j : Bytes)
            → lookup j st'.messages ≡ (if str_eq k j then none else lookup j st.messages))
  unfolding del
  del_open id o e = (
    dropped k st (lookup k st.messages),
    ground (arith, o, e),
    (lookup-dropped st k k (lookup k st.messages) refl).0 ∙ o,
    λ j. (lookup-dropped st k j (lookup k st.messages) refl).1,
  )

  touch_open :
      (j : Bytes) (old m : ControlPacket)
      → st.opened ≡ true
      → lookup k st.messages ≡ some old
      → ((touch k m st).opened ≡ true)
        × (lookup j (touch k m st).messages
            ≡ (if true && str_eq k j then some m else lookup j st.messages))
  unfolding touch
  touch_open j old m o e = rw e (o, lookup-insert k j m st.messages)

  closed_store :
      (m : ControlPacket)
      → st.opened ≡ false
      → (put k m st ≡ st) × (del k st ≡ some st) × (get k st ≡ some none) × (all st ≡ [])
  unfolding put del get all
  closed_store m c = (ground arith, ground arith, ground arith, ground arith)

  close_store : ((close st).opened ≡ false) × (lookup k (close st).messages ≡ lookup k st.messages)
  unfolding close
  close_store = (ground arith, ground arith)

abbrev pub memory_view : StoreView MemoryStore
memory_view = record {
  contents = λ st k. lookup k st.messages;
  is_open = λ st. st.opened;
  shares = true;
}

-- MemoryStore implements the interface: while it is open it is a map from keys to packets, also over
-- put, del and reset, and All lists the keys of that map; while it is closed it answers nothing and
-- changes nothing, except that a reset empties it.
pub memory_ops-StoreLaws : StoreLaws memory_ops memory_view
memory_ops-StoreLaws = record {
  open_law = λ st k. unfold open_store in (refl, refl);
  put_law = λ st k. put_open st k;
  get_law = λ st k. get_open st k;
  touch_law = λ st k. touch_open st k;
  del_law = λ st k. del_open st k;
  all_law = λ st k. all_open st k;
  reset_law = λ st k. unfold reset lookup in (refl, refl);
  closed_law = λ st k. closed_store st k;
  close_law = λ st k. close_store st k;
}
