-- ===== src/Store/Laws.antt =====
-- What a message store promises: it is a map from keys to packets while it is open.
use paho_mqtt_golang.Base.{
  Listed, ℕ, ◌≡◌, ◌≢◌, ◌↔◌, [], Bytes, Bool, true, false, Option, none, some, if◌then◌else◌, ◌&&◌,
  str_eq,
}
use paho_mqtt_golang.Packets.Packet.{ControlPacket}
use paho_mqtt_golang.Store.{StoreOps, mid_from_key}

-- The map that a state stands for, and whether the store holds the objects that it gives.
pub record StoreView (S : Type 0) : Type 0 where
  pub contents : S → Bytes → Option ControlPacket
  pub is_open : S → Bool
  pub shares : Bool

-- The state holds `contents`, which only put, del and reset change, and those as a map does.
pub record StoreLaws {S : Type 0} (s : StoreOps S) (v : StoreView S) : Type 0 where
  pub open_law :
      (st : S) (k : Bytes)
      → (v.is_open (s.open_store st) ≡ true) × (v.contents (s.open_store st) k ≡ v.contents st k)
  pub put_law :
      (st : S) (k j : Bytes) (m : ControlPacket)
      → v.is_open st ≡ true
      → (v.is_open (s.put k m st) ≡ true)
        × (v.contents (s.put k m st) j ≡ (if str_eq k j then some m else v.contents st j))
  pub get_law :
      (st : S) (k : Bytes) (id : ℕ)
      → v.is_open st ≡ true
      → mid_from_key k ≡ some id
      → s.get k st ≡ some (v.contents st k)
  pub touch_law :
      (st : S) (k j : Bytes) (old m : ControlPacket)
      → v.is_open st ≡ true
      → v.contents st k ≡ some old
      → (v.is_open (s.touch k m st) ≡ true)
        × (v.contents (s.touch k m st) j
            ≡ (if v.shares && str_eq k j then some m else v.contents st j))
  pub del_law :
      (st : S) (k : Bytes) (id : ℕ)
      → v.is_open st ≡ true
      → mid_from_key k ≡ some id
      → (st' : S) × (s.del k st ≡ some st')
        × (v.is_open st' ≡ true)
        × ((j : Bytes) → v.contents st' j ≡ (if str_eq k j then none else v.contents st j))
  pub all_law :
      (st : S) (k : Bytes) → v.is_open st ≡ true → Listed k (s.all st) ↔ (v.contents st k ≢ none)
  pub reset_law :
      (st : S) (k : Bytes)
      → (v.is_open (s.reset st) ≡ v.is_open st) × (v.contents (s.reset st) k ≡ none)
  pub closed_law :
      (st : S) (k : Bytes) (m : ControlPacket)
      → v.is_open st ≡ false
      → (s.put k m st ≡ st) × (s.del k st ≡ some st) × (s.get k st ≡ some none) × (s.all st ≡ [])
  pub close_law :
      (st : S) (k : Bytes)
      → (v.is_open (s.close st) ≡ false) × (v.contents (s.close st) k ≡ v.contents st k)
