-- ===== src/Store.antt =====
-- store.go: the keys of the message store, and which messages are persisted.
pub mod Keys
pub mod Laws
pub mod Memory
pub mod Ordered
pub mod File
pub mod Persist
mod Tests
use paho_mqtt_golang.Base.{
  ℕ, zero, suc, ◌+◌, ◌-◌, ◌*◌, ◌/◌, ◌%◌, List, [], ◌∷◌, ◌++◌, Bytes, codes, Bool, false, ◌||◌,
  Option, none, some, if◌then◌else◌, ltb, ◌==◌, str_eq,
}
use paho_mqtt_golang.Packets.Packet.{ControlPacket, details, packet_type}

-- `%d` on a uint16, which has five digits at most.
unfoldable pub decimal : ℕ → ℕ → Bytes
decimal zero n = (48 + n % 10) ∷ []
decimal (suc fuel) n =
    let front = decimal fuel (n / 10) in
    if ltb n 10 then (48 + n) ∷ [] else front ++ ((48 + n % 10) ∷ [])

abbrev pub inbound_prefix : Bytes
inbound_prefix = codes "i."

abbrev pub outbound_prefix : Bytes
outbound_prefix = codes "o."

unfoldable pub inbound_key_from_mid : ℕ → Bytes
inbound_key_from_mid id = inbound_prefix ++ decimal 4 id

unfoldable pub outbound_key_from_mid : ℕ → Bytes
outbound_key_from_mid id = outbound_prefix ++ decimal 4 id

-- `strconv.ParseUint(s, 10, 16)` on the digits behind `n`; `none` is its error.
unfoldable pub parse_digits : ℕ → Bytes → Option ℕ
parse_digits n [] = some n
parse_digits n (c ∷ s) =
    let n' = n * 10 + (c - 48) in
    let rest = parse_digits n' s in
    if ltb c 48 || ltb 57 c then none else if ltb 65535 n' then none else rest

abbrev pub parse_uint : Bytes → Option ℕ
parse_uint [] = none
parse_uint (c ∷ s) = parse_digits 0 (c ∷ s)

-- `key[2:]`, then the number; `none` is a panic, of the slice or of `chkerr`.
unfoldable pub mid_from_key : Bytes → Option ℕ
mid_from_key (x ∷ y ∷ s) = parse_uint s
mid_from_key _ = none

-- `key[:2] == prefix`; `none` is the panic on a shorter key.
abbrev pub first_two : Bytes → Option Bytes
first_two (x ∷ y ∷ s) = some (x ∷ y ∷ [])
first_two _ = none

unfoldable pub is_key_outbound : Bytes → Option Bool
is_key_outbound key = elim (first_two key) [
  | some p ↦ some (str_eq p outbound_prefix)
  | none ↦ none
]

unfoldable pub is_key_inbound : Bytes → Option Bool
is_key_inbound key = elim (first_two key) [ some p ↦ some (str_eq p inbound_prefix) | none ↦ none ]

-- The interface Store over a state; `none` is a panic. `touch` is no method: it is what becomes of
-- the store when the caller changes the packet that `get` gave it to another value, since a store can
-- give the object that it holds.
pub record StoreOps (S : Type 0) : Type 0 where
  pub open_store : S → S
  pub put : Bytes → ControlPacket → S → S
  pub get : Bytes → S → Option (Option ControlPacket)
  pub touch : Bytes → ControlPacket → S → S
  pub all : S → List Bytes
  pub del : Bytes → S → Option S
  pub close : S → S
  pub reset : S → S

-- What `persistOutbound` and `persistInbound` ask of the store; `invalid` is logged only.
pub data Request : Type 0 where
  store : Bytes → Request
  remove : Bytes → Request
  nothing invalid : Request

abbrev among : ℕ → List ℕ → Bool
among t [] = false
among t (u ∷ us) = t == u || among t us

-- PUBACK = 4, PUBCOMP = 7; PUBLISH = 3, PUBREL = 6, SUBSCRIBE = 8, UNSUBSCRIBE = 10.
unfoldable pub outbound_request : ControlPacket → Request
outbound_request m =
    let d = details m in
    let t = packet_type m in
    let key = outbound_key_from_mid d.message_id in
    if d.qos == 0
    then (if among t (4 ∷ 7 ∷ []) then remove (inbound_key_from_mid d.message_id) else nothing)
    else if d.qos == 1
    then (if among t (3 ∷ 6 ∷ 8 ∷ 10 ∷ []) then store key else invalid)
    else if d.qos == 2
    then (if among t (3 ∷ []) then store key else invalid)
    else nothing

-- SUBACK = 9, UNSUBACK = 11, PUBREC = 5, PINGRESP = 13, CONNACK = 2.
unfoldable pub inbound_request : ControlPacket → Request
inbound_request m =
    let d = details m in
    let t = packet_type m in
    let key = inbound_key_from_mid d.message_id in
    if d.qos == 0
    then (if among t (4 ∷ 9 ∷ 11 ∷ 7 ∷ [])
        then remove (outbound_key_from_mid d.message_id)
        else if among t (3 ∷ 5 ∷ 13 ∷ 2 ∷ [])
        then nothing
        else invalid)
    else if d.qos == 1
    then (if among t (3 ∷ 6 ∷ []) then store key else invalid)
    else if d.qos == 2
    then (if among t (3 ∷ []) then store key else invalid)
    else nothing

module _ {S : Type 0} (s : StoreOps S) where
  abbrev pub run_request : Request → ControlPacket → S → Option S
  run_request (store key) m st = some (s.put key m st)
  run_request (remove key) m st = s.del key st
  run_request nothing m st = some st
  run_request invalid m st = some st

  unfoldable pub persist_outbound : ControlPacket → S → Option S
  persist_outbound m st = run_request (outbound_request m) m st

  unfoldable pub persist_inbound : ControlPacket → S → Option S
  persist_inbound m st = run_request (inbound_request m) m st
