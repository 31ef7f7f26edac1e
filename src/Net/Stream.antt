-- ===== src/Net/Stream.antt =====
-- net.go, startIncoming: the loop over the packets of a connection ends, and reads what was written.
use paho_mqtt_golang.Base.{
  ℕ, zero, suc, ◌<◌, ◌≡◌, refl, sym, ap, ◌∙◌, List, [], ◌∷◌, ◌++◌, Bytes, Bool, true, false, ◌&&◌,
  Option, none, some, if◌then◌else◌, length, All, map, arith,
}
use paho_mqtt_golang.Packets.Result.{eof, ok}
use paho_mqtt_golang.Packets.Packet.{ControlPacket}
use paho_mqtt_golang.Packets.Write.{write}
use paho_mqtt_golang.Packets.Read.{ReadResult, no_packet, packet, read_packet}
use paho_mqtt_golang.Packets.Consume.{read_packet_shrinks, read_packet-nil}
use paho_mqtt_golang.Packets.RoundTrip.{IsWritable, read_packet-write}
use paho_mqtt_golang.Net.Incoming.{Inbound, received, read_error, is_end, start_incoming}

abbrev Ends : Option (List Inbound) → Type 0
Ends o = (l : List Inbound) × (o ≡ some l)

-- However the connection ends, the loop of startIncoming ends with it: more fuel than there are
-- bytes is enough.
pub start_incoming_ends :
    (closed : Bool) (fuel : ℕ) (r : Bytes)
    → length r < fuel
    → (l : List Inbound) × (start_incoming closed fuel r ≡ some l)
unfolding start_incoming
start_incoming_ends closed zero r h = absurd (omega arith)
start_incoming_ends closed (suc fuel) r h =
    go (read_packet r) refl (λ rest shorter. start_incoming_ends closed fuel rest shorter)
  where
    go :
        (x : ReadResult)
        → read_packet r ≡ x
        → ((rest : Bytes) → length rest < fuel → Ends (start_incoming closed fuel rest))
        → Ends (start_incoming closed (suc fuel) r)
    go (no_packet e) eq more =
        ((if closed && is_end e then [] else read_error e ∷ []), rw (eq, start_incoming) refl)
    go (packet cp (some e) rest) eq more = (read_error e ∷ [], rw (eq, start_incoming) refl)
    go (packet cp none rest) eq more =
        let (l, found) = more rest (omega (arith, read_packet_shrinks r cp none rest eq)) in
        (received cp ∷ l, rw (eq, found, start_incoming) refl)

-- The bytes of packets that are written one after the other, and `tail` behind them.
abbrev pub Written : Bytes → List ControlPacket → Bytes → Type 0
Written tail [] bytes = bytes ≡ tail
Written tail (p ∷ ps) bytes =
    (b : Bytes) × (more : Bytes) × ((write p).1 ≡ ok b) × (bytes ≡ b ++ more) × Written tail ps more

-- A packet as `Write` leaves it, as startIncoming passes it on.
abbrev pub arrives : ControlPacket → Inbound
arrives p = received (write p).0

abbrev pub at_end : Bool → List Inbound
at_end closed = if closed then [] else read_error eof ∷ []

start_incoming-nil :
    (closed : Bool) (fuel : ℕ) → start_incoming closed (suc fuel) [] ≡ some (at_end closed)
unfolding start_incoming
start_incoming-nil true fuel = cc read_packet-nil
start_incoming-nil false fuel = cc read_packet-nil

-- The packets come first, and then what the tail gives: without one, the end of the connection.
pub start_incoming-write :
    (closed : Bool) (fuel : ℕ) (tail : Bytes) (ps : List ControlPacket) (bytes : Bytes)
    → All IsWritable ps
    → Written tail ps bytes
    → length bytes < fuel
    → (l : List Inbound) × (start_incoming closed fuel bytes ≡ some (map arrives ps ++ l))
      × (tail ≡ [] → l ≡ at_end closed)
unfolding start_incoming
start_incoming-write closed zero tail ps bytes w e h = absurd (omega arith)
start_incoming-write closed (suc fuel) tail [] bytes w e h =
    let (l, ends) = start_incoming_ends closed (suc fuel) bytes h in
    let none_left : tail ≡ [] → some l ≡ some (at_end closed) = λ n.
      sym ends ∙ (ap (start_incoming closed (suc fuel)) (e ∙ n) ∙ start_incoming-nil closed fuel) in
    (l, ends, λ n. ground (arith, none_left n))
start_incoming-write closed (suc fuel) tail (p ∷ ps) bytes w (b, more, one, all, rest) h =
    let read : read_packet bytes ≡ packet (write p).0 none more =
      ap read_packet all ∙ read_packet-write p b more w.0 one in
    let shorter = read_packet_shrinks bytes (write p).0 none more read in
    let (l, later, ends) = start_incoming-write closed fuel tail ps more w.1 rest (omega arith) in
    (l, rw (read, later, start_incoming) refl, ends)
