-- ===== src/Net/Outgoing/Wire.antt =====
-- net.go, startOutgoingComms: what a peer reads from the connection, up to the first Write that
-- sends a part of its bytes.
use paho_mqtt_golang.Base.{
  ℕ, suc, ◌≡◌, refl, sym, ap, ◌∙◌, inl, inr, List, [], ◌∷◌, ◌++◌, Bytes, Bool, true, false, Option,
  none, some, if◌then◌else◌, ◌&&◌, take, length, All, map, append_assoc, append-nil, Bool-cases,
  arith, ◌==◌,
}
use paho_mqtt_golang.Packets.Result.{Result, ok, err, panic}
use paho_mqtt_golang.Packets.Packet.{ControlPacket, PublishPacket, publish, disconnect}
use paho_mqtt_golang.Packets.Write.{write}
use paho_mqtt_golang.Packets.RoundTrip.{IsWritable}
use paho_mqtt_golang.Token.{TokenError, set_error}
use paho_mqtt_golang.Net.{Comms, PacketAndToken, on_some, update_last_sent}
use paho_mqtt_golang.Net.Incoming.{Inbound, start_incoming}
use paho_mqtt_golang.Net.Outgoing.{
  Fault, Sent, sent, not_sent, panicked, write_to, put_on_wire, after_write, is_disconnect, sent_at,
  with_ids, written, and_then, obound_result, handle_obound, handle_oboundp, handle_from_incoming,
  Departure, obound, oboundp, from_incoming, handle_departure, start_outgoing_comms,
}
use paho_mqtt_golang.Net.Stream.{Written, arrives, at_end, start_incoming-write}

-- How the Write of a departure ends.
abbrev pub outcome_of : Departure → Sent
outcome_of (obound now fault m) = write_to fault m.p
outcome_of (oboundp now fault m) = write_to fault m.p
outcome_of (from_incoming now fault m) = write_to fault m.p

abbrev pub packet_of : Departure → ControlPacket
packet_of (obound now fault m) = m.p
packet_of (oboundp now fault m) = m.p
packet_of (from_incoming now fault m) = m.p

abbrev pub sent_bytes : Sent → Bytes
sent_bytes (sent bytes) = bytes
sent_bytes (not_sent e part) = part
sent_bytes panicked = []

-- The packets that the connection took whole before it took a part of one, in order.
abbrev pub then_packets : ControlPacket → Sent → List ControlPacket → List ControlPacket
then_packets p (sent bytes) ps = p ∷ ps
then_packets p (not_sent e []) ps = ps
then_packets p (not_sent e (b ∷ part)) ps = []
then_packets p panicked ps = ps

abbrev pub whole_packets : List Departure → List ControlPacket
whole_packets [] = []
whole_packets (d ∷ ds) = then_packets (packet_of d) (outcome_of d) (whole_packets ds)

-- No Write that failed has left a part of its bytes.
abbrev pub leaves_none : Sent → Bool
leaves_none (not_sent e (b ∷ part)) = false
leaves_none _ = true

abbrev pub no_parts : List Departure → Bool
no_parts [] = true
no_parts (d ∷ ds) = leaves_none (outcome_of d) && no_parts ds

module _ {S : Type 0} where
  -- What a handler has left on the connection, unless it panics.
  abbrev Leaves : Bytes → Option (Comms S × List TokenError) → Type 0
  Leaves bytes none = Unit
  Leaves bytes (some (c, errors)) = c.wire ≡ bytes

  wire-update_last_sent : (now : ℕ) (c : Comms S) → (update_last_sent now c).wire ≡ c.wire
  unfolding update_last_sent
  wire-update_last_sent now c = refl

  handle_from_incoming-Leaves :
      (now : ℕ) (fault : Option Fault) (m : PacketAndToken) (c : Comms S)
      → Leaves (c.wire ++ sent_bytes (write_to fault m.p)) (handle_from_incoming now fault m c)
  unfolding handle_from_incoming
  handle_from_incoming-Leaves now fault m c = go (write_to fault m.p)
    where
      go :
          (x : Sent)
          → Leaves (c.wire ++ sent_bytes x) (elim x [
            | sent bytes ↦ some (update_last_sent now (put_on_wire bytes c), [])
            | not_sent e part ↦
                some (with_ids (put_on_wire part c) (on_some (set_error e) m.t c.ids), e ∷ [])
            | panicked ↦ none
          ])
      go (sent bytes) = wire-update_last_sent now (put_on_wire bytes c)
      go (not_sent e part) = refl
      go panicked = tt

  Leaves-if :
      (now : ℕ) (bytes : Bytes) (b : Bool) (c : Comms S)
      → c.wire ≡ bytes
      → Leaves bytes (sent_at now (if b then some c else none))
  Leaves-if now bytes true c h = wire-update_last_sent now c ∙ h
  Leaves-if now bytes false c h = tt

  after_write-Leaves :
      (now : ℕ) (p : ControlPacket) (t : Option ℕ) (c : Comms S)
      → Leaves c.wire (sent_at now (after_write p t c))
  after_write-Leaves now (disconnect m) none c = tt
  after_write-Leaves now (disconnect m) (some ref) c =
      Leaves-if now c.wire (is_disconnect (c.ids.tokens ref).kind) _ refl
  after_write-Leaves now _ t c = wire-update_last_sent now c

  handle_oboundp-Leaves :
      (now : ℕ) (fault : Option Fault) (m : PacketAndToken) (c : Comms S)
      → Leaves (c.wire ++ sent_bytes (write_to fault m.p)) (handle_oboundp now fault m c)
  unfolding handle_oboundp
  handle_oboundp-Leaves now fault m c = go (write_to fault m.p)
    where
      go :
          (x : Sent)
          → Leaves (c.wire ++ sent_bytes x) (elim x [
            | sent bytes ↦ sent_at now (after_write m.p m.t (put_on_wire bytes c))
            | not_sent e part ↦
                some (with_ids (put_on_wire part c) (on_some (set_error e) m.t c.ids), e ∷ [])
            | panicked ↦ none
          ])
      go (sent bytes) = after_write-Leaves now m.p m.t (put_on_wire bytes c)
      go (not_sent e part) = refl
      go panicked = tt

  published-Leaves :
      (now : ℕ) (fault : Option Fault) (p : PublishPacket) (t : Option ℕ) (c : Comms S)
      → Leaves
          (c.wire ++ sent_bytes (write_to fault (publish p)))
          (handle_obound now fault (record { p = publish p; t = t }) c)
  unfolding handle_obound
  published-Leaves now fault p t c = go (write_to fault (publish p)) t
    where
      go : (x : Sent) (t : Option ℕ) → Leaves (c.wire ++ sent_bytes x) (obound_result now p t c x)
      go (sent bytes) (some ref) = elim (Bool-cases (p.fixed_header.qos == 0)) [
        | inl yes_zero ↦ rw yes_zero (wire-update_last_sent now _)
        | inr above ↦ rw above (wire-update_last_sent now _)
      ]
      go (sent bytes) none = elim (Bool-cases (p.fixed_header.qos == 0)) [
        | inl yes_zero ↦ rw yes_zero tt
        | inr above ↦ rw above (wire-update_last_sent now _)
      ]
      go (not_sent e part) (some ref) = refl
      go (not_sent e part) none = tt
      go panicked t = tt

  handle_obound-Leaves :
      (now : ℕ) (fault : Option Fault) (p : ControlPacket) (t : Option ℕ) (c : Comms S)
      → Leaves
          (c.wire ++ sent_bytes (write_to fault p))
          (handle_obound now fault (record { p = p; t = t }) c)
  unfolding handle_obound
  handle_obound-Leaves now fault (publish m) t c = published-Leaves now fault m t c
  handle_obound-Leaves now fault _ t c = tt

  handle_departure-Leaves :
      (d : Departure) (c : Comms S)
      → Leaves (c.wire ++ sent_bytes (outcome_of d)) (handle_departure d c)
  unfolding handle_departure
  handle_departure-Leaves (obound now fault m) c = handle_obound-Leaves now fault m.p m.t c
  handle_departure-Leaves (oboundp now fault m) c = handle_oboundp-Leaves now fault m c
  handle_departure-Leaves (from_incoming now fault m) c = handle_from_incoming-Leaves now fault m c

  -- The bytes behind those that were there, as the packets that the connection took whole and a
  -- tail, which is empty if no Write has left a part.
  abbrev Grows : Comms S → List Departure → Option (Comms S × List TokenError) → Type 0
  Grows c ds none = Unit
  Grows c ds (some (c', errors)) =
      (bytes : Bytes) × (tail : Bytes) × (c'.wire ≡ c.wire ++ bytes)
      × Written tail (whole_packets ds) bytes
      × (no_parts ds ≡ true → tail ≡ [])

-- What one Write puts before the bytes of the later ones.
Written-cons :
    (fault : Option Fault) (p : ControlPacket) (ps : List ControlPacket) (more tail : Bytes)
    → Written tail ps more
    → (tail' : Bytes) × Written tail'
        (then_packets p (write_to fault p) ps)
        (sent_bytes (write_to fault p) ++ more)
      × (leaves_none (write_to fault p) ≡ true → tail' ≡ tail)
unfolding write_to
Written-cons fault p ps more tail w = go (write p).1 refl fault
  where
    part_of :
        (e : TokenError) (part : Bytes)
        → (tail' : Bytes) × Written tail' (then_packets p (not_sent e part) ps) (part ++ more)
          × (leaves_none (not_sent e part) ≡ true → tail' ≡ tail)
    part_of e [] = (tail, w, λ h. refl)
    part_of e (b ∷ part) = ((b ∷ part) ++ more, refl, λ h. absurd (ground (arith, h)))

    go :
        (r : Result Bytes)
        → (write p).1 ≡ r
        → (f : Option Fault)
        → (tail' : Bytes) × Written tail'
            (then_packets p (written f r) ps)
            (sent_bytes (written f r) ++ more)
          × (leaves_none (written f r) ≡ true → tail' ≡ tail)
    go (ok b) e none = (tail, (b, more, e, refl, w), λ h. refl)
    go (ok b) e (some x) = part_of x.error (take x.taken b)
    go (err x) e f = (tail, w, λ h. refl)
    go panic e f = (tail, w, λ h. refl)

departure-Written :
    (d : Departure) (ps : List ControlPacket) (more tail : Bytes)
    → Written tail ps more
    → (tail' : Bytes) × Written tail'
        (then_packets (packet_of d) (outcome_of d) ps)
        (sent_bytes (outcome_of d) ++ more)
      × (leaves_none (outcome_of d) ≡ true → tail' ≡ tail)
departure-Written (obound now fault m) ps more tail w = Written-cons fault m.p ps more tail w
departure-Written (oboundp now fault m) ps more tail w = Written-cons fault m.p ps more tail w
departure-Written (from_incoming now fault m) ps more tail w = Written-cons fault m.p ps more tail w

module _ {S : Type 0} where
  start_outgoing_comms-Grows :
      (ds : List Departure) (c : Comms S) → Grows c ds (start_outgoing_comms ds c)
  unfolding start_outgoing_comms
  start_outgoing_comms-Grows [] c = ([], [], sym (append-nil c.wire), refl, λ h. refl)
  start_outgoing_comms-Grows (d ∷ ds) c =
      go (handle_departure d c) (handle_departure-Leaves d c)
        (λ c'. start_outgoing_comms-Grows ds c')
    where
      after :
          (c' : Comms S) (errors : List TokenError) (x : Option (Comms S × List TokenError))
          → c'.wire ≡ c.wire ++ sent_bytes (outcome_of d)
          → Grows c' ds x
          → Grows c (d ∷ ds) (and_then errors x)
      after c' errors none e g = tt
      after c' errors (some (c'', later)) e (more, tail, wire, w, clean) =
          let (tail', w', same) = departure-Written d (whole_packets ds) more tail w in
          (
            sent_bytes (outcome_of d) ++ more,
            tail',
            wire ∙ (ap (λ b. b ++ more) e ∙ append_assoc c.wire (sent_bytes (outcome_of d)) more),
            w',
            λ h. same (ground (arith, h)) ∙ clean (ground (arith, h)),
          )

      go :
          (x : Option (Comms S × List TokenError))
          → Leaves (c.wire ++ sent_bytes (outcome_of d)) x
          → ((c' : Comms S) → Grows c' ds (start_outgoing_comms ds c'))
          → Grows c (d ∷ ds) (elim x [
            | none ↦ none
            | some (c', errors) ↦ and_then errors (start_outgoing_comms ds c')
          ])
      go none l k = tt
      go (some (c', errors)) l k = after c' errors (start_outgoing_comms ds c') l (k c')

  -- Whatever the three channels of the outgoing loop bring, in whatever order, and whichever Writes
  -- fail: where nothing panics and the packets that the connection took whole, up to the first one
  -- of which it took a part only, have a place on the wire, the loop of startIncoming on the other
  -- side reads these packets first, in order; and if no Write that failed has left a part of its
  -- bytes, it reads no other packet, and then the end of the connection.
  pub start_incoming-start_outgoing_comms :
      (ds : List Departure) (c c' : Comms S) (errors : List TokenError) (closed : Bool)
      → c.wire ≡ []
      → start_outgoing_comms ds c ≡ some (c', errors)
      → All IsWritable (whole_packets ds)
      → (l : List Inbound) × (start_incoming closed (suc (length c'.wire)) c'.wire
          ≡ some (map arrives (whole_packets ds) ++ l))
        × (no_parts ds ≡ true → l ≡ at_end closed)
  start_incoming-start_outgoing_comms ds c c' errors closed empty done w =
      let g = start_outgoing_comms-Grows ds c in
      let (bytes, tail, wire, all, clean) : Grows c ds (some (c', errors)) = rw done at g in
      let same : c'.wire ≡ bytes = wire ∙ ap (λ x. x ++ bytes) empty in
      let (l, reads, ends) =
        start_incoming-write closed (suc (length c'.wire)) tail (whole_packets ds) c'.wire w
          (rw same all) (omega arith) in
      (l, reads, λ h. ends (clean h))
