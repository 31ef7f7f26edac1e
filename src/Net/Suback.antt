-- ===== src/Net/Suback.antt =====
-- net.go, startIncomingComms: the return codes of a SUBACK.
use paho_mqtt_golang.Base.{
  ℕ, ◌≤◌, ◌<◌, ◌≡◌, refl, ap, List, [], ◌∷◌, Bytes, true, Option, none, some, length, arith,
}
use paho_mqtt_golang.Base.Assoc.{lookup, nat_eq, bytes_eq}
use paho_mqtt_golang.Packets.Packet.{SubackPacket, suback}
use paho_mqtt_golang.Token.{subscribe_token, flow_complete, has_base}
use paho_mqtt_golang.MessageIds.{MessageIds, token_ref, get_token, dummy, update}
use paho_mqtt_golang.Store.{StoreOps, persist_inbound}
use paho_mqtt_golang.Net.{Comms, with_persist, complete_and_free, on_token, update_last_received}
use paho_mqtt_golang.Net.Exchange.{complete_and_free-IsConcluded}
use paho_mqtt_golang.Net.Incoming.{
  set_result, quietly, handle_some, received_at, received, grant, take_codes, handle_suback,
  handle_message, handle_network,
}

grant_total :
    (codes : Bytes) (subs : List Bytes) (result : List (Bytes × ℕ))
    → length codes ≤ length subs
    → (granted : List (Bytes × ℕ)) × (grant codes subs result ≡ some granted)
unfolding grant
grant_total [] subs result h = (result, refl)
grant_total (q ∷ codes) [] result h = absurd (omega arith)
grant_total (q ∷ codes) (t ∷ subs) result h = grant_total codes subs _ (omega arith)

grant_short :
    (codes : Bytes) (subs : List Bytes) (result : List (Bytes × ℕ))
    → length subs < length codes
    → grant codes subs result ≡ none
unfolding grant
grant_short [] subs result h = absurd (omega arith)
grant_short (q ∷ codes) [] result h = refl
grant_short (q ∷ codes) (t ∷ subs) result h = grant_short codes subs _ (omega arith)

leads_to :
    (id ref : ℕ) (mids : MessageIds)
    → lookup id mids.index ≡ some ref
    → get_token id mids ≡ token_ref ref
unfolding get_token
leads_to id ref mids found = rw (get_token, found) refl

module _ {S : Type 0} where
  handle_suback_short :
      (ref : ℕ) (m : SubackPacket) (c : Comms S)
      → lookup m.message_id c.ids.index ≡ some ref
      → (c.ids.tokens ref).kind ≡ subscribe_token
      → length (c.ids.tokens ref).subs < length m.return_codes
      → handle_suback m c ≡ none
  unfolding handle_suback take_codes
  handle_suback_short ref m c found sub short =
      let panics =
        grant_short m.return_codes (c.ids.tokens ref).subs (c.ids.tokens ref).sub_result short in
      rw (leads_to m.message_id ref c.ids found, sub, panics) refl

  -- Where the id of a SUBACK leads to the token of a SUBSCRIBE that had fewer topics than the
  -- SUBACK has return codes, the handler panics, whatever the store does with the packet.
  pub handle_network-suback_panics :
      (s : StoreOps S) (now ref : ℕ) (m : SubackPacket) (c : Comms S)
      → lookup m.message_id c.ids.index ≡ some ref
      → (c.ids.tokens ref).kind ≡ subscribe_token
      → length (c.ids.tokens ref).subs < length m.return_codes
      → handle_network s now (received (suback m)) c ≡ none
  unfolding handle_network handle_message update_last_received
  handle_network-suback_panics s now ref m c found sub short =
      go (persist_inbound s (suback m) c.persist)
    where
      go : (o : Option S) → handle_some s (suback m) (received_at s now (with_persist c o)) ≡ none
      go none = refl
      go (some st) = ap quietly (handle_suback_short ref m _ found sub short)

  -- With no more return codes than topics, a SUBACK completes the token and frees the id, and the
  -- token holds what `grant` makes of the codes.
  pub handle_suback_granted :
      (ref : ℕ) (m : SubackPacket) (c : Comms S)
      → lookup m.message_id c.ids.index ≡ some ref
      → (c.ids.tokens ref).kind ≡ subscribe_token
      → length m.return_codes ≤ length (c.ids.tokens ref).subs
      → (c' : Comms S) × (granted : List (Bytes × ℕ)) × (handle_suback m c ≡ some c')
        × (grant m.return_codes (c.ids.tokens ref).subs (c.ids.tokens ref).sub_result
            ≡ some granted)
        × ((c'.ids.tokens ref).complete ≡ true)
        × ((c'.ids.tokens ref).sub_result ≡ granted)
        × (get_token m.message_id c'.ids ≡ dummy m.message_id)
  unfolding handle_suback take_codes on_token update flow_complete has_base
  handle_suback_granted ref m c found sub short =
      let t = c.ids.tokens ref in
      let (granted, g) = grant_total m.return_codes t.subs t.sub_result short in
      let c1 = record c { ids = on_token (set_result granted) ref c.ids } in
      let (free, tokens) = complete_and_free-IsConcluded m.message_id c1 in
      (
        complete_and_free m.message_id c1,
        granted,
        rw (leads_to m.message_id ref c.ids found, sub, g) refl,
        g,
        ground (arith, tokens ref, found, sub),
        ground (arith, tokens ref, found, sub),
        ground (arith, free m.message_id),
      )
