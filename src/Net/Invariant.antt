-- ===== src/Net/Invariant.antt =====
-- net.go, startIncomingComms: what every run of the loop keeps.
use paho_mqtt_golang.Base.{
  ℕ, ◌≡◌, ◌≢◌, refl, ◌∙◌, Bytes, List, [], ◌∷◌, Bool, true, false, Option, none, some,
  if◌then◌else◌, arith,
}
use paho_mqtt_golang.Base.Assoc.{lookup, lookup-delete, nat_eq}
use paho_mqtt_golang.Packets.Packet.{
  ControlPacket, SubackPacket, pingresp, suback, unsuback, publish, puback, pubrec, pubrel, pubcomp,
}
use paho_mqtt_golang.Token.{Token, flow_complete, has_base}
use paho_mqtt_golang.MessageIds.{MessageIds, Found, token_ref, dummy, get_token, free_id, update}
use paho_mqtt_golang.MessageIds.Laws.{IsValid, free_id-IsValid}
use paho_mqtt_golang.Store.{StoreOps, persist_inbound, persist_outbound}
use paho_mqtt_golang.Net.{
  Comms, with_persist, on_token, on_found, complete_and_free, ping_resp_received,
  update_last_received, new_ack,
}
use paho_mqtt_golang.Net.Incoming.{
  received, read_error, Arrival, from_store, from_network, IncomingComms, grant, take_codes,
  set_result, granted_to, is_subscribe, completed, quietly, sending, handle_suback, handle_message,
  handle_some, received_at, handle_network, handle_arrival, followed, start_incoming_comms,
}

-- The ids stay valid, none is taken, no token goes back from complete, and no error is set. No id is
-- led elsewhere, and a token that no id leads to stays as it is.
pub record Evolves (old new : MessageIds) : Type 0 where
  pub still_valid : IsValid old → IsValid new
  pub none_taken : (id : ℕ) → lookup id old.index ≡ none → lookup id new.index ≡ none
  pub stays_complete : (r : ℕ) → (old.tokens r).complete ≡ true → (new.tokens r).complete ≡ true
  pub same_error : (r : ℕ) → (new.tokens r).error ≡ (old.tokens r).error
  pub same_kind : (r : ℕ) → (new.tokens r).kind ≡ (old.tokens r).kind
  pub none_new : (id r : ℕ) → lookup id new.index ≡ some r → lookup id old.index ≡ some r
  pub out_of_reach :
      (r : ℕ) → ((id : ℕ) → lookup id old.index ≢ some r) → new.tokens r ≡ old.tokens r

Evolves-refl : (mids : MessageIds) → Evolves mids mids
Evolves-refl mids = record {
  still_valid = λ v. v;
  none_taken = λ id h. h;
  stays_complete = λ r h. h;
  same_error = λ r. refl;
  same_kind = λ r. refl;
  none_new = λ id r h. h;
  out_of_reach = λ r h. refl;
}

Evolves-trans : (a b c : MessageIds) → Evolves a b → Evolves b c → Evolves a c
Evolves-trans a b c e f = record {
  still_valid = λ v. f.still_valid (e.still_valid v);
  none_taken = λ id h. f.none_taken id (e.none_taken id h);
  stays_complete = λ r h. f.stays_complete r (e.stays_complete r h);
  same_error = λ r. f.same_error r ∙ e.same_error r;
  same_kind = λ r. f.same_kind r ∙ e.same_kind r;
  none_new = λ id r h. e.none_new id r (f.none_new id r h);
  out_of_reach = λ r h. f.out_of_reach r (λ id k. h id (e.none_new id r k)) ∙ e.out_of_reach r h;
}

-- A change to a token that completes it or leaves it, and touches neither its error nor its kind.
record IsMild (f : Token → Token) : Type 0 where
  completes : (t : Token) → t.complete ≡ true → (f t).complete ≡ true
  errors : (t : Token) → (f t).error ≡ t.error
  kinds : (t : Token) → (f t).kind ≡ t.kind

flow_complete-IsMild : IsMild flow_complete
unfolding flow_complete has_base
flow_complete-IsMild = record {
  completes = λ t h. ground arith;
  errors = λ t. ground arith;
  kinds = λ t. ground arith;
}

-- Some id leads to what is found.
abbrev Leads : Found → MessageIds → Type 0
Leads (token_ref ref) mids = (id : ℕ) × (lookup id mids.index ≡ some ref)
Leads (dummy id) mids = Unit

get_token-Leads : (id : ℕ) (mids : MessageIds) → Leads (get_token id mids) mids
unfolding get_token
get_token-Leads id mids = go (lookup id mids.index) refl
  where
    go :
        (o : Option ℕ)
        → lookup id mids.index ≡ o
        → Leads (elim o [ some ref ↦ token_ref ref | none ↦ dummy id ]) mids
    go none e = tt
    go (some ref) e = (id, e)

on_token-Evolves :
    (f : Token → Token) (ref : ℕ) (mids : MessageIds)
    → IsMild f
    → Leads (token_ref ref) mids
    → Evolves mids (on_token f ref mids)
unfolding on_token update
on_token-Evolves f ref mids m (id, leads) = record {
  still_valid = λ v. record { bounded = v.bounded; keyed = v.keyed; unused = v.unused };
  none_taken = λ id h. h;
  stays_complete = λ r h. ground (arith, m.completes (mids.tokens r));
  same_error = λ r. ground (arith, m.errors (mids.tokens r));
  same_kind = λ r. ground (arith, m.kinds (mids.tokens r));
  none_new = λ j r h. h;
  out_of_reach = λ r h. ground (arith, h id, leads);
}

on_found-Evolves :
    (f : Token → Token) (o : Found) (mids : MessageIds)
    → IsMild f
    → Leads o mids
    → Evolves mids (on_found f o mids)
on_found-Evolves f (token_ref ref) mids m l = on_token-Evolves f ref mids m l
on_found-Evolves f (dummy id) mids m l = Evolves-refl mids

free_id-Evolves : (id : ℕ) (mids : MessageIds) → Evolves mids (free_id id mids)
unfolding free_id
free_id-Evolves id mids = record {
  still_valid = free_id-IsValid id mids;
  none_taken = λ j h. ground (arith, lookup-delete id j mids.index);
  stays_complete = λ r h. h;
  same_error = λ r. refl;
  same_kind = λ r. refl;
  none_new = λ j r h. ground (arith, h, lookup-delete id j mids.index);
  out_of_reach = λ r h. refl;
}

set_result-IsMild : (result : List (Bytes × ℕ)) → IsMild (set_result result)
set_result-IsMild result = record { completes = λ t h. h; errors = λ t. refl; kinds = λ t. refl }

abbrev MayEvolve : MessageIds → Option MessageIds → Type 0
MayEvolve mids none = Unit
MayEvolve mids (some mids') = Evolves mids mids'

take_codes-Evolves :
    (codes : Bytes) (o : Found) (mids : MessageIds)
    → Leads o mids
    → MayEvolve mids (take_codes codes o mids)
unfolding take_codes
take_codes-Evolves codes (dummy id) mids l = Evolves-refl mids
take_codes-Evolves codes (token_ref ref) mids l =
    let t = mids.tokens ref in go (is_subscribe t.kind) (grant codes t.subs t.sub_result)
  where
    go :
        (b : Bool) (o : Option (List (Bytes × ℕ)))
        → MayEvolve mids (if b then granted_to ref mids o else some mids)
    go true none = tt
    go true (some result) =
        on_token-Evolves (set_result result) ref mids (set_result-IsMild result) l
    go false o = Evolves-refl mids

module _ {S : Type 0} where
  abbrev EvolvesTo : MessageIds → Option (Comms S × List IncomingComms) → Type 0
  EvolvesTo mids none = Unit
  EvolvesTo mids (some (c, out)) = Evolves mids c.ids

  complete_and_free-Evolves : (id : ℕ) (c : Comms S) → Evolves c.ids (complete_and_free id c).ids
  unfolding complete_and_free
  complete_and_free-Evolves id c =
      let done = on_found flow_complete (get_token id c.ids) c.ids in
      Evolves-trans c.ids done (free_id id done)
        (on_found-Evolves flow_complete (get_token id c.ids) c.ids flow_complete-IsMild
          (get_token-Leads id c.ids))
        (free_id-Evolves id done)

  handle_suback-Evolves :
      (m : SubackPacket) (c : Comms S) → EvolvesTo c.ids (quietly (handle_suback m c))
  unfolding handle_suback
  handle_suback-Evolves m c =
      let found = get_token m.message_id c.ids in
      go (take_codes m.return_codes found c.ids)
        (take_codes-Evolves m.return_codes found c.ids (get_token-Leads m.message_id c.ids))
    where
      go :
          (o : Option MessageIds)
          → MayEvolve c.ids o
          → EvolvesTo c.ids (quietly (completed m.message_id c o))
      go none e = tt
      go (some mids) e =
          let c1 = record c { ids = mids } in
          Evolves-trans c.ids mids (complete_and_free m.message_id c1).ids e
            (complete_and_free-Evolves m.message_id c1)

  sending-Evolves :
      (p : ControlPacket) (c : Comms S) (o : Option S)
      → EvolvesTo c.ids (sending p (with_persist c o))
  sending-Evolves p c none = tt
  sending-Evolves p c (some st) = Evolves-refl c.ids

  module _ (s : StoreOps S) where
    handle_message-Evolves :
        (m : ControlPacket) (c : Comms S) → EvolvesTo c.ids (handle_message s m c)
    unfolding handle_message ping_resp_received
    handle_message-Evolves (pingresp m) c = Evolves-refl c.ids
    handle_message-Evolves (suback m) c = handle_suback-Evolves m c
    handle_message-Evolves (unsuback m) c = complete_and_free-Evolves m.message_id c
    handle_message-Evolves (publish m) c = Evolves-refl c.ids
    handle_message-Evolves (puback m) c = complete_and_free-Evolves m.message_id c
    handle_message-Evolves (pubrec m) c = Evolves-refl c.ids
    handle_message-Evolves (pubrel m) c =
        let pc = pubcomp (new_ack 7 m.message_id) in
        sending-Evolves pc c (persist_outbound s pc c.persist)
    handle_message-Evolves (pubcomp m) c = complete_and_free-Evolves m.message_id c
    handle_message-Evolves _ c = Evolves-refl c.ids

    handle_arrival-Evolves : (a : Arrival) (c : Comms S) → EvolvesTo c.ids (handle_arrival s a c)
    unfolding handle_arrival handle_network update_last_received
    handle_arrival-Evolves (from_store m) c = handle_message-Evolves m c
    handle_arrival-Evolves (from_network now (read_error e)) c = Evolves-refl c.ids
    handle_arrival-Evolves (from_network now (received m)) c = go (persist_inbound s m c.persist)
      where
        go :
            (o : Option S)
            → EvolvesTo c.ids (handle_some s m (received_at s now (with_persist c o)))
        go none = tt
        go (some st) =
            handle_message-Evolves m (update_last_received now (record c { persist = st }))

    start_incoming_comms-EvolvesTo :
        (arrivals : List Arrival) (c : Comms S)
        → EvolvesTo c.ids (start_incoming_comms s arrivals c)
    unfolding start_incoming_comms
    start_incoming_comms-EvolvesTo [] c = Evolves-refl c.ids
    start_incoming_comms-EvolvesTo (a ∷ later) c =
        go (handle_arrival s a c) (handle_arrival-Evolves a c)
          (λ c'. start_incoming_comms-EvolvesTo later c')
      where
        after :
            (c' : Comms S) (out : List IncomingComms) (x : Option (Comms S × List IncomingComms))
            → Evolves c.ids c'.ids
            → EvolvesTo c'.ids x
            → EvolvesTo c.ids (followed s out x)
        after c' out none e f = tt
        after c' out (some (c'', more)) e f = Evolves-trans c.ids c'.ids c''.ids e f

        go :
            (x : Option (Comms S × List IncomingComms))
            → EvolvesTo c.ids x
            → ((c' : Comms S) → EvolvesTo c'.ids (start_incoming_comms s later c'))
            → EvolvesTo c.ids (elim x [
              | none ↦ none
              | some (c', out) ↦ followed s out (start_incoming_comms s later c')
            ])
        go none e k = tt
        go (some (c', out)) e k = after c' out (start_incoming_comms s later c') e (k c')

    -- Whatever arrives from the network and from the store, in whatever order, and whatever the
    -- store does: where no step panics, the ids stay valid if they were, no free id is taken, no
    -- token that had completed is incomplete again, and no token's error or kind changes; an id
    -- leads to what it led to or to nothing, and a token that no id led to stays as it was.
    pub start_incoming_comms-Evolves :
        (arrivals : List Arrival) (c c' : Comms S) (out : List IncomingComms)
        → start_incoming_comms s arrivals c ≡ some (c', out)
        → Evolves c.ids c'.ids
    start_incoming_comms-Evolves arrivals c c' out h =
        let e = start_incoming_comms-EvolvesTo arrivals c in rw h at e
