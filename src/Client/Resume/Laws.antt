-- ===== src/Client/Resume/Laws.antt =====
-- client.go, resume: what a client sends again.
use paho_mqtt_golang.Base.{
  ℕ, ◌+◌, ◌≡◌, refl, sym, ap, ◌∙◌, List, [], ◌∷◌, ◌++◌, Bytes, Bool, true, false, none, some,
  if◌then◌else◌, ◌==◌, arith, append_assoc, append-nil, ◌≤◌, ◌&&◌, ltb, str_eq, str_eq_iff, Option,
  inl, inr, Bool-cases,
}
use paho_mqtt_golang.Base.Assoc.{nat_eq, lookup, bytes_eq, Distinct}
use paho_mqtt_golang.Packets.Packet.{PublishPacket, publish, ControlPacket}
use paho_mqtt_golang.Token.{publish_token}
use paho_mqtt_golang.MessageIds.{Found, token_ref, get_token}
use paho_mqtt_golang.MessageIds.Laws.{get_token-claim_id}
use paho_mqtt_golang.Store.{StoreOps, is_key_outbound, outbound_key_from_mid, mid_from_key}
use paho_mqtt_golang.Net.{PacketAndToken, on_token}
use paho_mqtt_golang.Client.{Client, with_token, make_token, set_message_id}
use paho_mqtt_golang.Client.Resume.{
  Resuming, goes_on, mark_dup, claim, on_obound, resume_outbound, resume_key, resume_keys,
}
use paho_mqtt_golang.Store.Laws.{StoreView, StoreLaws}
use paho_mqtt_golang.Store.Keys.{mid_from_key_lem}

-- A message as it is sent again: with DUP, if it has a QoS above 0.
abbrev pub as_duplicate : PublishPacket → PublishPacket
as_duplicate p = record p {
  fixed_header = record p.fixed_header {
    dup = if ltb 0 p.fixed_header.qos then true else p.fixed_header.dup;
  };
}

mark_dup-as_duplicate : (p : PublishPacket) → mark_dup p ≡ as_duplicate p
unfolding mark_dup
mark_dup-as_duplicate p = elim (Bool-cases (p.fixed_header.qos == 0)) [
  | inl none_above ↦ ground (arith, none_above)
  | inr above ↦ ground (arith, above)
]

-- The messages again, with the tokens from `token` on.
abbrev pub resent : ℕ → List (Bytes × PublishPacket) → List PacketAndToken
resent token [] = []
resent token ((key, p) ∷ messages) =
    record { p = publish (as_duplicate p); t = some token } ∷ resent (token + 1) messages

-- What is under the key `j` after all messages were sent again: where the store holds the objects
-- that it gives, they have DUP now.
abbrev pub stored_after :
    Bool → Bytes → List (Bytes × PublishPacket) → Option ControlPacket → Option ControlPacket
stored_after shares j [] found = found
stored_after shares j ((key, p) ∷ messages) found =
    stored_after shares j messages
      (if shares && str_eq key j then some (publish (as_duplicate p)) else found)

-- The token behind the id after all messages have claimed theirs, a later one over an earlier.
abbrev pub claimed : ℕ → ℕ → List (Bytes × PublishPacket) → Found → Found
claimed id token [] found = found
claimed id token ((key, p) ∷ messages) found =
    claimed id (token + 1) messages (if p.message_id == id then token_ref token else found)

abbrev pub keys_of : List (Bytes × PublishPacket) → List Bytes
keys_of [] = []
keys_of ((key, p) ∷ messages) = key ∷ keys_of messages

module _ {S : Type 0} (s : StoreOps S) (v : StoreView S) where
  -- Under each of the keys, which is the outbound key of its id, the store holds the PUBLISH.
  abbrev pub AreStored : S → List (Bytes × PublishPacket) → Type 0
  AreStored st [] = Unit
  AreStored st ((key, p) ∷ messages) =
      (v.contents st key ≡ some (publish p))
      × (key ≡ outbound_key_from_mid p.message_id)
      × (p.message_id ≤ 65535)
      × AreStored st messages

  -- The client after the PUBLISH `p` is sent again.
  abbrev republished : Bytes → PublishPacket → Client S → Client S
  republished key p c =
      let st = s.touch key (publish (as_duplicate p)) c.comms.persist in
      let (token, c') =
        make_token publish_token (record c { comms = record c.comms { persist = st } }) in
      on_obound (publish (as_duplicate p)) (some token)
        (claim token p.message_id (with_token (set_message_id p.message_id) token c'))

  resume_key-publish :
      (subscription : Bool) (key : Bytes) (p : PublishPacket) (r : Resuming S)
      → s.get key r.client.comms.persist ≡ some (some (publish p))
      → is_key_outbound key ≡ some true
      → resume_key s subscription false key r
        ≡ goes_on (record r { client = republished key p r.client })
  unfolding resume_key resume_outbound
  resume_key-publish subscription key p r got out =
      rw (resume_key, got, out) (rw (mark_dup-as_duplicate p) refl)

  claim_index :
      (key : Bytes) (p : PublishPacket) (j : ℕ) (c : Client S)
      → get_token j (republished key p c).comms.ids
        ≡ (if p.message_id == j then token_ref c.next_token else get_token j c.comms.ids)
  unfolding on_token get_token
  claim_index key p j c =
      get_token-claim_id c.next_token p.message_id j
        (with_token (set_message_id p.message_id) c.next_token
          (make_token publish_token c).1).comms.ids

  abbrev pub IsResumed : Bool → List (Bytes × PublishPacket) → Resuming S → Type 0
  IsResumed subscription messages r =
      (r' : Resuming S) × (resume_keys s subscription none (keys_of messages) r ≡ goes_on r')
      × (r'.client.obound ≡ r.client.obound ++ resent r.client.next_token messages)
      × (v.is_open r'.client.comms.persist ≡ true)
      × ((j : Bytes)
          → v.contents r'.client.comms.persist j
            ≡ stored_after v.shares j messages (v.contents r.client.comms.persist j))
      × (r'.client.obound_p ≡ r.client.obound_p)
      × ((id : ℕ)
          → get_token id r'.client.comms.ids
            ≡ claimed id r.client.next_token messages (get_token id r.client.comms.ids))

module _ {S : Type 0} (s : StoreOps S) (v : StoreView S) (laws : StoreLaws s v) where
  -- A change under a key that is not among them leaves the others stored.
  AreStored-touch :
      (key : Bytes) (old m : ControlPacket) (st : S) (messages : List (Bytes × PublishPacket))
      → v.is_open st ≡ true
      → v.contents st key ≡ some old
      → lookup key messages ≡ none
      → AreStored s v st messages
      → AreStored s v (s.touch key m st) messages
  unfolding lookup
  AreStored-touch key old m st [] o found other held = tt
  AreStored-touch key old m st ((j, p) ∷ messages) o found other (at, is_key, fits, held) = (
    ground (
      arith,
      (laws.touch_law st key j old m o found).1,
      at,
      other,
      str_eq_iff key j,
      str_eq_iff j key,
    ),
    is_key,
    fits,
    AreStored-touch key old m st messages o found (ground (arith, other)) held,
  )

  -- With an open store that keeps the laws, and keys that are all different, each the outbound key of
  -- the 16-bit id of the PUBLISH that the store holds under it: without a stop, every one of them is
  -- sent again, in the order of the keys and behind what was sent before, with DUP set if its QoS is
  -- above 0, and a new token that its id leads to afterwards; the other ids lead to what they led to.
  -- The store holds under each of the keys the PUBLISH as it is sent again if it holds the objects
  -- that it gives, else the one that it held; no other key is touched.
  pub resume_keys-republishes :
      (subscription : Bool) (messages : List (Bytes × PublishPacket)) (r : Resuming S)
      → v.is_open r.client.comms.persist ≡ true
      → Distinct messages
      → AreStored s v r.client.comms.persist messages
      → IsResumed s v subscription messages r
  unfolding resume_keys
  resume_keys-republishes subscription [] r o d held =
      (r, refl, sym (append-nil r.client.obound), o, λ j. refl, refl, λ id. refl)
  resume_keys-republishes subscription ((key, p) ∷ messages) r o (other, d)
        (at, is_key, fits, held) =
      let st = r.client.comms.persist in
      let again = publish (as_duplicate p) in
      let r1 = record r { client = republished s v key p r.client } in
      let known = mid_from_key_lem p.message_id fits in
      let got : s.get key st ≡ some (some (publish p)) =
        laws.get_law st key p.message_id o (ap mid_from_key is_key ∙ known.1) ∙ ap some at in
      let out : is_key_outbound key ≡ some true = ap is_key_outbound is_key ∙ known.4 in
      let touched = λ (j : Bytes). laws.touch_law st key j (publish p) again o at in
      let (r', done, queue, open_after, contents, priority, ids) =
        resume_keys-republishes subscription messages r1 (touched key).0 d
          (AreStored-touch key (publish p) again st messages o at other held) in
      (
        r',
        rw (resume_keys, resume_key-publish s v subscription key p r got out) done,
        queue ∙ append_assoc r.client.obound _ (resent (r.client.next_token + 1) messages),
        open_after,
        λ j. contents j ∙ ap (stored_after v.shares j messages) (touched j).1,
        priority,
        λ id.
            ids id
            ∙ ap (claimed id (r.client.next_token + 1) messages)
                (claim_index s v key p id r.client),
      )
