-- ===== src/Client/Connect/Laws.antt =====
-- client.go, attemptConnection and the loss of a connection: what they report and what they keep.
use paho_mqtt_golang.Base.{
  ℕ, ◌≡◌, ◌≢◌, refl, ◌⊎◌, inl, inr, List, [], ◌∷◌, Bool, true, false, not, ◌&&◌, ◌||◌, Bool-cases,
  none, if◌then◌else◌, ◌==◌, arith,
}
use paho_mqtt_golang.Base.Assoc.{lookup, nat_eq, Distinct}
use paho_mqtt_golang.MessageIds.{MessageIds, clean_up}
use paho_mqtt_golang.MessageIds.CleanUp.{sub_at, lookup-clean_up_subscribe}
use paho_mqtt_golang.Options.{ClientOptions}
use paho_mqtt_golang.Net.Handshake.{none_at_all}
use paho_mqtt_golang.Client.Connect.{
  Attempt, open_conn, closed_conn, Dial, unreachable, shaken, try_once, try_broker, try_brokers,
  falls_back, conn_error, attempt_connection, lost_clean_up, first_attempt, reported,
}

-- The connection is open where the code is Accepted, and closed where it is another one of a CONNACK;
-- the version is the one that was asked for, or 3 in place of 4.
record IsSound (explicit : Bool) (version : ℕ) (a : Attempt) : Type 0 where
  accepted : a.code ≡ 0 → a.conn ≡ open_conn
  rejected : a.code ≢ 0 → a.code ≢ 254 → a.conn ≡ closed_conn
  versioned : (a.version ≡ version) ⊎ ((a.version ≡ 3) × (version ≡ 4) × (explicit ≡ false))

try_once-accepted :
    (d : Dial) (version : ℕ) (a : Attempt)
    → ((try_once d version a).code ≡ 0 → (try_once d version a).conn ≡ open_conn)
      × ((try_once d version a).code ≢ 0
          → (try_once d version a).code ≢ 254
          → (try_once d version a).conn ≡ closed_conn)
      × ((try_once d version a).version ≡ version)
unfolding try_once
try_once-accepted unreachable version a =
    (λ h. absurd (ground (arith, h)), λ h k. absurd (k refl), refl)
try_once-accepted (shaken v) version a = (λ h. ground (arith, h), λ h k. ground (arith, h), refl)

falls_back_lem :
    (explicit : Bool) (version : ℕ) (d : Dial)
    → falls_back explicit version d ≡ true
    → (explicit ≡ false) × (version ≡ 4)
falls_back_lem explicit version unreachable h = absurd (ground (arith, h))
falls_back_lem explicit version (shaken v) h = (ground (arith, h), ground (arith, h))

abbrev Versioned : Bool → ℕ → ℕ → Type 0
Versioned explicit version used =
    (used ≡ version) ⊎ ((used ≡ 3) × (version ≡ 4) × (explicit ≡ false))

try_broker-IsSound :
    (explicit : Bool) (broker : ℕ → Dial) (version : ℕ) (a : Attempt)
    → Versioned explicit version a.version
    → IsSound explicit version (try_broker explicit broker a)
unfolding try_broker
try_broker-IsSound explicit broker version a h =
    let first = try_once (broker a.version) a.version a in
    let (opens, closes, used) = try_once-accepted (broker a.version) a.version a in
    elim (Bool-cases (falls_back explicit a.version (broker a.version))) [
      | inl again ↦
          let (opens', closes', used') = try_once-accepted (broker 3) 3 first in
          let (implicit, four) = falls_back_lem explicit a.version (broker a.version) again in
          rw again (record {
            accepted = opens';
            rejected = closes';
            versioned = ground (arith, h, used', implicit, four);
          })
      | inr once ↦
          rw once
            (record { accepted = opens; rejected = closes; versioned = ground (arith, h, used) })
    ]

try_brokers-IsSound :
    (explicit : Bool) (broker : ℕ → Dial) (brokers : List (ℕ → Dial)) (version : ℕ) (a : Attempt)
    → Versioned explicit version a.version
    → IsSound explicit version (try_brokers explicit (broker ∷ brokers) a)
unfolding try_brokers
try_brokers-IsSound explicit broker [] version a h =
    let sound = try_broker-IsSound explicit broker version a h in
    go ((try_broker explicit broker a).code == 0) sound
  where
    go :
        (b : Bool)
        → IsSound explicit version (try_broker explicit broker a)
        → IsSound explicit version
            (if b then try_broker explicit broker a else try_broker explicit broker a)
    go true x = x
    go false x = x
try_brokers-IsSound explicit broker (next ∷ brokers) version a h =
    let sound = try_broker-IsSound explicit broker version a h in
    let later =
      try_brokers-IsSound explicit next brokers version (try_broker explicit broker a)
        sound.versioned in
    elim (Bool-cases ((try_broker explicit broker a).code == 0)) [
      | inl accepted ↦ rw (try_brokers, accepted) sound
      | inr refused ↦ rw (try_brokers, refused) later
    ]

-- What attemptConnection reports with at least one broker: the error is nil exactly where the code is
-- Accepted, with no error of the handshake, or where it has no error of its own.
abbrev pub IsReported : ClientOptions → Attempt × ClientOptions → Type 0
IsReported o (a, o') =
    (a.error ≡ none
      → ((a.code ≡ 0)
          × (a.conn ≡ open_conn)
          × (o'.protocol_version ≡ a.version)
          × (o'.protocol_version_explicit ≡ true))
        ⊎ ((a.code ≢ 0) × (conn_error a.code ≡ none) × (a.conn ≡ closed_conn)))
    × ((a.version ≡ o.protocol_version)
        ⊎ ((a.version ≡ 3) × (o.protocol_version ≡ 4) × (o.protocol_version_explicit ≡ false)))

-- With at least one broker, whatever they answer: where attemptConnection returns no error, either
-- the code is Accepted, the connection is open, and the version that was used is kept for all later
-- attempts; or the code is one that has no error, and the connection is closed. The version that was
-- used last is the one of the options, or 3 where that is 4 and not explicit.
pub attempt_connection-IsReported :
    (o : ClientOptions) (broker : ℕ → Dial) (brokers : List (ℕ → Dial))
    → IsReported o (attempt_connection (broker ∷ brokers) o)
unfolding attempt_connection
attempt_connection-IsReported o broker brokers =
    go (try_brokers o.protocol_version_explicit (broker ∷ brokers) (first_attempt o)) (
      try_brokers-IsSound o.protocol_version_explicit broker brokers o.protocol_version
        (first_attempt o) (inl refl))
  where
    go :
        (a : Attempt)
        → IsSound o.protocol_version_explicit o.protocol_version a
        → IsReported o (reported o a)
    go a sound = elim (Bool-cases (a.code == 0)) [
      | inl accepted ↦
          let zero_code : a.code ≡ 0 = ground (arith, accepted) in
          rw accepted (λ e. inl (zero_code, sound.accepted zero_code, refl, refl), sound.versioned)
      | inr other ↦
          let nonzero : a.code ≢ 0 = λ e. ground (arith, e, other) in
          elim (Bool-cases (a.code == 254)) [
            | inl network ↦ rw (other, network) (λ e. absurd (ground arith), sound.versioned)
            | inr answered ↦
                let not_network : a.code ≢ 254 = λ e. ground (arith, e, answered) in
                rw (other, answered)
                  (λ e. inr (nonzero, e, sound.rejected nonzero not_network), sound.versioned)
          ]
    ]

-- Where no id stands twice in the index: if the session is clean and the client will not reconnect,
-- the loss of a connection takes every id; else it takes no id but those of SUBSCRIBE and
-- UNSUBSCRIBE, and those exactly where subscriptions are not resumed.
pub lookup-lost_clean_up :
    (o : ClientOptions) (reconnect : Bool) (mids : MessageIds) (id : ℕ)
    → Distinct mids.index
    → lookup id (lost_clean_up o reconnect mids).index ≡ (
        if (o.clean_session && not reconnect)
          || (not o.resume_subs && sub_at mids.tokens (lookup id mids.index))
        then none
        else lookup id mids.index)
unfolding lost_clean_up clean_up lookup
lookup-lost_clean_up o reconnect mids id d = ground (arith, lookup-clean_up_subscribe mids id d)

-- A broker that answers every version with a CONNACK of one and the same code.
abbrev pub answers : ℕ → Bool → ℕ → Dial
answers code session version =
    shaken (record { code = code; session_present = session; trouble = none_at_all })

-- Where the only broker answers with a code that is neither Accepted nor has an error of its own,
-- attemptConnection returns no error, with a connection that it has closed.
pub attempt_connection_unassigned :
    (o : ClientOptions) (code : ℕ) (session : Bool)
    → code ≢ 0
    → conn_error code ≡ none
    → ((attempt_connection (answers code session ∷ []) o).0.error ≡ none)
      × ((attempt_connection (answers code session ∷ []) o).0.conn ≡ closed_conn)
      × ((attempt_connection (answers code session ∷ []) o).0.code ≡ code)
unfolding attempt_connection try_brokers try_broker try_once conn_error
attempt_connection_unassigned o code session nonzero unassigned = (
  ground (arith, nonzero, unassigned),
  ground (arith, nonzero, unassigned),
  ground (arith, nonzero, unassigned),
)
