-- ===== src/Client/Subscribe/Barred.antt =====
-- client.go, Subscribe and its kin: the tests that a call must pass first.
use paho_mqtt_golang.Base.{
  ◌≡◌, refl, inl, inr, Bool, true, false, Bool-cases, some, arith, ◌⊎◌, ◌≢◌,
}
use paho_mqtt_golang.Token.{TokenError, not_connected, no_resume_subs, reconnecting_clean_session}
use paho_mqtt_golang.Client.{is_reconnecting, Looks, is_connected, is_connection_open}
use paho_mqtt_golang.Client.Subscribe.{refuses}
use paho_mqtt_golang.Status.{
  Status, disconnected, disconnecting, connecting, reconnecting, connected, ConnectionStatus,
}
use paho_mqtt_golang.Options.{ClientOptions}

-- When a call on subscriptions is barred, and why: the client is not connected and will not be; or it
-- has no connection, and does not resume subscriptions; or it has none, resumes them, and reconnects to
-- a clean session.
abbrev pub IsBarred : ClientOptions → Looks → TokenError → Type 0
IsBarred o looks e =
    ((e ≡ not_connected) × (is_connected o looks.at_entry ≡ false))
    ⊎ (((e ≡ no_resume_subs)
          × (is_connected o looks.at_entry ≡ true)
          × (looks.at_gate.status ≢ connected)
          × (o.resume_subs ≡ false))
        ⊎ ((e ≡ reconnecting_clean_session)
            × (is_connected o looks.at_entry ≡ true)
            × (looks.at_gate.status ≢ connected)
            × (o.resume_subs ≡ true)
            × (o.clean_session ≡ true)
            × (looks.at_filter.status ≡ reconnecting)))

no_connection : (c : ConnectionStatus) → c.status ≢ connected → is_connection_open c ≡ false
unfolding is_connection_open
no_connection c h = go c.status h
  where
    go : (x : Status) → x ≢ connected → (elim x [ connected ↦ true | _ ↦ false ]) ≡ false
    go connected h = absurd (h refl)
    go connecting h = refl
    go reconnecting h = refl
    go disconnecting h = refl
    go disconnected h = refl

pub IsBarred-refuses :
    (o : ClientOptions) (looks : Looks) (e : TokenError)
    → IsBarred o looks e
    → refuses o looks ≡ some e
unfolding refuses
IsBarred-refuses o looks e (inl (is, down)) = rw (down, is) refl
IsBarred-refuses o looks e (inr (inl (is, up, closed, throws))) =
    rw (up, no_connection looks.at_gate closed, throws, is) refl
IsBarred-refuses o looks e (inr (inr (is, up, closed, keeps, clean, again))) =
    rw (up, no_connection looks.at_gate closed, keeps, clean, again, is) refl

-- The three reasons.
abbrev pub is_reason : TokenError → Bool
is_reason not_connected = true
is_reason no_resume_subs = true
is_reason reconnecting_clean_session = true
is_reason _ = false

is_open_connected : (c : ConnectionStatus) → is_connection_open c ≡ false → c.status ≢ connected
unfolding is_connection_open
is_open_connected c h e = ground (arith, h, e)

is_reconnecting_lem : (x : Status) → is_reconnecting x ≡ true → x ≡ reconnecting
is_reconnecting_lem reconnecting h = refl
is_reconnecting_lem connected h = absurd (ground (arith, h))
is_reconnecting_lem connecting h = absurd (ground (arith, h))
is_reconnecting_lem disconnecting h = absurd (ground (arith, h))
is_reconnecting_lem disconnected h = absurd (ground (arith, h))

pub refuses-IsBarred :
    (o : ClientOptions) (looks : Looks) (e : TokenError)
    → refuses o looks ≡ some e
    → IsBarred o looks e
unfolding refuses
refuses-IsBarred o looks e h = elim (Bool-cases (is_connected o looks.at_entry)) [
  | inr down ↦ inl (ground (arith, h, down), down)
  | inl up ↦ elim (Bool-cases (is_connection_open looks.at_gate)) [
    | inl is_open ↦ absurd (ground (arith, h, up, is_open))
    | inr shut ↦
        let no_way = is_open_connected looks.at_gate shut in
        elim (Bool-cases o.resume_subs) [
          | inr throws ↦ inr (inl (ground (arith, h, up, shut, throws), up, no_way, throws))
          | inl keeps ↦ elim (Bool-cases o.clean_session) [
            | inr dirty ↦ absurd (ground (arith, h, up, shut, keeps, dirty))
            | inl clean ↦ elim (Bool-cases (is_reconnecting looks.at_filter.status)) [
              | inr other ↦ absurd (ground (arith, h, up, shut, keeps, clean, other))
              | inl again ↦
                  let why : e ≡ reconnecting_clean_session =
                    ground (arith, h, up, shut, keeps, clean, again) in
                  let at = is_reconnecting_lem looks.at_filter.status again in
                  inr (inr (why, up, no_way, keeps, clean, at))
            ]
          ]
        ]
  ]
]
