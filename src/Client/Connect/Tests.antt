-- ===== src/Client/Connect/Tests.antt =====
-- Brokers that cannot be reached or refuse, and the loss of a connection.
use paho_mqtt_golang.Base.{ℕ, ◌≡◌, refl, [], ◌∷◌, true, false, none, if◌then◌else◌, ◌==◌, arith}
use paho_mqtt_golang.Base.Assoc.{lookup, nat_eq, bytes_eq, Distinct}
use paho_mqtt_golang.Token.{fresh, publish_token, subscribe_token}
use paho_mqtt_golang.MessageIds.{MessageIds, is_sub}
use paho_mqtt_golang.Options.{new_client_options}
use paho_mqtt_golang.Client.Connect.{
  attempt_connection, Dial, unreachable, conn_error, lost_clean_up, closed_conn,
}
use paho_mqtt_golang.Client.Connect.Laws.{
  IsReported, answers, attempt_connection-IsReported, attempt_connection_unassigned,
  lookup-lost_clean_up,
}

-- Id 7 is in use for a message, id 8 for a subscription.
abbrev ids : MessageIds
ids = record {
  index = (7, 0) ∷ (8, 1) ∷ [];
  last_issued_id = 8;
  tokens = λ r. if r == 1 then fresh subscribe_token else fresh publish_token;
}

-- A broker that cannot be reached, and one that refuses version 4.
abbrev old_broker : ℕ → Dial
old_broker version = if version == 3 then answers 0 false version else answers 1 false version

attempt_connection-IsReported_example :
    IsReported new_client_options
      (attempt_connection ((λ v. unreachable) ∷ old_broker ∷ []) new_client_options)
attempt_connection-IsReported_example =
    attempt_connection-IsReported new_client_options (λ v. unreachable) (old_broker ∷ [])

attempt_connection_unassigned_example :
    ((attempt_connection (answers 6 false ∷ []) new_client_options).0.error ≡ none)
    × ((attempt_connection (answers 6 false ∷ []) new_client_options).0.conn ≡ closed_conn)
    × ((attempt_connection (answers 6 false ∷ []) new_client_options).0.code ≡ 6)
unfolding conn_error
attempt_connection_unassigned_example =
    attempt_connection_unassigned new_client_options 6 false (λ e. omega (arith, e)) refl

ids-Distinct : Distinct ids.index
unfolding lookup
ids-Distinct = (refl, (refl, tt))

lookup-lost_clean_up_example : lookup 8 (lost_clean_up new_client_options true ids).index ≡ none
unfolding lookup is_sub new_client_options
lookup-lost_clean_up_example = lookup-lost_clean_up new_client_options true ids 8 ids-Distinct
