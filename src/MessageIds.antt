-- ===== src/MessageIds.antt =====
-- messageids.go: which 16-bit message ids are in use, and the token that waits for each.
pub mod Search
pub mod Laws
pub mod CleanUp
mod Tests
use paho_mqtt_golang.Base.{
  ℕ, zero, suc, ◌+◌, ◌%◌, ◌^◌, List, [], ◌∷◌, Bool, true, false, ◌&&◌, ◌||◌, Option, none, some,
  if◌then◌else◌, ltb, ◌==◌,
}
use paho_mqtt_golang.Base.Assoc.{lookup, insert, delete, nat_eq}
use paho_mqtt_golang.Token.{
  Token, TokenKind, publish_token, subscribe_token, unsubscribe_token, lost_before_publish,
  lost_before_subscribe, lost_before_unsubscribe, flow_complete, set_error,
}

-- `index` maps an id to a reference; `tokens` is the store of the token objects.
pub record MessageIds : Type 0 where
  pub index : List (ℕ × ℕ)
  pub last_issued_id : ℕ
  pub tokens : ℕ → Token

abbrev pub mid_max : ℕ
mid_max = 65535

-- A change to the token object behind a reference.
unfoldable pub update : (Token → Token) → ℕ → (ℕ → Token) → ℕ → Token
update f ref tokens r = if ref == r then f (tokens r) else tokens r

-- The body of the loop of `cleanUp`: a lost operation gets an error, every token completes.
unfoldable pub lose : TokenKind → Token → Token
lose publish_token t = set_error lost_before_publish t
lose subscribe_token t = set_error lost_before_subscribe t
lose unsubscribe_token t = set_error lost_before_unsubscribe t
lose _ t = t

unfoldable pub clean_token : Token → Token
clean_token t = flow_complete (lose t.kind t)

unfoldable pub clean_tokens : List (ℕ × ℕ) → (ℕ → Token) → ℕ → Token
clean_tokens [] tokens = tokens
clean_tokens ((id, ref) ∷ m) tokens = clean_tokens m (update clean_token ref tokens)

unfoldable pub clean_up : MessageIds → MessageIds
clean_up mids = record mids { tokens = clean_tokens mids.index mids.tokens; index = [] }

unfoldable pub is_sub : TokenKind → Bool
is_sub subscribe_token = true
is_sub unsubscribe_token = true
is_sub _ = false

-- The loop of `cleanUpSubscribe` over the entries `m`, with the index and the tokens as they become.
unfoldable pub clean_subs : List (ℕ × ℕ) → List (ℕ × ℕ) → (ℕ → Token) → List (ℕ × ℕ) × (ℕ → Token)
clean_subs [] index tokens = (index, tokens)
clean_subs ((id, ref) ∷ m) index tokens =
    let kept = clean_subs m index tokens in
    let dropped = clean_subs m (delete id index) (update (lose (tokens ref).kind) ref tokens) in
    if is_sub (tokens ref).kind then dropped else kept

unfoldable pub clean_up_subscribe : MessageIds → MessageIds
clean_up_subscribe mids =
    let (index, tokens) = clean_subs mids.index mids.index mids.tokens in
    record mids { index = index; tokens = tokens }

unfoldable pub free_id : ℕ → MessageIds → MessageIds
free_id id mids = record mids { index = delete id mids.index }

-- An old token of the id is completed, and the id goes to the new one.
abbrev pub complete_old : Option ℕ → (ℕ → Token) → ℕ → Token
complete_old none tokens = tokens
complete_old (some old) tokens = update flow_complete old tokens

unfoldable pub claim_id : ℕ → ℕ → MessageIds → MessageIds
claim_id token id mids = record {
  index = insert id token mids.index;
  last_issued_id = if ltb mids.last_issued_id id then id else mids.last_issued_id;
  tokens = complete_old (lookup id mids.index) mids.tokens;
}

-- `i++` on a uint16, past 0.
unfoldable pub next_id : ℕ → ℕ
next_id i = if (i + 1) % 2 ^ 16 == 0 then 1 else (i + 1) % 2 ^ 16

unfoldable pub wraps : ℕ → Bool
wraps i = (i + 1) % 2 ^ 16 == 0

pub data Issue : Type 0 where
  issued : ℕ → Issue
  exhausted : Issue
  out_of_fuel : Issue

-- The loop of `getID` from the id `i`.
unfoldable pub get_id_loop : ℕ → List (ℕ × ℕ) → ℕ → ℕ → Bool → Issue
get_id_loop zero index last i looped = out_of_fuel
get_id_loop (suc fuel) index last i looped =
    let i' = next_id i in
    let looped' = looped || wraps i in
    let more = get_id_loop fuel index last i' looped' in
    elim (lookup i' index) [
      | none ↦ issued i'
      | some _ ↦ if (looped' && i' == last) || (last == 0 && i' == mid_max) then exhausted else more
    ]

-- There are 65535 ids, and a round looks at another one each.
unfoldable pub find_id : MessageIds → Issue
find_id mids = get_id_loop 65535 mids.index mids.last_issued_id mids.last_issued_id false

abbrev pub issue_to : ℕ → MessageIds → Issue → ℕ × MessageIds
issue_to token mids (issued i) =
    (i, record mids { index = insert i token mids.index; last_issued_id = i })
issue_to token mids _ = (0, mids)

-- 0 is no id.
unfoldable pub get_id : ℕ → MessageIds → ℕ × MessageIds
get_id token mids = issue_to token mids (find_id mids)

-- A DummyToken where the id is not in use.
pub data Found : Type 0 where
  token_ref : ℕ → Found
  dummy : ℕ → Found

unfoldable pub get_token : ℕ → MessageIds → Found
get_token id mids = elim (lookup id mids.index) [ some ref ↦ token_ref ref | none ↦ dummy id ]
