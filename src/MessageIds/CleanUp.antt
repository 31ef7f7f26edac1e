-- ===== src/MessageIds/CleanUp.antt =====
-- cleanUp and cleanUpSubscribe: which tokens are told that the connection was lost.
use paho_mqtt_golang.Base.{
  ℕ, ◌≡◌, ◌⊎◌, refl, inl, inr, List, [], ◌∷◌, Bool, true, false, Option, none, some, if◌then◌else◌,
  ◌==◌, ◌&&◌, ◌||◌, arith,
}
use paho_mqtt_golang.Base.Assoc.{lookup, delete, nat_eq, lookup-delete, Distinct}
use paho_mqtt_golang.Token.{
  Token, TokenKind, TokenError, has_base, publish_token, subscribe_token, unsubscribe_token,
  lost_before_publish, lost_before_subscribe, lost_before_unsubscribe, flow_complete, set_error,
}
use paho_mqtt_golang.MessageIds.{
  MessageIds, update, lose, clean_token, clean_tokens, clean_up, is_sub, clean_subs,
  clean_up_subscribe,
}

-- A reference that some id is bound to.
abbrev pub Holds : List (ℕ × ℕ) → ℕ → Type 0
Holds [] ref = ⊥
Holds ((id, r) ∷ m) ref = (r ≡ ref) ⊎ Holds m ref

clean_token-clean_token : (t : Token) → clean_token (clean_token t) ≡ clean_token t
unfolding clean_token lose flow_complete set_error has_base
clean_token-clean_token t = ground arith

clean_tokens_held :
    (m : List (ℕ × ℕ)) (tokens : ℕ → Token) (ref : ℕ)
    → (clean_tokens m tokens ref ≡ tokens ref)
      ⊎ (clean_tokens m tokens ref ≡ clean_token (tokens ref))
unfolding clean_tokens update
clean_tokens_held [] tokens ref = inl refl
clean_tokens_held ((id, r) ∷ m) tokens ref = ground (
  arith,
  clean_token-clean_token (tokens ref),
  clean_tokens_held m (update clean_token r tokens) ref,
)

-- A token that some id is bound to is cleaned, once or, with the same effect, more often.
clean_tokens_of_Holds :
    (m : List (ℕ × ℕ)) (tokens : ℕ → Token) (ref : ℕ)
    → Holds m ref
    → clean_tokens m tokens ref ≡ clean_token (tokens ref)
unfolding clean_tokens update
clean_tokens_of_Holds [] tokens ref h = absurd h
clean_tokens_of_Holds ((id, r) ∷ m) tokens ref (inl e) = ground (
  arith,
  clean_token-clean_token (tokens ref),
  clean_tokens_held m (update clean_token r tokens) ref,
)
clean_tokens_of_Holds ((id, r) ∷ m) tokens ref (inr h) = ground (
  arith,
  clean_token-clean_token (tokens ref),
  clean_tokens_of_Holds m (update clean_token r tokens) ref h,
)

clean_tokens_of_not_Holds :
    (m : List (ℕ × ℕ)) (tokens : ℕ → Token) (ref : ℕ)
    → ¬ Holds m ref
    → clean_tokens m tokens ref ≡ tokens ref
unfolding clean_tokens update
clean_tokens_of_not_Holds [] tokens ref h = refl
clean_tokens_of_not_Holds ((id, r) ∷ m) tokens ref h = ground (
  arith,
  λ (e : r ≡ ref). h (inl e),
  clean_tokens_of_not_Holds m (update clean_token r tokens) ref (λ x. h (inr x)),
)

-- The error that a lost operation reports.
abbrev pub loss : TokenKind → Option TokenError
loss publish_token = some lost_before_publish
loss subscribe_token = some lost_before_subscribe
loss unsubscribe_token = some lost_before_unsubscribe
loss _ = none

abbrev pub or_else : Option TokenError → Option TokenError → Option TokenError
or_else (some e) old = some e
or_else none old = old

-- `cleanUp` leaves no id in use. A token that was in use and can complete has completed, with the
-- error of its operation if it is a PUBLISH, SUBSCRIBE or UNSUBSCRIBE, else with the error it had.
pub clean_up_completes :
    (mids : MessageIds) (id ref : ℕ)
    → Holds mids.index ref
    → has_base (mids.tokens ref).kind ≡ true
    → (lookup id (clean_up mids).index ≡ none)
      × (((clean_up mids).tokens ref).complete ≡ true)
      × (((clean_up mids).tokens ref).error
          ≡ or_else (loss (mids.tokens ref).kind) (mids.tokens ref).error)
unfolding clean_up clean_token lose flow_complete set_error has_base lookup
clean_up_completes mids id ref h base =
    let at = clean_tokens_of_Holds mids.index mids.tokens ref h in
    (refl, ground (arith, at), ground (arith, at))

-- `cleanUp` changes no token that was not in use.
pub clean_up_others :
    (mids : MessageIds) (ref : ℕ)
    → ¬ Holds mids.index ref
    → (clean_up mids).tokens ref ≡ mids.tokens ref
unfolding clean_up
clean_up_others mids ref h = clean_tokens_of_not_Holds mids.index mids.tokens ref h

-- Whether the entries hold a SUBSCRIBE or UNSUBSCRIBE under the id `j`.
drops : ℕ → List (ℕ × ℕ) → (ℕ → Token) → Bool
drops j [] tokens = false
drops j ((id, r) ∷ m) tokens = (id == j && is_sub (tokens r).kind) || drops j m tokens

kind-update-lose :
    (k : TokenKind) (r ref : ℕ) (tokens : ℕ → Token)
    → (update (lose k) r tokens ref).kind ≡ (tokens ref).kind
unfolding update lose set_error has_base
kind-update-lose k r ref tokens = ground arith

drops-update-lose :
    (k : TokenKind) (j r : ℕ) (m : List (ℕ × ℕ)) (tokens : ℕ → Token)
    → drops j m (update (lose k) r tokens) ≡ drops j m tokens
unfolding drops
drops-update-lose k j r [] tokens = refl
drops-update-lose k j r ((id, ref) ∷ m) tokens =
    ground (arith, kind-update-lose k r ref tokens, drops-update-lose k j r m tokens)

lookup-clean_subs :
    (m index : List (ℕ × ℕ)) (tokens : ℕ → Token) (j : ℕ)
    → lookup j (clean_subs m index tokens).0 ≡ (if drops j m tokens then none else lookup j index)
unfolding clean_subs drops
lookup-clean_subs [] index tokens j = refl
lookup-clean_subs ((id, r) ∷ m) index tokens j = ground (
  arith,
  lookup-delete id j index,
  lookup-clean_subs m index tokens j,
  drops-update-lose (tokens r).kind j r m tokens,
  lookup-clean_subs m (delete id index) (update (lose (tokens r).kind) r tokens) j,
)

-- Whether an id is bound to a SUBSCRIBE or UNSUBSCRIBE.
abbrev pub sub_at : (ℕ → Token) → Option ℕ → Bool
sub_at tokens none = false
sub_at tokens (some r) = is_sub (tokens r).kind

drops-lookup :
    (j : ℕ) (m : List (ℕ × ℕ)) (tokens : ℕ → Token)
    → Distinct m
    → drops j m tokens ≡ sub_at tokens (lookup j m)
unfolding drops lookup
drops-lookup j [] tokens d = refl
drops-lookup j ((id, r) ∷ m) tokens d = ground (arith, d.0, drops-lookup j m tokens d.1)

-- Where no id stands twice in the index, as in a map, `cleanUpSubscribe` frees exactly the ids of
-- SUBSCRIBE and UNSUBSCRIBE; every other id keeps its token.
pub lookup-clean_up_subscribe :
    (mids : MessageIds) (j : ℕ)
    → Distinct mids.index
    → lookup j (clean_up_subscribe mids).index
      ≡ (if sub_at mids.tokens (lookup j mids.index) then none else lookup j mids.index)
unfolding clean_up_subscribe
lookup-clean_up_subscribe mids j d = ground (
  arith,
  lookup-clean_subs mids.index mids.index mids.tokens j,
  drops-lookup j mids.index mids.tokens d,
)

-- Tokens of other kinds are left as they were by the loop.
clean_subs_others :
    (m index : List (ℕ × ℕ)) (tokens : ℕ → Token) (ref : ℕ)
    → is_sub (tokens ref).kind ≡ false
    → (clean_subs m index tokens).1 ref ≡ tokens ref
unfolding clean_subs update
clean_subs_others [] index tokens ref h = refl
clean_subs_others ((id, r) ∷ m) index tokens ref h = ground (
  arith,
  kind-update-lose (tokens r).kind r ref tokens,
  clean_subs_others m index tokens ref h,
  clean_subs_others m (delete id index) (update (lose (tokens r).kind) r tokens) ref,
)

-- `cleanUpSubscribe` does not change a token that is not one of SUBSCRIBE or UNSUBSCRIBE.
pub clean_up_subscribe_keeps :
    (mids : MessageIds) (ref : ℕ)
    → is_sub (mids.tokens ref).kind ≡ false
    → (clean_up_subscribe mids).tokens ref ≡ mids.tokens ref
unfolding clean_up_subscribe
clean_up_subscribe_keeps mids ref h = clean_subs_others mids.index mids.index mids.tokens ref h
