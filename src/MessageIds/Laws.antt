-- ===== src/MessageIds/Laws.antt =====
-- messageids.go: the ids in use before and after each operation.
use paho_mqtt_golang.Base.{
  ℕ, ◌+◌, ◌-◌, ◌≤◌, ◌<◌, ◌≡◌, ◌≢◌, ◌⊎◌, ◌↔◌, refl, sym, ◌∙◌, inl, inr, none, some, if◌then◌else◌,
  ltb, ◌==◌, arith,
}
use paho_mqtt_golang.Base.Assoc.{lookup, nat_eq, lookup-insert, lookup-delete}
use paho_mqtt_golang.MessageIds.{
  MessageIds, Issue, issued, exhausted, out_of_fuel, find_id, issue_to, get_id, free_id, claim_id,
  token_ref, dummy, get_token,
}
use paho_mqtt_golang.MessageIds.Search.{nth_id, InUse, find_id_answers}

-- The ids in use are ids, and the last issued is 0 only while none is in use.
pub record IsValid (mids : MessageIds) : Type 0 where
  pub bounded : mids.last_issued_id ≤ 65535
  pub keyed : (i ref : ℕ) → lookup i mids.index ≡ some ref → (1 ≤ i) × (i ≤ 65535)
  pub unused : mids.last_issued_id ≡ 0 → (i : ℕ) → lookup i mids.index ≡ none

-- Every id is looked at, at the latest in the 65535th round.
round_of : (last i : ℕ) → ℕ
round_of last i = if ltb last i then i - last else i + 65535 - last

nth_id-round_of :
    (last i : ℕ)
    → last ≤ 65535
    → 1 ≤ i
    → i ≤ 65535
    → (0 < round_of last i) × (round_of last i ≤ 65535) × (nth_id last (round_of last i) ≡ i)
unfolding round_of
nth_id-round_of last i h lo hi = ground arith

nth_id_range : (last n : ℕ) → 0 < n → (1 ≤ nth_id last n) × (nth_id last n ≤ 65535)
nth_id_range last n h = ground arith

-- The two results of `getID`. On success the id is a new one in the range, it is bound to the token,
-- and no other id is touched; on failure nothing changes, and no id is free.
abbrev pub Issues : ℕ → MessageIds → ℕ × MessageIds → Type 0
Issues token mids (i, mids') =
    ((1 ≤ i)
      × (i ≤ 65535)
      × (lookup i mids.index ≡ none)
      × ((j : ℕ) → lookup j mids'.index ≡ (if i == j then some token else lookup j mids.index))
      × (mids'.last_issued_id ≡ i))
    ⊎ ((i ≡ 0) × (mids' ≡ mids) × ((j : ℕ) → 1 ≤ j → j ≤ 65535 → InUse mids.index j))

-- With a last issued id of at most 65535, `getID` issues an id from 1 to 65535 that was free, binds
-- it to the token, and touches no other id; or, where all 65535 ids are in use, it returns 0 and
-- changes nothing.
pub get_id-Issues :
    (token : ℕ) (mids : MessageIds)
    → mids.last_issued_id ≤ 65535
    → Issues token mids (get_id token mids)
unfolding get_id
get_id-Issues token mids h = elim (find_id_answers mids h) [
  | inl (k, lo, hi, e, free, used) ↦
      let (one, most) = nth_id_range mids.last_issued_id k lo in
      rw e (
        inl (
          one,
          most,
          free,
          λ j. lookup-insert (nth_id mids.last_issued_id k) j token mids.index,
          refl,
        ))
  | inr (e, used) ↦ rw e (
      inr (
        refl,
        refl,
        λ j lo hi.
            let (pos, most, at) = nth_id-round_of mids.last_issued_id j h lo hi in
            rw at at (used (round_of mids.last_issued_id j) pos most),
      ))
]

-- With a last issued id of at most 65535, `getID` returns 0 exactly where every id from 1 to 65535
-- is in use.
pub get_id-eq-zero_iff :
    (token : ℕ) (mids : MessageIds)
    → mids.last_issued_id ≤ 65535
    → ((get_id token mids).0 ≡ 0) ↔ ((j : ℕ) → 1 ≤ j → j ≤ 65535 → InUse mids.index j)
get_id-eq-zero_iff token mids h = elim (get_id-Issues token mids h) [
  | inl (lo, hi, free, bound, last) ↦ (
    λ z. absurd (omega (arith, z)),
    λ all. let (ref, e) = all (get_id token mids).0 lo hi in cc (free, e),
  )
  | inr (z, same, all) ↦ (λ _. all, λ _. z)
]

keyed_of :
    (token : ℕ) {mids : MessageIds} {id : ℕ} (v : IsValid mids) (lo : 1 ≤ id) (hi : id ≤ 65535)
    (i ref : ℕ)
    → (if id == i then some token else lookup i mids.index) ≡ some ref
    → (1 ≤ i) × (i ≤ 65535)
keyed_of token v lo hi i ref e = ground (arith, v.keyed i ref)

-- `getID` keeps a valid state valid: every id in use is from 1 to 65535, the last issued is at most
-- 65535, and it is 0 only while no id is in use.
pub get_id-IsValid : (token : ℕ) (mids : MessageIds) → IsValid mids → IsValid (get_id token mids).1
get_id-IsValid token mids v = elim (get_id-Issues token mids v.bounded) [
  | inl (lo, hi, free, bound, last) ↦ record {
    bounded = omega (arith, last);
    keyed = λ i ref e. keyed_of token v lo hi i ref (sym (bound i) ∙ e);
    unused = λ z. absurd (omega (arith, last, z));
  }
  | inr (z, same, all) ↦ rw same v
]

pub free_id-IsValid : (id : ℕ) (mids : MessageIds) → IsValid mids → IsValid (free_id id mids)
unfolding free_id
free_id-IsValid id mids v = record {
  bounded = v.bounded;
  keyed = λ i ref e. ground (arith, lookup-delete id i mids.index, v.keyed i ref);
  unused = λ z i. ground (arith, lookup-delete id i mids.index, v.unused z i);
}

-- `claimID` keeps a valid state valid, for an id from 1 to 65535, whether it is in use or not.
pub claim_id-IsValid :
    (token id : ℕ) (mids : MessageIds)
    → 1 ≤ id
    → id ≤ 65535
    → IsValid mids
    → IsValid (claim_id token id mids)
unfolding claim_id
claim_id-IsValid token id mids lo hi v = record {
  bounded = ground (arith, v.bounded);
  keyed = λ i ref e. keyed_of token v lo hi i ref (sym (lookup-insert id i token mids.index) ∙ e);
  unused = λ z i. ground arith;
}

-- A freed id is free, and stays bound for no one else; the other ids keep their tokens.
pub get_token-free_id :
    (id j : ℕ) (mids : MessageIds)
    → get_token j (free_id id mids) ≡ (if id == j then dummy j else get_token j mids)
unfolding get_token free_id
get_token-free_id id j mids = ground (arith, lookup-delete id j mids.index)

pub get_token-claim_id :
    (token id j : ℕ) (mids : MessageIds)
    → get_token j (claim_id token id mids) ≡ (if id == j then token_ref token else get_token j mids)
unfolding get_token claim_id
get_token-claim_id token id j mids = ground (arith, lookup-insert id j token mids.index)

-- With a last issued id of at most 65535: where `getID` does not return 0, its id led to no token
-- before; afterwards it leads to the new token, and every other id to what it led to.
pub get_token-get_id :
    (token j : ℕ) (mids : MessageIds)
    → mids.last_issued_id ≤ 65535
    → (get_id token mids).0 ≢ 0
    → (get_token j (get_id token mids).1
        ≡ (if (get_id token mids).0 == j then token_ref token else get_token j mids))
      × (get_token (get_id token mids).0 mids ≡ dummy (get_id token mids).0)
unfolding get_token
get_token-get_id token j mids h ne = elim (get_id-Issues token mids h) [
  | inl (lo, hi, free, bound, last) ↦ (ground (arith, bound j), rw (free, get_token))
  | inr (z, same, all) ↦ absurd (ne z)
]

-- No token changes where an id is issued.
pub tokens-get_id : (token : ℕ) (mids : MessageIds) → (get_id token mids).1.tokens ≡ mids.tokens
unfolding get_id
tokens-get_id token mids = go (find_id mids)
  where
    go : (x : Issue) → (issue_to token mids x).1.tokens ≡ mids.tokens
    go (issued i) = refl
    go exhausted = refl
    go out_of_fuel = refl
