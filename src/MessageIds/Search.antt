-- ===== src/MessageIds/Search.antt =====
-- messageids.go: the order in which the loop of `getID` looks at the ids.
use native.Mathlib.Decide.{dec_lt}
use paho_mqtt_golang.Base.{
  ℕ, zero, suc, ◌+◌, ◌-◌, ◌%◌, ◌≤◌, ◌<◌, ◌≡◌, ◌⊎◌, refl, inl, inr, List, false, ◌||◌, ◌&&◌, Option,
  none, some, if◌then◌else◌, ltb, ◌==◌, arith,
}
use paho_mqtt_golang.Base.Assoc.{lookup, nat_eq}
use paho_mqtt_golang.MessageIds.{
  MessageIds, next_id, wraps, Issue, issued, exhausted, get_id_loop, find_id,
}

-- The `n`-th id behind `last`, and `last` itself for 0.
abbrev pub nth_id : ℕ → ℕ → ℕ
nth_id last n = if n == 0 then last else (last + n - 1) % 65535 + 1

next_id-nth_id :
    (last n : ℕ) → last ≤ 65535 → n < 65535 → next_id (nth_id last n) ≡ nth_id last (n + 1)
unfolding next_id
next_id-nth_id last n h hn = ground arith

abbrev pub InUse : List (ℕ × ℕ) → ℕ → Type 0
InUse index i = (ref : ℕ) × (lookup i index ≡ some ref)

looped_step :
    (last n : ℕ)
    → last ≤ 65535
    → n < 65535
    → (ltb 65535 (last + n) || wraps (nth_id last n)) ≡ ltb 65535 (last + (n + 1))
unfolding wraps
looped_step last n h hn = ground arith

-- The test that ends the search holds after 65535 rounds and not before.
end_test :
    (last n : ℕ)
    → last ≤ 65535
    → 0 < n
    → n ≤ 65535
    → ((ltb 65535 (last + n) && nth_id last n == last) || (last == 0 && nth_id last n == 65535))
      ≡ (n == 65535)
end_test last n h pos hn = ground arith

-- What the search answers, looking at the ids from the one behind the `n`-th.
abbrev pub Answer : List (ℕ × ℕ) → ℕ → ℕ → Issue → Type 0
Answer index last n r =
    ((k : ℕ) × (n < k)
      × (k ≤ 65535)
      × (r ≡ issued (nth_id last k))
      × (lookup (nth_id last k) index ≡ none)
      × ((m : ℕ) → n < m → m < k → InUse index (nth_id last m)))
    ⊎ ((r ≡ exhausted) × ((m : ℕ) → n < m → m ≤ 65535 → InUse index (nth_id last m)))

module _ (index : List (ℕ × ℕ)) (last : ℕ) (h : last ≤ 65535) where
  round_free :
      (fuel n : ℕ)
      → n < 65535
      → lookup (nth_id last (n + 1)) index ≡ none
      → get_id_loop (suc fuel) index last (nth_id last n) (ltb 65535 (last + n))
        ≡ issued (nth_id last (n + 1))
  unfolding get_id_loop
  round_free fuel n hn free = ground (arith, next_id-nth_id last n h hn)

  round_used :
      (fuel n ref : ℕ)
      → n < 65535
      → lookup (nth_id last (n + 1)) index ≡ some ref
      → get_id_loop (suc fuel) index last (nth_id last n) (ltb 65535 (last + n)) ≡ (
          if n + 1 == 65535
          then exhausted
          else get_id_loop fuel index last (nth_id last (n + 1)) (ltb 65535 (last + (n + 1))))
  unfolding get_id_loop
  round_used fuel n ref hn used = ground (
    arith,
    next_id-nth_id last n h hn,
    looped_step last n h hn,
    end_test last (n + 1) h (omega arith) (omega arith),
  )

  -- The entries behind the `n`-th are the next one and those behind it.
  InUse-from :
      (n : ℕ)
      → InUse index (nth_id last (n + 1))
      → (bound : ℕ) → ((m : ℕ) → n + 1 < m → m < bound → InUse index (nth_id last m))
      → (m : ℕ) → n < m
      → m < bound
      → InUse index (nth_id last m)
  InUse-from n first bound more m lo hi = elim (dec_lt (n + 1) m) [
    | yes later ↦ more m later hi
    | no next ↦ let e : m ≡ n + 1 = omega arith in rw e first
  ]

  Answer-step :
      (n : ℕ) (r : Issue)
      → InUse index (nth_id last (n + 1))
      → Answer index last (n + 1) r
      → Answer index last n r
  Answer-step n r first (inl (k, lo, hi, e, free, used)) =
      inl (k, omega arith, hi, e, free, InUse-from n first k used)
  Answer-step n r first (inr (e, used)) = inr (
    e,
    λ m lo hi. InUse-from n first 65536 (λ m lo hi. used m lo (omega arith)) m lo (omega arith),
  )

  -- One round, given what the rounds behind it answer.
  round_answers :
      (fuel n : ℕ) (o : Option ℕ)
      → fuel + n + 1 ≡ 65535
      → lookup (nth_id last (n + 1)) index ≡ o
      → (0 < fuel
          → Answer index last
              (n + 1)
              (get_id_loop fuel index last (nth_id last (n + 1)) (ltb 65535 (last + (n + 1)))))
      → Answer index last n
          (get_id_loop (suc fuel) index last (nth_id last n) (ltb 65535 (last + n)))
  round_answers fuel n none e free more = inl (
    n + 1,
    omega arith,
    omega arith,
    round_free fuel n (omega arith) free,
    free,
    λ m lo hi. absurd (omega arith),
  )
  round_answers zero n (some ref) e used more = inr (
    ground (arith, round_used 0 n ref (omega arith) used),
    λ m lo hi. let at : m ≡ n + 1 = omega arith in rw at (ref, used),
  )
  round_answers (suc fuel) n (some ref) e used more =
      let again : (n + 1 == 65535) ≡ false = ground arith in
      rw (round_used (suc fuel) n ref (omega arith) used, again)
        (Answer-step n _ (ref, used) (more (omega arith)))

  search_answers :
      (fuel n : ℕ)
      → fuel + n + 1 ≡ 65535
      → Answer index last n
          (get_id_loop (suc fuel) index last (nth_id last n) (ltb 65535 (last + n)))
  search_answers zero n e = round_answers zero n _ e refl (λ pos. absurd (omega arith))
  search_answers (suc fuel) n e =
      round_answers (suc fuel) n _ e refl (λ _. search_answers fuel (n + 1) (omega arith))

-- From any last id the search ends within its fuel. It issues the first free id in the order from
-- the one behind the last issued, or, if all 65535 are in use, none.
pub find_id_answers :
    (mids : MessageIds)
    → mids.last_issued_id ≤ 65535
    → Answer mids.index mids.last_issued_id 0 (find_id mids)
unfolding find_id
find_id_answers mids h =
    let last = mids.last_issued_id in
    let off : ltb 65535 (last + 0) ≡ false = ground arith in
    rw off at (search_answers mids.index last h 65534 0 refl)
