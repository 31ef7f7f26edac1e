-- ===== src/Keepalive/Laws.antt =====
-- ping.go: a silent broker is given up, and no other.
use paho_mqtt_golang.Base.{
  ℕ, ◌+◌, ◌≤◌, ◌<◌, ◌≡◌, ◌∙◌, ◌⊎◌, refl, sym, ap, inl, inr, List, [], ◌∷◌, ◌++◌, Bool, true, false,
  not, ◌&&◌, none, some, if◌then◌else◌, All, arith, Bool-cases,
}
use paho_mqtt_golang.Keepalive.{
  Keepalive, Event, look, sent, received, pong, check, is_due, send_ping, happens, run, elapsed,
}

abbrev pub is_pong : Event → Bool
is_pong (pong now) = true
is_pong _ = false

-- No PINGRESP.
abbrev pub IsSilent : Event → Type 0
IsSilent e = is_pong e ≡ false

quiet : (d p : Bool) → p ≡ true → (d && not p) ≡ false
quiet d p h = ground (arith, h)

both : (d p : Bool) → d ≡ true → p ≡ false → (d && not p) ≡ true
both d p h e = ground (arith, h, e)

-- A look while a PINGREQ is unanswered sends none.
check_waiting :
    (keep_alive ping_timeout now : ℕ) (k : Keepalive)
    → k.ping_outstanding ≡ true
    → check keep_alive ping_timeout now k
      ≡ (if elapsed now k.ping_sent ping_timeout then none else some k)
unfolding check
check_waiting keep_alive ping_timeout now k o =
    rw (quiet (is_due keep_alive now k) k.ping_outstanding o) (ground (arith, o))

-- Once a ping has gone unanswered for the timeout, the next look gives up.
waits :
    (keep_alive ping_timeout t now : ℕ) (es : List Event) (k : Keepalive)
    → k.ping_outstanding ≡ true
    → k.ping_sent ≡ t
    → All IsSilent es
    → t + ping_timeout ≤ now
    → run keep_alive ping_timeout (es ++ (look now ∷ [])) k ≡ none
unfolding run happens
waits keep_alive ping_timeout t now [] k o sent_at s late =
    let over : elapsed now k.ping_sent ping_timeout ≡ true = ground (arith, sent_at) in
    rw (run, happens, check_waiting keep_alive ping_timeout now k o, over) refl
waits keep_alive ping_timeout t now (look u ∷ es) k o sent_at s late =
    elim (Bool-cases (elapsed u k.ping_sent ping_timeout)) [
      | inl over ↦ rw (run, happens, check_waiting keep_alive ping_timeout u k o, over) refl
      | inr not_yet ↦
          rw (run, happens, check_waiting keep_alive ping_timeout u k o, not_yet)
            (waits keep_alive ping_timeout t now es k o sent_at s.1 late)
    ]
waits keep_alive ping_timeout t now (sent u ∷ es) k o sent_at s late =
    waits keep_alive ping_timeout t now es (record k { last_sent = u }) o sent_at s.1 late
waits keep_alive ping_timeout t now (received u ∷ es) k o sent_at s late =
    waits keep_alive ping_timeout t now es (record k { last_received = u }) o sent_at s.1 late
waits keep_alive ping_timeout t now (pong u ∷ es) k o sent_at s late = absurd (ground (arith, s.0))

check_due :
    (keep_alive ping_timeout now : ℕ) (k : Keepalive)
    → is_due keep_alive now k ≡ true
    → k.ping_outstanding ≡ false
    → check keep_alive ping_timeout now k
      ≡ (if elapsed now now ping_timeout then none else some (send_ping now k))
unfolding check send_ping
check_due keep_alive ping_timeout now k due idle =
    rw (check, both (is_due keep_alive now k) k.ping_outstanding due idle) refl

-- Whatever else is sent and received, and however often the goroutine looks between: where it looks
-- at the time `t`, no PINGREQ is unanswered, and nothing was sent or nothing was received for the
-- keepalive, then without a PINGRESP it gives the connection up at the latest when it looks a ping
-- timeout after `t`, or later still.
pub silent_broker_is_given_up :
    (keep_alive ping_timeout t now : ℕ) (es : List Event) (k : Keepalive)
    → is_due keep_alive t k ≡ true
    → k.ping_outstanding ≡ false
    → All IsSilent es
    → t + ping_timeout ≤ now
    → run keep_alive ping_timeout (look t ∷ (es ++ (look now ∷ []))) k ≡ none
unfolding run happens
silent_broker_is_given_up keep_alive ping_timeout t now es k due idle s late =
    elim (Bool-cases (elapsed t t ping_timeout)) [
      | inl over ↦ rw (run, happens, check_due keep_alive ping_timeout t k due idle, over) refl
      | inr not_yet ↦
          rw (run, happens, check_due keep_alive ping_timeout t k due idle, not_yet)
            (waits keep_alive ping_timeout t now es (send_ping t k) (unfold send_ping in refl)
              (unfold send_ping in refl) s late)
    ]

check_idle :
    (keep_alive ping_timeout now : ℕ) (k : Keepalive)
    → is_due keep_alive now k ≡ false
    → k.ping_outstanding ≡ false
    → check keep_alive ping_timeout now k ≡ some k
unfolding check
check_idle keep_alive ping_timeout now k not_due idle = rw (check, not_due) (ground (arith, idle))

-- The events up to a look that comes the timeout after `t`, or later, without a PINGRESP.
abbrev pub IsOverdue : ℕ → ℕ → List Event → Type 0
IsOverdue ping_timeout t es =
    (middle : List Event) × (now : ℕ) × (later : List Event) × (es ≡ middle ++ (look now ∷ later))
    × All IsSilent middle
    × (t + ping_timeout ≤ now)

-- At the time `t` a look found that nothing was sent, or nothing was received, for the keepalive, and
-- sent a PINGREQ, for which no PINGRESP came before a look a timeout later.
abbrev pub WasSilent : ℕ → ℕ → List Event → Keepalive → Type 0
WasSilent keep_alive ping_timeout es k =
    (before : List Event) × (t : ℕ) × (after : List Event) × (kt : Keepalive) × (es
      ≡ before ++ (look t ∷ after))
    × (run keep_alive ping_timeout before k ≡ some kt)
    × (is_due keep_alive t kt ≡ true)
    × (kt.ping_outstanding ≡ false)
    × IsOverdue ping_timeout t after

module _ (keep_alive ping_timeout : ℕ) where
  -- A step that goes on.
  WasSilent-cons :
      (e : Event) (es : List Event) (k k' : Keepalive)
      → happens keep_alive ping_timeout e k ≡ some k'
      → WasSilent keep_alive ping_timeout es k'
      → WasSilent keep_alive ping_timeout (e ∷ es) k
  unfolding run
  WasSilent-cons e es k k' h (before, t, after, kt, split, runs, due, idle, over) =
      (e ∷ before, t, after, kt, ap (λ l. e ∷ l) split, rw (run, h) runs, due, idle, over)

  IsOverdue-cons :
      (t : ℕ) (e : Event) (es : List Event)
      → is_pong e ≡ false
      → IsOverdue ping_timeout t es
      → IsOverdue ping_timeout t (e ∷ es)
  IsOverdue-cons t e es silent (middle, now, later, split, all, late) =
      (e ∷ middle, now, later, ap (λ l. e ∷ l) split, (silent, all), late)

  -- Either a PINGREQ was unanswered at first and is so for the timeout, or a later one is.
  abbrev Blames : List Event → Keepalive → Type 0
  Blames es k =
      ((k.ping_outstanding ≡ true) × IsOverdue ping_timeout k.ping_sent es)
      ⊎ WasSilent keep_alive ping_timeout es k

  -- An event that neither answers nor sends a PINGREQ.
  Blames-cons :
      (e : Event) (es : List Event) (k k' : Keepalive)
      → is_pong e ≡ false
      → happens keep_alive ping_timeout e k ≡ some k'
      → k'.ping_outstanding ≡ k.ping_outstanding
      → k'.ping_sent ≡ k.ping_sent
      → Blames es k'
      → Blames (e ∷ es) k
  Blames-cons e es k k' silent h same_ping same_time (inl (o, over)) =
      let over' = IsOverdue-cons k'.ping_sent e es silent over in
      inl (sym same_ping ∙ o, rw same_time at over')
  Blames-cons e es k k' silent h same_ping same_time (inr was) =
      inr (WasSilent-cons e es k k' h was)

  given_up-Blames :
      (es : List Event) (k : Keepalive)
      → 0 < ping_timeout
      → run keep_alive ping_timeout es k ≡ none
      → Blames es k
  unfolding run happens send_ping
  given_up-Blames [] k pos h = absurd (ground (arith, h))
  given_up-Blames (sent u ∷ es) k pos h =
      let k' = record k { last_sent = u } in
      Blames-cons (sent u) es k k' refl refl refl refl (given_up-Blames es k' pos h)
  given_up-Blames (received u ∷ es) k pos h =
      let k' = record k { last_received = u } in
      Blames-cons (received u) es k k' refl refl refl refl (given_up-Blames es k' pos h)
  given_up-Blames (pong u ∷ es) k pos h =
      let k' = record k { last_received = u; ping_outstanding = false } in
      elim (given_up-Blames es k' pos h) [
        | inl (o, over) ↦ absurd (ground (arith, o))
        | inr was ↦ inr (WasSilent-cons (pong u) es k k' refl was)
      ]
  given_up-Blames (look u ∷ es) k pos h = elim (Bool-cases k.ping_outstanding) [
    | inl o ↦
        let at_look = check_waiting keep_alive ping_timeout u k o in
        elim (Bool-cases (elapsed u k.ping_sent ping_timeout)) [
          | inl over ↦ inl (o, ([], u, es, refl, tt, ground (arith, over)))
          | inr not_yet ↦
              let goes_on = at_look ∙ rw not_yet refl in
              Blames-cons (look u) es k k refl goes_on refl refl
                (given_up-Blames es k pos (still es k u k goes_on h))
        ]
    | inr idle ↦ elim (Bool-cases (is_due keep_alive u k)) [
      | inl due ↦
          let early : elapsed u u ping_timeout ≡ false = ground (arith, pos) in
          let goes_on = check_due keep_alive ping_timeout u k due idle ∙ rw early refl in
          elim (given_up-Blames es (send_ping u k) pos (still es k u (send_ping u k) goes_on h)) [
            | inl (o, over) ↦ inr ([], u, es, k, refl, refl, due, idle, over)
            | inr was ↦ inr (WasSilent-cons (look u) es k (send_ping u k) goes_on was)
          ]
      | inr not_due ↦
          let goes_on = check_idle keep_alive ping_timeout u k not_due idle in
          Blames-cons (look u) es k k refl goes_on refl refl
            (given_up-Blames es k pos (still es k u k goes_on h))
    ]
  ]
    where
      still :
          (es : List Event) (k : Keepalive) (u : ℕ) (k' : Keepalive)
          → check keep_alive ping_timeout u k ≡ some k'
          → run keep_alive ping_timeout (look u ∷ es) k ≡ none
          → run keep_alive ping_timeout es k' ≡ none
      still es k u k' goes_on h = rw (run, happens, goes_on) at h

-- With a positive timeout and no PINGREQ unanswered at first, whatever happens: if the goroutine gives
-- the connection up, then at some time `t` a look found that nothing was sent, or nothing was received,
-- for the keepalive, and no PINGREQ unanswered, so that it sent one, and no PINGRESP came from then on
-- before a look a ping timeout after `t`, or later. Put the other way: a broker that answers each such
-- PINGREQ before that look is kept.
pub given_up-WasSilent :
    (keep_alive ping_timeout : ℕ) (es : List Event) (k : Keepalive)
    → 0 < ping_timeout
    → k.ping_outstanding ≡ false
    → run keep_alive ping_timeout es k ≡ none
    → WasSilent keep_alive ping_timeout es k
given_up-WasSilent keep_alive ping_timeout es k pos idle h =
    elim (given_up-Blames keep_alive ping_timeout es k pos h) [
      | inl (o, over) ↦ absurd (ground (arith, o, idle))
      | inr was ↦ was
    ]
