-- ===== src/Status/Resume.antt =====
-- What the calls of status.go do once the channel that they wait for is closed.
use paho_mqtt_golang.Base.{
  ℕ, ◌+◌, ◌≡◌, ◌<◌, refl, inl, inr, List, ◌∷◌, ◌++◌, Bool, true, not, Bool-cases, Option, none,
  some, arith,
}
use paho_mqtt_golang.Status.{
  Status, disconnected, disconnecting, connecting, reconnecting, connected, ConnectionStatus,
  make_action, Outcome, resumes, check_reconnect,
}
use paho_mqtt_golang.Status.System.{with_call, IsClosed}
use paho_mqtt_golang.Status.Counts.{
  connects, holds, claims, count, count-middle, Counts, Action, Inv,
}
use paho_mqtt_golang.Status.Starts.{opened}
use paho_mqtt_golang.Status.Closing.{Inv-idle}

-- With no completion function about, there is no channel.
Action-idle : (a : Option ℕ) (made : ℕ) (closed : ℕ → Bool) → Action a 0 made closed → a ≡ none
Action-idle none made closed h = refl
Action-idle (some ch) made closed h = absurd (omega (arith, h.0))

Counts-claimed :
    (s : Status) (c h w : ℕ) → Counts s c h (1 + w) → (s ≡ disconnecting) × (h ≡ 0) × (w ≡ 0)
Counts-claimed disconnected c h w n = absurd (omega (arith, n))
Counts-claimed disconnecting c h w n = (refl, omega (arith, n), omega (arith, n))
Counts-claimed connecting c h w n = absurd (omega (arith, n))
Counts-claimed reconnecting c h w n = absurd (omega (arith, n))
Counts-claimed connected c h w n = absurd (omega (arith, n))

-- A closed channel is not the one that a connection process will close.
closed_over :
    (c : ConnectionStatus) (a : Option ℕ) (ch : Option ℕ) (n : ℕ)
    → Action a n c.made c.closed
    → (n ≡ 1 → ch ≡ a)
    → IsClosed c ch
    → n ≡ 0
closed_over c none ch n h w e = h
closed_over c (some k) none n h w e = absurd e
closed_over c (some k) (some j) n h w e = ground (arith, w h.0, h.1, e)

module _ (c : ConnectionStatus) (pre post : List Outcome) (o : Outcome) where
  -- Behind a call that will hold the end of a disconnection, once no connection process runs, the others
  -- only wait for it.
  abbrev pub Alone : Type 0
  Alone =
      (c.status ≡ disconnecting)
      × (c.action_completed ≡ none)
      × (count connects (pre ++ post) ≡ 0)
      × (count holds (pre ++ post) ≡ 0)
      × (count claims (pre ++ post) ≡ 0)

  pub claim_alone :
      connects o ≡ 0
      → holds o ≡ 0
      → claims o ≡ 1
      → Inv c (pre ++ (o ∷ post))
      → (count connects (pre ++ (o ∷ post)) ≡ 0)
      → Alone
  claim_alone ec eh ew i over =
      let fc = count-middle connects pre post o in
      let fh = count-middle holds pre post o in
      let fw = count-middle claims pre post o in
      let shape : count claims (pre ++ (o ∷ post)) ≡ 1 + count claims (pre ++ post) =
        omega (arith, fw, ew) in
      let (d, h, w) = Counts-claimed c.status _ _ _ (rw shape at i.counts) in
      let none_held : count connects (pre ++ (o ∷ post)) + count holds (pre ++ (o ∷ post)) ≡ 0 =
        omega (arith, over, h) in
      (
        d,
        Action-idle c.action_completed c.made c.closed (rw none_held at i.action),
        omega (arith, fc, over),
        omega (arith, fh, h),
        w,
      )

  -- Which is the case when the channel that it waits for is closed.
  pub no_connection :
      (ch : Option ℕ)
      → claims o ≡ 1
      → (count connects (pre ++ (o ∷ post)) ≡ 1 → ch ≡ c.action_completed)
      → IsClosed c ch
      → Inv c (pre ++ (o ∷ post))
      → count connects (pre ++ (o ∷ post)) ≡ 0
  no_connection ch ew w e i =
      let shape : count claims (pre ++ (o ∷ post)) ≡ 1 + count claims (pre ++ post) =
        omega (arith, count-middle claims pre post o, ew) in
      let (d, h, z) = Counts-claimed c.status _ _ _ (rw shape at i.counts) in
      let same : count connects (pre ++ (o ∷ post)) + count holds (pre ++ (o ∷ post))
          ≡ count connects (pre ++ (o ∷ post)) =
        omega (arith, h) in
      closed_over c c.action_completed ch _ (rw same at i.action) w e

module _ (c : ConnectionStatus) (calls : List Outcome)
    (bounds : (k : ℕ) → c.closed k ≡ true → k < c.made) (d : c.status ≡ disconnecting)
    (a : c.action_completed ≡ none) (zc : count connects calls ≡ 0) (zh : count holds calls ≡ 0)
    (zw : count claims calls ≡ 0) where
  -- The call gives up.
  pub gives_up : Inv c calls
  gives_up = Inv-idle c calls a zc zh (rw d (omega (arith, zw))) bounds

  -- The call goes on.
  pub goes_on : Inv c (resumes ∷ calls)
  goes_on =
      Inv-idle c (resumes ∷ calls) a (omega (arith, zc)) (omega (arith, zh))
        (rw d (omega (arith, zw))) bounds

  -- The call makes a channel of its own.
  pub takes_over :
      (o : Outcome) → connects o ≡ 0 → holds o ≡ 1 → claims o ≡ 0 → Inv (make_action c) (o ∷ calls)
  takes_over o ec eh ew =
      opened c.will_reconnect c.action_completed c.made c.closed calls c.status c.status
        c.will_reconnect o bounds (omega (arith, zc, zh)) zw (omega (arith, ec, eh)) ew
        (rw d (omega (arith, ec, eh, ew, zc, zh, zw)))

pub check_reconnect-Inv :
    (c : ConnectionStatus) (calls : List Outcome) (prev : Status)
    → Inv c calls
    → Inv c (resumes ∷ calls)
    → Inv c (with_call (check_reconnect prev c) calls)
unfolding check_reconnect
check_reconnect-Inv c calls disconnected i j = j
check_reconnect-Inv c calls disconnecting i j = j
check_reconnect-Inv c calls connecting i j = j
check_reconnect-Inv c calls connected i j = j
check_reconnect-Inv c calls reconnecting i j = elim (Bool-cases (not c.will_reconnect)) [
  | inl stays ↦ rw stays i
  | inr goes ↦ rw goes j
]
