-- ===== src/Relay/Transparent.antt =====
-- The loop of `_pump` of proxy/relay.py, and what the capture can do to it under the policy
-- `continue`.
use retail_print_guard.Base.{
  All, ◌≡◌, refl, String, Bool, false, none, some, List, [], ◌∷◌, ◌++◌, arith, str_eq, is_empty,
  is_some, if◌then◌else◌, Option-cases, inl, inr, ap, sym, ◌∙◌,
}
use retail_print_guard.Spool.Types.{
  Direction, PerDirection, at, put, Bytes, StorageFailurePolicy, Codec,
}
use retail_print_guard.Spool.Session.{Session}
use retail_print_guard.Relay.Pump.{Tick, Outcome, Link, pump, counted, outcome_of}

module _ (c : Codec) where
  -- The loop, on what the network answers round by round. It is still waiting if it has not ended.
  unfoldable pub pump_loop : Direction → List Tick → Link c → Outcome × Link c
  pump_loop d [] l = (Outcome.again, l)
  pump_loop d (t ∷ ticks) l =
      let (outcome, l') = pump c d t l in
      let rest = pump_loop d ticks l' in elim outcome [ Outcome.again ↦ rest | ended ↦ (ended, l') ]

-- The texts of exceptions are not empty.
abbrev pub Named : Tick → Type 0
Named t = (text : String) → t.forward_error ≡ some text → str_eq text "" ≡ false

-- What a round comes to by the network alone.
abbrev network_outcome : Tick → Outcome
network_outcome t = elim t.forward_error [
  | none ↦ if is_empty t.payload then Outcome.clean_eof else Outcome.again
  | some error ↦
      if is_empty t.payload then Outcome.capture_abort error else Outcome.relay_error error
]

abbrev delivered_after : Direction → Tick → PerDirection Bytes → PerDirection Bytes
delivered_after d t delivered =
    if is_some t.forward_error then delivered else put delivered d (at delivered d ++ t.payload)

module _ (c : Codec) where
  policy-pump :
      (d : Direction) (t : Tick) (l : Link c) → (pump c d t l).1.session.policy ≡ l.session.policy
  unfolding pump
  policy-pump d t l = ground arith

  outcome_of-continue :
      (t : Tick) (accepted : Bool) (s : Session)
      → s.policy ≡ StorageFailurePolicy.continue
      → Named t
      → outcome_of t accepted s ≡ network_outcome t
  outcome_of-continue t accepted s p n = elim (Option-cases t.forward_error) [
    | inl fine ↦ ground arith
    | inr (text, bad) ↦ ground (arith, n text bad)
  ]

  pub outcome-pump :
      (d : Direction) (t : Tick) (l : Link c)
      → l.session.policy ≡ StorageFailurePolicy.continue
      → Named t
      → (pump c d t l).0 ≡ network_outcome t
  unfolding pump
  outcome-pump d t l p n =
      outcome_of-continue t _ (pump c d t l).1.session (policy-pump d t l ∙ p) n

  -- What a round does to the sockets and the counters, for any capture.
  network-pump :
      (d : Direction) (t : Tick) (l : Link c)
      → ((pump c d t l).1.counters ≡ (counted d t l.counters).1)
        × ((pump c d t l).1.received ≡ put l.received d (at l.received d ++ t.payload))
        × ((pump c d t l).1.delivered ≡ delivered_after d t l.delivered)
  unfolding pump
  network-pump d t l = (refl, refl, refl)

  -- Two links that differ in nothing but the capture.
  pub record SameNetwork (l l' : Link c) : Type 0 where
    pub counters : l.counters ≡ l'.counters
    pub received : l.received ≡ l'.received
    pub delivered : l.delivered ≡ l'.delivered

  SameNetwork-pump :
      (d : Direction) (t : Tick) (l l' : Link c)
      → SameNetwork l l'
      → SameNetwork (pump c d t l).1 (pump c d t l').1
  SameNetwork-pump d t l l' h =
      let (n, r, w) = network-pump d t l in
      let (n', r', w') = network-pump d t l' in
      record {
        counters = n ∙ ap (λ x. (counted d t x).1) h.counters ∙ sym n';
        received = r ∙ ap (λ x. put x d (at x d ++ t.payload)) h.received ∙ sym r';
        delivered = w ∙ ap (delivered_after d t) h.delivered ∙ sym w';
      }

  -- Under the policy `continue` the loop of a pump ends in the same way, after the same rounds, and
  -- has counted, received and delivered the same, whatever the states of the capture session and of
  -- its queue are: full, failed, without a manager, or well. (The links agree in what they have
  -- counted, received and delivered, and the text of a failed forward is not empty.)
  pub capture_never_stops_relay :
      (d : Direction) (ticks : List Tick) (l l' : Link c)
      → l.session.policy ≡ StorageFailurePolicy.continue
      → l'.session.policy ≡ StorageFailurePolicy.continue
      → All Named ticks
      → SameNetwork l l'
      → ((pump_loop c d ticks l).0 ≡ (pump_loop c d ticks l').0)
        × SameNetwork (pump_loop c d ticks l).1 (pump_loop c d ticks l').1
  unfolding pump_loop
  capture_never_stops_relay d [] l l' p p' n h = (refl, h)
  capture_never_stops_relay d (t ∷ ticks) l l' p p' n h =
      on_outcome (network_outcome t) (outcome-pump d t l p n.0) (outcome-pump d t l' p' n.0)
        (SameNetwork-pump d t l l' h)
        (capture_never_stops_relay d ticks (pump c d t l).1 (pump c d t l').1
          (policy-pump d t l ∙ p) (policy-pump d t l' ∙ p') n.1 (SameNetwork-pump d t l l' h))
    where
      on_outcome :
          (o : Outcome)
          → (pump c d t l).0 ≡ o
          → (pump c d t l').0 ≡ o
          → SameNetwork (pump c d t l).1 (pump c d t l').1
          → ((pump_loop c d ticks (pump c d t l).1).0 ≡ (pump_loop c d ticks (pump c d t l').1).0)
            × SameNetwork
                (pump_loop c d ticks (pump c d t l).1).1
                (pump_loop c d ticks (pump c d t l').1).1
          → ((pump_loop c d (t ∷ ticks) l).0 ≡ (pump_loop c d (t ∷ ticks) l').0)
            × SameNetwork (pump_loop c d (t ∷ ticks) l).1 (pump_loop c d (t ∷ ticks) l').1
      on_outcome Outcome.again e e' one rest = rw (e, e', pump_loop) rest
      on_outcome Outcome.clean_eof e e' one rest = rw (e, e', pump_loop) (refl, one)
      on_outcome (Outcome.relay_error x) e e' one rest = rw (e, e', pump_loop) (refl, one)
      on_outcome (Outcome.capture_abort x) e e' one rest = rw (e, e', pump_loop) (refl, one)
