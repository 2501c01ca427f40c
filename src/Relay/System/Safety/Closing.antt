-- ===== src/Relay/System/Safety/Closing.antt =====
-- The close of a session keeps its invariant, and so does every run.
use retail_print_guard.Base.{
  ◌≡◌, refl, ◌⊎◌, inl, inr, String, true, false, Option, none, some, List, [], ◌∷◌, ◌++◌, arith,
  Bool-cases, Option-cases, is_some, subst,
}
use retail_print_guard.Spool.Types.{Codec}
use retail_print_guard.Spool.Writer.{SpoolError}
use retail_print_guard.Spool.Session.{Command, close_of, put_nowait}
use retail_print_guard.Relay.System.{
  System, summary_of, Action, tick, work, deliver, close, hand_over, give_up, Ending, close_step,
  hand_over_step, give_up_step, step, run,
}
use retail_print_guard.Relay.System.Ideal.{Ideal}
use retail_print_guard.Relay.System.Safety.Queue.{SafeIf, NoClose, Good, extend}
use retail_print_guard.Relay.System.Safety.Handling.{contents}
use retail_print_guard.Relay.System.Safety.Invariant.{
  Holds, IsHeld, Unqueued, still, never, tick_step-Holds, work_step-Holds, deliver_step-Holds,
}

module _ (c : Codec) (describe : SpoolError → String) (id : String) where
  -- The close that waits for room in the queue.
  abbrev closing : Ending → System c → Command c
  closing e s = close_of c (summary_of e s.link.counters) s.link.session

  Good-closing :
      (e : Ending) (s : System c) (o : Option Ideal)
      → Holds c describe id s
      → SafeIf o s.link.counters.observed_chunks s.link.received
      → Good c id s.link.counters.observed_chunks s.link.received (closing e s ∷ []) o
  unfolding close_of
  Good-closing e s o h safe = (h.named, safe, tt)

  close_step-over : (e : Ending) (s : System c) → s.closed ≡ true → close_step c e s ≡ s
  unfolding close_step
  close_step-over e s over = ground arith

  close_step-live :
      (e : Ending) (s : System c)
      → s.closed ≡ false
      → close_step c e s ≡ record s { closed = true; waiting = some (closing e s) }
  unfolding close_step
  close_step-live e s live = ground arith

  Holds-closing :
      (e : Ending) (s : System c)
      → s.closed ≡ false
      → Holds c describe id s
      → Holds c describe id (record s { closed = true; waiting = some (closing e s) })
  Holds-closing e s live h = record {
    named = h.named;
    good = h.good;
    answers = h.answers;
    held = λ command e'.
        subst (IsHeld c describe id true s.link.counters.observed_chunks s.link.received) (cc e')
          (record { over = refl; safe = λ o safe. Good-closing e s o h safe });
    no_close = λ _. h.no_close (inl live);
    no_answer = λ _. h.no_answer (inl live);
  }

  close_step-Holds :
      (e : Ending) (s : System c) → Holds c describe id s → Holds c describe id (close_step c e s)
  close_step-Holds e s h = elim (Bool-cases s.closed) [
    | inl over ↦ rw (close_step-over e s over) h
    | inr live ↦ rw (close_step-live e s live) (Holds-closing e s live h)
  ]

  -- Nothing waits any longer.
  Holds-given_up :
      (s : System c)
      → Holds c describe id s
      → (q : List (Command c))
      → Good c id s.link.counters.observed_chunks s.link.received q
          (contents c describe id s.worker)
      → (Unqueued c describe id (record s { waiting = none }) → NoClose c q)
      → Holds c describe id (record s {
        link = record s.link { manager = record s.link.manager { queue = q } };
        waiting = none;
      })
  Holds-given_up s h q good n = record {
    named = h.named;
    good = good;
    answers = h.answers;
    held = λ command e. absurd (ground (arith, e));
    no_close = n;
    no_answer = λ u. h.no_answer (still c describe id s u);
  }

  give_up_step-Holds :
      (s : System c) → Holds c describe id s → Holds c describe id (give_up_step c s)
  unfolding give_up_step
  give_up_step-Holds s h =
      Holds-given_up s h s.link.manager.queue h.good (λ u. h.no_close (still c describe id s u))

  hand_over-none : (s : System c) → s.waiting ≡ none → hand_over_step c s ≡ s
  unfolding hand_over_step
  hand_over-none s idle = ground arith

  hand_over-cases :
      (s : System c) (command : Command c)
      → s.waiting ≡ some command
      → (hand_over_step c s ≡ s)
        ⊎ (hand_over_step c s ≡ record s {
          link = record s.link {
            manager = record s.link.manager { queue = s.link.manager.queue ++ command ∷ [] };
          };
          waiting = none;
        })
  unfolding hand_over_step put_nowait
  hand_over-cases s command w = grind arith

  hand_over_step-Holds :
      (s : System c) → Holds c describe id s → Holds c describe id (hand_over_step c s)
  hand_over_step-Holds s h = elim (Option-cases s.waiting) [
    | inl idle ↦ rw (hand_over-none s idle) h
    | inr (command, w) ↦ elim (hand_over-cases s command w) [
      | inl full ↦ rw full h
      | inr queued ↦
          let seen = s.link.counters.observed_chunks in
          let some_waits : is_some s.waiting ≡ true = rw w refl in
          rw queued (
            Holds-given_up s h (s.link.manager.queue ++ command ∷ [])
              (extend c id seen seen s.link.received s.link.received (command ∷ [])
                s.link.manager.queue (contents c describe id s.worker) (h.held command w).safe
                (h.no_close (inr some_waits)) h.good)
              (λ u. absurd (never c describe id s (h.held command w).over u)))
    ]
  ]

  step-Holds :
      (a : Action c) (s : System c)
      → Holds c describe id s
      → Holds c describe id (step c describe a s)
  step-Holds (tick d t) s h = unfold step in tick_step-Holds c describe id d t s h
  step-Holds (work world) s h = unfold step in work_step-Holds c describe id world s h
  step-Holds deliver s h = unfold step in deliver_step-Holds c describe id s h
  step-Holds (close e) s h = unfold step in close_step-Holds e s h
  step-Holds hand_over s h = unfold step in hand_over_step-Holds s h
  step-Holds give_up s h = unfold step in give_up_step-Holds s h

  pub run-Holds :
      (actions : List (Action c)) (s : System c)
      → Holds c describe id s
      → Holds c describe id (run c describe actions s)
  unfolding run
  run-Holds [] s h = h
  run-Holds (a ∷ actions) s h = run-Holds actions (step c describe a s) (step-Holds a s h)
