-- ===== src/Relay/System/Safety/Invariant.antt =====
-- The invariant of a session, which says what a published capture holds: the pumps, the writer thread
-- and the failure callbacks keep it.
use retail_print_guard.Base.{
  ℕ, ◌≡◌, refl, ap, ◌∙◌, ◌||◌, ◌⊎◌, inl, inr, String, Bool, true, false, Option, none, some, List,
  [], ◌∷◌, append-nil, arith, All, Bool-cases, is_some,
}
use retail_print_guard.Spool.Types.{Direction, PerDirection, at, Bytes, CaptureEvent, Codec}
use retail_print_guard.Spool.Writer.{SpoolError}
use retail_print_guard.Spool.Session.{
  Command, open_command, event_command, close_command, stop_command, mark_failure,
}
use retail_print_guard.Spool.Worker.{
  World, Answer, opened, open_failed, published, close_failed, unavailable, stopped, process,
}
use retail_print_guard.Relay.Pump.{Tick, Link, pump}
use retail_print_guard.Relay.System.{System, tick_step, work_step, deliver_step}
use retail_print_guard.Relay.System.Ideal.{Ideal}
use retail_print_guard.Relay.System.Safety.Queue.{
  SafeIf, play_on, NoClose, Good, extend, NoClose-append,
}
use retail_print_guard.Relay.System.Safety.Answers.{GoodAnswer, NotPublished}
use retail_print_guard.Relay.System.Safety.Steps.{
  IsEventOf, seen_after, received_after, IsSafe-skip, IsSafe-play, Round, pump-Round,
}
use retail_print_guard.Relay.System.Safety.Handling.{contents, handles, no_answer-process}

SafeIf-skip :
    (d : Direction) (t : Tick) (o : Option Ideal) (seen : PerDirection ℕ)
    (received : PerDirection Bytes)
    → SafeIf o seen received
    → SafeIf o (seen_after d t seen) (received_after d t received)
SafeIf-skip d t none seen received h = tt
SafeIf-skip d t (some i) seen received h = IsSafe-skip d t i seen received h

SafeIf-play :
    (d : Direction) (t : Tick) (e : CaptureEvent) (o : Option Ideal) (seen : PerDirection ℕ)
    (received : PerDirection Bytes)
    → IsEventOf d t e
    → SafeIf o seen received
    → SafeIf (play_on e o) (seen_after d t seen) (received_after d t received)
SafeIf-play d t e none seen received m h = tt
SafeIf-play d t e (some i) seen received m h = IsSafe-play d t e i seen received m h

module _ (c : Codec) where
  NoClose-tail :
      (command : Command c) (rest : List (Command c)) → NoClose c (command ∷ rest) → NoClose c rest
  NoClose-tail (open_command d waited) rest n = n
  NoClose-tail (event_command j e) rest n = n
  NoClose-tail (close_command j k) rest n = absurd n
  NoClose-tail stop_command rest n = n

  nothing_published :
      (received : PerDirection Bytes) (answers : List (Answer c))
      → All (NotPublished c) answers
      → All (GoodAnswer c received) answers
  nothing_published received [] h = tt
  nothing_published received (published i s d ∷ answers) h = absurd h.0
  nothing_published received (opened i ∷ answers) h = (tt, nothing_published received answers h.1)
  nothing_published received (open_failed i ∷ answers) h =
      (tt, nothing_published received answers h.1)
  nothing_published received (close_failed i d ∷ answers) h =
      (tt, nothing_published received answers h.1)
  nothing_published received (unavailable i ∷ answers) h =
      (tt, nothing_published received answers h.1)
  nothing_published received (stopped ∷ answers) h = (tt, nothing_published received answers h.1)

module _ (c : Codec) (describe : SpoolError → String) (id : String) where
  -- The session is not closed, or its close waits for room in the queue.
  abbrev pub Unqueued : System c → Type 0
  Unqueued s = (s.closed ≡ false) ⊎ (is_some s.waiting ≡ true)

  pub still : (s : System c) → Unqueued (record s { waiting = none }) → Unqueued s
  still s (inl live) = inl live
  still s (inr waits) = absurd (ground (arith, waits))

  pub never : (s : System c) → s.closed ≡ true → Unqueued (record s { waiting = none }) → ⊥
  never s over (inl live) = ground (arith, over, live)
  never s over (inr waits) = ground (arith, waits)

  -- A close that waits may be put behind any queue that is safe.
  pub record IsHeld (closed : Bool) (seen : PerDirection ℕ) (received : PerDirection Bytes)
      (command : Command c) : Type 0 where
    pub over : closed ≡ true
    pub safe :
        (o : Option Ideal) → SafeIf o seen received → Good c id seen received (command ∷ []) o

  -- The invariant. Until its close is in the queue there is no close in it and no answer to one.
  pub record Holds (s : System c) : Type 0 where
    pub named : s.link.session.descriptor.session_id ≡ id
    pub good :
        Good c id s.link.counters.observed_chunks s.link.received s.link.manager.queue
          (contents c describe id s.worker)
    pub answers : All (GoodAnswer c s.link.received) s.worker.answers
    pub held :
        (command : Command c)
        → s.waiting ≡ some command
        → IsHeld s.closed s.link.counters.observed_chunks s.link.received command
    pub no_close : Unqueued s → NoClose c s.link.manager.queue
    pub no_answer : Unqueued s → All (NotPublished c) s.worker.answers

  -- The queue after a round of a pump, while the session is not closed.
  Good-Round :
      (d : Direction) (t : Tick) (l l' : Link c) (o : Option Ideal)
      → Round c d t l l'
      → l.session.descriptor.session_id ≡ id
      → NoClose c l.manager.queue
      → Good c id l.counters.observed_chunks l.received l.manager.queue o
      → Good c id l'.counters.observed_chunks l'.received l'.manager.queue o
        × NoClose c l'.manager.queue
  Good-Round d t l l' o r named n h =
      let seen = l.counters.observed_chunks in
      rw (r.seen, r.received)
        (elim r.queue [
          | inl same ↦ rw same (
            rw (append-nil l.manager.queue) at (
                extend c id seen (seen_after d t seen) l.received (received_after d t l.received) []
                  l.manager.queue o (λ o'. SafeIf-skip d t o' seen l.received) n h),
            n,
          )
          | inr (e, longer, m) ↦
              rw (longer, named)
                (
                  extend c id seen (seen_after d t seen) l.received (received_after d t l.received)
                      (event_command id e ∷ []) l.manager.queue o
                      (λ o' safe. (refl, SafeIf-play d t e o' seen l.received m safe)) n h,
                  NoClose-append c id l.manager.queue e n,
                )
        ])

  Holds-Round :
      (d : Direction) (t : Tick) (s : System c) (l : Link c) (ended : PerDirection Bool)
      → s.closed ≡ false
      → Round c d t s.link l
      → Holds s
      → Holds (record s { link = l; ended = ended })
  Holds-Round d t s l ended live r h =
      let (good, n) =
        Good-Round d t s.link l (contents c describe id s.worker) r h.named (h.no_close (inl live))
          h.good in
      record {
        named = ap (λ x. x.session_id) r.named ∙ h.named;
        good = good;
        answers = nothing_published c l.received s.worker.answers (h.no_answer (inl live));
        held = λ command w. absurd (ground (arith, live, (h.held command w).over));
        no_close = λ _. n;
        no_answer = h.no_answer;
      }

  pub tick_step-Holds :
      (d : Direction) (t : Tick) (s : System c) → Holds s → Holds (tick_step c d t s)
  unfolding tick_step
  tick_step-Holds d t s h = elim (Bool-cases (s.closed || at s.ended d)) [
    | inl over ↦ rw (over, tick_step) h
    | inr live ↦
        rw (live, tick_step)
          (Holds-Round d t s (pump c d t s.link).1 _ (ground (arith, live))
            (pump-Round c d t s.link) h)
  ]

  -- The writer thread on the head of the queue.
  Holds-handled :
      (world : World c) (s : System c) (command : Command c) (rest : List (Command c))
      → s.link.manager.queue ≡ command ∷ rest
      → Holds s
      → Holds (record s {
        link = record s.link { manager = record s.link.manager { queue = rest } };
        worker = process c describe world command s.worker;
      })
  Holds-handled world s command rest e h =
      let seen = s.link.counters.observed_chunks in
      let good : Good c id seen s.link.received (command ∷ rest) (contents c describe id s.worker) =
        rw e at h.good in
      let next =
        handles c describe id seen s.link.received rest world command s.worker good h.answers in
      record {
        named = h.named;
        good = next.good;
        answers = next.answers;
        held = h.held;
        no_close = λ live. NoClose-tail c command rest (rw e at (h.no_close live));
        no_answer = λ live.
            no_answer-process c describe id seen s.link.received rest world command s.worker
              (rw e at (h.no_close live)) (h.no_answer live);
      }

  work_step-empty :
      (world : World c) (s : System c)
      → s.link.manager.queue ≡ []
      → work_step c describe world s ≡ s
  unfolding work_step
  work_step-empty world s e = ground arith

  work_step-finished :
      (world : World c) (s : System c) → s.worker.finished ≡ true → work_step c describe world s ≡ s
  unfolding work_step
  work_step-finished world s e = ground arith

  work_step-next :
      (world : World c) (s : System c) (command : Command c) (rest : List (Command c))
      → s.worker.finished ≡ false
      → s.link.manager.queue ≡ command ∷ rest
      → work_step c describe world s ≡ record s {
        link = record s.link { manager = record s.link.manager { queue = rest } };
        worker = process c describe world command s.worker;
      }
  unfolding work_step
  work_step-next world s command rest live e = ground arith

  pub work_step-Holds :
      (world : World c) (s : System c) → Holds s → Holds (work_step c describe world s)
  work_step-Holds world s h = on_queue s.link.manager.queue refl
    where
      on_queue :
          (q : List (Command c)) → s.link.manager.queue ≡ q → Holds (work_step c describe world s)
      on_queue [] e = rw (work_step-empty world s e) h
      on_queue (command ∷ rest) e = elim (Bool-cases s.worker.finished) [
        | inl over ↦ rw (work_step-finished world s over) h
        | inr live ↦
            rw (work_step-next world s command rest live e) (Holds-handled world s command rest e h)
      ]

  deliver_facts :
      (s : System c)
      → ((deliver_step c s).link.session.descriptor ≡ s.link.session.descriptor)
        × ((deliver_step c s).link.counters ≡ s.link.counters)
        × ((deliver_step c s).link.received ≡ s.link.received)
        × ((deliver_step c s).link.manager ≡ s.link.manager)
        × ((deliver_step c s).worker.writers ≡ s.worker.writers)
        × ((deliver_step c s).worker.answers ≡ s.worker.answers)
        × ((deliver_step c s).closed ≡ s.closed)
        × ((deliver_step c s).waiting ≡ s.waiting)
  unfolding deliver_step mark_failure
  deliver_facts s = (
    ground arith,
    ground arith,
    ground arith,
    ground arith,
    ground arith,
    ground arith,
    ground arith,
    ground arith,
  )

  pub deliver_step-Holds : (s : System c) → Holds s → Holds (deliver_step c s)
  deliver_step-Holds s h =
      let (session, counters, received, manager, writers, answers, closed, waiting) =
        deliver_facts s in
      record {
        named = ap (λ x. x.session_id) session ∙ h.named;
        good = rw (counters, received, manager, writers) h.good;
        answers = rw (received, answers) h.answers;
        held = rw (counters, received, closed, waiting) h.held;
        no_close = rw (closed, waiting, manager) h.no_close;
        no_answer = rw (closed, waiting, answers) h.no_answer;
      }
