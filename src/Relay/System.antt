-- ===== src/Relay/System.antt =====
-- One session of the data plane as the code composes it: the two pumps of proxy/relay.py, the close
-- in `_relay_locked` and `_finalize_capture`, and the writer thread and the failure callback of
-- proxy/spool.py, in any interleaving of their steps.
pub mod Ideal
pub mod Safety
pub mod Complete
use retail_print_guard.Base.{
  ℕ, String, Bool, true, false, ◌||◌, Option, none, some, List, [], ◌∷◌, str_eq, if◌then◌else◌,
}
use retail_print_guard.Spool.Types.{
  Direction, PerDirection, at, put, everywhere, SessionDescriptor, StorageFailurePolicy,
  SessionCloseSummary, Codec,
}
use retail_print_guard.Spool.Writer.{SpoolError}
use retail_print_guard.Spool.Session.{
  Command, open_command, new_session, mark_failure, put_nowait, close_of,
}
use retail_print_guard.Spool.Worker.{World, Worker, process}
use retail_print_guard.Relay.Counters.{Counters, no_traffic}
use retail_print_guard.Relay.Pump.{Tick, Outcome, Link, pump}

-- What `_relay_locked` knows when the session has ended, beside the counters.
pub record Ending : Type 0 where
  pub reason : String
  pub complete : Bool
  pub errors : List String
  pub closed_at_utc : String
  pub closed_monotonic_ns : ℕ

abbrev is_again : Outcome → Bool
is_again Outcome.again = true
is_again _ = false

abbrev pub summary_of : Ending → Counters → SessionCloseSummary
summary_of e n = record {
  closed_at_utc = e.closed_at_utc;
  closed_monotonic_ns = e.closed_monotonic_ns;
  close_reason = e.reason;
  transport_complete = e.complete;
  observed_bytes = n.observed_bytes;
  observed_chunks = n.observed_chunks;
  transport_errors = e.errors;
}

module _ (c : Codec) where
  -- `ended` says which pumps have left their loops, `closed` that the session was handed over to
  -- be finalized; `waiting` is its close while it waits for room in the queue.
  pub record System : Type 0 where
    pub link : Link c
    pub worker : Worker c
    pub ended : PerDirection Bool
    pub closed : Bool
    pub waiting : Option (Command c)

  -- After `open_session_nowait`, which has queued the open command.
  abbrev pub initial : SessionDescriptor → StorageFailurePolicy → ℕ → System
  initial d policy max_events = record {
    link = record {
      counters = no_traffic;
      session = new_session true d policy none;
      manager = record {
        running = true;
        max_events = max_events;
        queue = open_command d false ∷ [];
      };
      received = everywhere [];
      delivered = everywhere [];
    };
    worker = record { writers = []; failures = []; answers = []; finished = false };
    ended = everywhere false;
    closed = false;
    waiting = none;
  }

  -- Who takes the next step: a pump, the writer thread, the event loop with a failure callback,
  -- `_relay_locked` at its end, or `_put_control` with the close, which finds room in the queue or
  -- has waited for ten seconds.
  pub data Action : Type 0 where
    tick : Direction → Tick → Action
    work : World c → Action
    deliver : Action
    close : Ending → Action
    hand_over : Action
    give_up : Action

  unfoldable pub tick_step : Direction → Tick → System → System
  tick_step d t s =
      let (outcome, link) = pump c d t s.link in
      if s.closed || at s.ended d then s else record s {
        link = link;
        ended = if is_again outcome then s.ended else put s.ended d true;
      }

  -- `_notify_failure`
  unfoldable pub deliver_step : System → System
  deliver_step s = elim s.worker.failures [
    | [] ↦ s
    | (id, message) ∷ rest ↦
        let told = record s { worker = record s.worker { failures = rest } } in
        if str_eq id s.link.session.descriptor.session_id
        then record told { link = record s.link { session = mark_failure message s.link.session } }
        else told
  ]

  -- `finalize` of the session reads the errors and the dropped chunks before the close may have to wait.
  unfoldable pub close_step : Ending → System → System
  close_step e s = if s.closed then s else record s {
    closed = true;
    waiting = some (close_of c (summary_of e s.link.counters) s.link.session);
  }

  -- `_put_control`, in the thread that waits for room.
  unfoldable pub hand_over_step : System → System
  hand_over_step s = elim s.waiting [
    | none ↦ s
    | some command ↦ elim (put_nowait c command s.link.manager) [
      | none ↦ s
      | some manager ↦ record s { link = record s.link { manager = manager }; waiting = none }
    ]
  ]

  -- The queue has been full for ten seconds.
  unfoldable pub give_up_step : System → System
  give_up_step s = record s { waiting = none }

  module _ (describe : SpoolError → String) where
    -- The writer thread returns at the stop command, and waits at an empty queue.
    unfoldable pub work_step : World c → System → System
    work_step world s = elim s.link.manager.queue [
      | [] ↦ s
      | command ∷ rest ↦ if s.worker.finished then s else record s {
        link = record s.link { manager = record s.link.manager { queue = rest } };
        worker = process c describe world command s.worker;
      }
    ]

    unfoldable pub step : Action → System → System
    step (tick d t) s = tick_step d t s
    step (work world) s = work_step world s
    step deliver s = deliver_step s
    step (close e) s = close_step e s
    step hand_over s = hand_over_step s
    step give_up s = give_up_step s

    unfoldable pub run : List Action → System → System
    run [] s = s
    run (a ∷ actions) s = run actions (step a s)
