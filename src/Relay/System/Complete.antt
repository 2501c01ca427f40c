-- ===== src/Relay/System/Complete.antt =====
-- What a published capture holds, for every interleaving of the relay and the writer thread.
use retail_print_guard.Base.{refl, String, List, All, ℕ, arith}
use retail_print_guard.Spool.Types.{SessionDescriptor, StorageFailurePolicy, Codec}
use retail_print_guard.Spool.Writer.{SpoolError}
use retail_print_guard.Spool.Session.{new_session}
use retail_print_guard.Relay.System.{Action, initial, run}
use retail_print_guard.Relay.System.Safety.Answers.{GoodAnswer}
use retail_print_guard.Relay.System.Safety.Invariant.{Holds}
use retail_print_guard.Relay.System.Safety.Closing.{run-Holds}
use retail_print_guard.Base.Dict.{lookup}

module _ (c : Codec) (describe : SpoolError → String) where
  initial-Holds :
      (d : SessionDescriptor) (policy : StorageFailurePolicy) (max_events : ℕ)
      → Holds c describe d.session_id (initial c d policy max_events)
  unfolding new_session lookup
  initial-Holds d policy max_events = record {
    named = refl;
    good = (
      refl,
      refl,
      record {
        client_le = omega arith;
        device_le = omega arith;
        client_bytes = λ _. refl;
        device_bytes = λ _. refl;
      },
    );
    answers = tt;
    held = λ command w. absurd (ground (arith, w));
    no_close = λ _. tt;
    no_answer = λ _. tt;
  }

  -- Take a session from its start through any interleaving of the rounds of its two pumps, the
  -- writer thread, the failure callbacks and the close, with any answers of the network and of the
  -- file system. Whenever the writer thread has published a directory, the answered hash is that of
  -- the manifest which lies in it, and if the manifest says COMPLETE, client.raw and device.raw are
  -- exactly the bytes that were received in their directions, in order and without a gap.
  pub complete_capture_is_exact :
      (d : SessionDescriptor) (policy : StorageFailurePolicy) (max_events : ℕ)
      (actions : List (Action c))
      → let s = run c describe actions (initial c d policy max_events) in
        All (GoodAnswer c s.link.received) s.worker.answers
  complete_capture_is_exact d policy max_events actions =
      (run-Holds c describe d.session_id actions (initial c d policy max_events)
        (initial-Holds d policy max_events)).answers
