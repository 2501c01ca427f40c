-- ===== src/Tests/Capture.antt =====
-- The spool and a session at work.
use retail_print_guard.Base.{
  String, true, false, Option, none, some, List, [], ◌∷◌, ◌≡◌, refl, All, map, arith, str_eq,
}
use retail_print_guard.Base.Int.{pos}
use retail_print_guard.Base.Dict.{lookup, insert, erase}
use retail_print_guard.Spool.Types.{
  client_to_device, unreadable, device_to_client, StorageFailurePolicy, Codec, CaptureEvent,
  everywhere, Bytes,
}
use retail_print_guard.Spool.Writer.{Writer, SpoolError, fresh, append, mark_error}
use retail_print_guard.Spool.Timeline.{inspect, inspect_line, breaks}
use retail_print_guard.Spool.Timeline.Accepts.{IsMirrored, append-IsMirrored}
use retail_print_guard.Spool.Timeline.Tamper.{content, last_hash_fixes_timeline}
use retail_print_guard.Spool.Publish.{Stage, Closing, finalize}
use retail_print_guard.Spool.Recovery.Crash.{Recovers, crash_recovery}
use retail_print_guard.Spool.Worker.{Answer, process, write_event}
use retail_print_guard.Relay.System.{
  Action, System, Ending, initial, run, step, tick_step, work_step, close_step, hand_over_step,
  deliver_step,
}
use retail_print_guard.Relay.Pump.{pump}
use retail_print_guard.Spool.Session.{close_of, put_nowait, new_session}
use retail_print_guard.Relay.System.Safety.Answers.{GoodAnswer}
use retail_print_guard.Relay.System.Complete.{complete_capture_is_exact}
use retail_print_guard.Tests.Samples.{
  papers, papers-RoundTrips, papers-ReadsBack, till, good_disk, good_world, round, manifest,
}

-- The first event of the till: three bytes for the device.
abbrev hello : CaptureEvent
hello = record {
  sequence = 0;
  observed_sequence = 0;
  direction_sequence = 0;
  direction = client_to_device;
  kind = "data";
  captured_at_utc = "t";
  captured_monotonic_ns = 8;
  offset = 0;
  payload = 27 ∷ 64 ∷ 10 ∷ [];
  forwarded = true;
  forwarded_at_utc = "u";
  forward_error = none;
}

abbrev empty_writer : Writer papers
empty_writer = fresh papers till true

append-IsMirrored_example :
    IsMirrored papers (append papers good_disk hello empty_writer).1 (0 ∷ [])
unfolding append
append-IsMirrored_example =
    append-IsMirrored papers papers-RoundTrips good_disk hello empty_writer
      (append papers good_disk hello empty_writer).1 []
      (record { whole = refl; found = unfold inspect in refl })
      (record { carries = λ _. refl; fresh = refl }) refl

-- A codec whose texts are their own hashes, for two chained lines.
abbrev chained : String → Option String
chained t = elim (str_eq t "a") [ true ↦ none | false ↦ some "a" ]

abbrev links : Codec
links = record {
  Text = String;
  dump = λ b. "body";
  dump_entry = λ b h. h;
  dump_manifest = λ m. "manifest";
  dump_session = λ d. "session";
  load = λ t. some (record {
    event_hash = t;
    direction = "client_to_device";
    kind = "eof";
    sequence = elim (str_eq t "a") [ true ↦ pos 0 | false ↦ pos 1 ];
    observed_sequence = elim (str_eq t "a") [ true ↦ pos 0 | false ↦ pos 1 ];
    direction_sequence = elim (str_eq t "a") [ true ↦ pos 0 | false ↦ pos 1 ];
    offset = pos 0;
    length = pos 0;
    previous = chained t;
    without_hash = t;
  });
  escapes = λ t. false;
  load_manifest = λ t. none;
  load_session = λ t. unreadable;
  digest = λ t. t;
  digest_bytes = λ bytes. "bytes";
  encode = λ t. [];
  glue = λ t u. t;
  empty_text = "";
}

last_hash_fixes_timeline_example :
    map (content links) ("a" ∷ "b" ∷ []) ≡ map (content links) ("a" ∷ "b" ∷ [])
unfolding inspect inspect_line
last_hash_fixes_timeline_example =
    last_hash_fixes_timeline links ("a" ∷ "b" ∷ []) ("a" ∷ "b" ∷ [])
      (record { previous_of_text = λ l l' e e' p p' h. ground (arith, p, p', h) })
      (record { digest_injective = λ t t' h. h }) refl refl refl refl

abbrev closing : Closing papers
closing = record {
  summary = record {
    closed_at_utc = "z";
    closed_monotonic_ns = 9;
    close_reason = "clean_bidirectional_eof";
    transport_complete = true;
    observed_bytes = everywhere 0;
    observed_chunks = everywhere 0;
    transport_errors = [];
  };
  capture_errors = [];
  dropped_chunks = 0;
  dropped_bytes = 0;
}

crash_recovery_example :
    Recovers papers papers-ReadsBack closing empty_writer "now" "spare"
      (finalize papers (some Stage.renaming) true closing empty_writer).1
unfolding breaks
crash_recovery_example =
    crash_recovery papers papers-ReadsBack closing empty_writer "now" "spare" (some Stage.renaming)
      true refl refl

abbrev ending : Ending
ending = record {
  reason = "clean_bidirectional_eof";
  complete = true;
  errors = [];
  closed_at_utc = "z";
  closed_monotonic_ns = 9;
}

abbrev describe : SpoolError → String
describe error = "error"

-- A request, an answer and both ends of stream, with the writer thread in between.
abbrev dialogue : List (Action papers)
dialogue =
    Action.tick client_to_device (round (27 ∷ 64 ∷ []))
    ∷ Action.work good_world
    ∷ Action.tick device_to_client (round (6 ∷ []))
    ∷ Action.work good_world
    ∷ Action.tick client_to_device (round (10 ∷ []))
    ∷ Action.tick client_to_device (round [])
    ∷ Action.tick device_to_client (round [])
    ∷ Action.close ending
    ∷ Action.hand_over
    ∷ Action.work good_world
    ∷ Action.work good_world
    ∷ Action.work good_world
    ∷ Action.work good_world
    ∷ Action.work good_world
    ∷ []

abbrev after_dialogue : System papers
after_dialogue = run papers describe dialogue (initial papers till StorageFailurePolicy.abort 16)

complete_capture_is_exact_example :
    All (GoodAnswer papers after_dialogue.link.received) after_dialogue.worker.answers
complete_capture_is_exact_example =
    complete_capture_is_exact papers describe till StorageFailurePolicy.abort 16 dialogue

-- The status in the manifest of the first answer, with the two raw files.
abbrev first_published : List (Answer papers) → Option (String × Option Bytes × Option Bytes)
first_published (Answer.published id hash dir ∷ answers) = elim dir.manifest [
  | some (manifest m) ↦ some (m.status, dir.client_raw, dir.device_raw)
  | _ ↦ none
]
first_published _ = none

-- The dialogue above is published, and is marked COMPLETE.
dialogue_is_complete :
    first_published after_dialogue.worker.answers
    ≡ some ("COMPLETE", some (27 ∷ 64 ∷ 10 ∷ []), some (6 ∷ []))
unfolding run step tick_step work_step close_step hand_over_step deliver_step process write_event
    append mark_error finalize close_of put_nowait new_session lookup insert erase pump
dialogue_is_complete = refl
