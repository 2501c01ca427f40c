-- ===== src/Spool/Session.antt =====
-- `CaptureSession` of proxy/spool.py and the bounded queue of `CaptureManager`: how the relay submits
-- an event without waiting.
use retail_print_guard.Base.{
  ℕ, ◌+◌, String, Bool, true, false, not, ◌||◌, Option, none, some, List, [], ◌∷◌, ◌++◌,
  if◌then◌else◌, str_eq, length, is_empty, leb, shorten,
}
use retail_print_guard.Spool.Types.{
  Direction, Bytes, SessionDescriptor, StorageFailurePolicy, CaptureEvent, SessionCloseSummary,
  Codec,
}
use retail_print_guard.Spool.Publish.{Closing}

-- `manager` says that the session has one, and `failure_event` that the event is set.
pub record Session : Type 0 where
  pub descriptor : SessionDescriptor
  pub policy : StorageFailurePolicy
  pub manager : Bool
  pub accepting : Bool
  pub sequence : ℕ
  pub errors : List String
  pub dropped_chunks : ℕ
  pub dropped_bytes : ℕ
  pub failure_event : Bool

abbrev contains_text : String → List String → Bool
contains_text s [] = false
contains_text s (t ∷ ts) = str_eq s t || contains_text s ts

-- `_mark_failure`
unfoldable pub mark_failure : String → Session → Session
unfolding shorten
mark_failure error s =
    let normalized = shorten 1000 error in
    record s {
      errors = if contains_text normalized s.errors then s.errors else s.errors ++ normalized ∷ [];
      accepting = false;
      failure_event = true;
    }

-- `CaptureSession(manager, …, initial_error=…)`
unfoldable pub new_session :
    Bool → SessionDescriptor → StorageFailurePolicy → Option String → Session
unfolding mark_failure
new_session manager d policy initial_error =
    let s : Session = record {
      descriptor = d;
      policy = policy;
      manager = manager;
      accepting = elim initial_error [ none ↦ manager | some _ ↦ false ];
      sequence = 0;
      errors = [];
      dropped_chunks = 0;
      dropped_bytes = 0;
      failure_event = false;
    } in
    elim initial_error [ none ↦ s | some error ↦ mark_failure error s ]

unfoldable pub failed : Session → Bool
failed s = not (is_empty s.errors)

abbrev last_or : String → List String → String
last_or d [] = d
last_or d (x ∷ xs) = last_or x xs

-- `failure_message`
unfoldable pub failure_message : Session → String
failure_message s = last_or "capture failed" s.errors

-- The arguments of `record`.
pub record Observation : Type 0 where
  pub direction : Direction
  pub direction_sequence : ℕ
  pub kind : String
  pub captured_at_utc : String
  pub captured_monotonic_ns : ℕ
  pub offset : ℕ
  pub payload : Bytes
  pub forwarded : Bool
  pub forwarded_at_utc : String
  pub forward_error : Option String
  pub observed_sequence : Option ℕ

module _ (c : Codec) where
  pub data Command : Type 0 where
    open_command : SessionDescriptor → Bool → Command
    event_command : String → CaptureEvent → Command
    close_command : String → Closing c → Command
    stop_command : Command

  -- What `CaptureManager` keeps for its callers: whether it runs, and the bounded queue.
  pub record Manager : Type 0 where
    pub running : Bool
    pub max_events : ℕ
    pub queue : List Command

  -- `Queue.put_nowait`: `none` is `queue.Full`.
  unfoldable pub put_nowait : Command → Manager → Option Manager
  put_nowait command m =
      if leb m.max_events (length m.queue)
      then none
      else some (record m { queue = m.queue ++ command ∷ [] })

  -- `_put_event`
  unfoldable pub put_event : Command → Manager → Option Manager
  unfolding put_nowait
  put_event command m = if not m.running then none else put_nowait command m

  abbrev drop_payload : Bytes → Session → Session
  drop_payload payload s = if is_empty payload then s else record s {
    dropped_chunks = s.dropped_chunks + 1;
    dropped_bytes = s.dropped_bytes + length payload;
  }

  abbrev pub event_of : Observation → Session → CaptureEvent
  event_of o s = record {
    sequence = s.sequence;
    observed_sequence = elim o.observed_sequence [ none ↦ s.sequence | some n ↦ n ];
    direction_sequence = o.direction_sequence;
    direction = o.direction;
    kind = o.kind;
    captured_at_utc = o.captured_at_utc;
    captured_monotonic_ns = o.captured_monotonic_ns;
    offset = o.offset;
    payload = o.payload;
    forwarded = o.forwarded;
    forwarded_at_utc = o.forwarded_at_utc;
    forward_error = o.forward_error;
  }

  -- `CaptureSession.record`: whether the event was accepted, and both states afterwards.
  unfoldable pub record_event : Observation → Session → Manager → Bool × Session × Manager
  unfolding put_event mark_failure
  record_event o s m =
      if not s.accepting || not s.manager
      then (false, drop_payload o.payload s, m)
      else elim (put_event (event_command s.descriptor.session_id (event_of o s)) m) [
        | none ↦ (
          false,
          mark_failure "bounded capture queue is full"
              (record (drop_payload o.payload s) { accepting = false }),
          m,
        )
        | some m' ↦ (true, record s { sequence = s.sequence + 1 }, m')
      ]

  -- What `CaptureSession.finalize` and `_close_session` hand to the writer.
  unfoldable pub close_of : SessionCloseSummary → Session → Command
  close_of summary s = close_command s.descriptor.session_id (record {
    summary = summary;
    capture_errors = s.errors;
    dropped_chunks = s.dropped_chunks;
    dropped_bytes = s.dropped_bytes;
  })
