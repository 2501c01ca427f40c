-- ===== src/Spool/Writer.antt =====
-- `_SessionSpool` of proxy/spool.py: the files of one job, as its writer thread appends to them.
use retail_print_guard.Base.{
  ℕ, ◌+◌, String, Bool, true, false, not, ◌&&◌, ◌||◌, Option, none, some, List, [], ◌∷◌, ◌++◌, ◌==◌,
  if◌then◌else◌, str_eq, length, is_empty, take, shorten,
}
use retail_print_guard.Spool.Types.{
  Direction, value, PerDirection, at, put, everywhere, Bytes, SessionDescriptor, CaptureEvent,
  EventBody, Codec,
}

abbrev pub schema_version : ℕ
schema_version = 1

-- The causes of a `CaptureError` of `append`, and the `OSError` of a write or of its fsync.
pub data SpoolError : Type 0 where
  session_closed : SpoolError
  timeline_mismatch : (expected got : ℕ) → SpoolError
  direction_mismatch : (expected got : ℕ) → SpoolError
  offset_mismatch : (expected got : ℕ) → SpoolError
  unsupported_kind : String → SpoolError
  eof_with_payload : SpoolError
  raw_write_failed : SpoolError
  timeline_write_failed : SpoolError

-- How the file system answers one `_write_all` with its fsync: all is written, or an `OSError`
-- leaves a part of type `A` in the file, or all is written and the fsync raises.
pub data WriteOutcome (A : Type 0) : Type 0 where
  written : WriteOutcome A
  short : A → WriteOutcome A
  unsynced : WriteOutcome A

module _ (c : Codec) where
  open c use {Text, dump, dump_entry, dump_session, digest, digest_bytes, glue}

  -- The answers for the raw file (how many bytes of a short write arrive) and for the timeline (the
  -- piece of the line that arrives, if any).
  pub record Disk : Type 0 where
    pub raw_file : WriteOutcome ℕ
    pub timeline_file : WriteOutcome (Option Text)

  -- `session_file`, `raw` and `timeline` are the contents of the files: session.json, the bytes
  -- of each direction, and the lines, with the piece of a line that a short write has left there.
  pub record Writer : Type 0 where
    pub descriptor : SessionDescriptor
    pub session_file : Text
    pub fsync_each_event : Bool
    pub raw : PerDirection Bytes
    pub timeline : List Text
    pub torn : Option Text
    pub next_sequence : ℕ
    pub next_direction_sequence : PerDirection ℕ
    pub captured_bytes : PerDirection ℕ
    pub captured_chunks : PerDirection ℕ
    pub eof_events : PerDirection ℕ
    pub timeline_events : ℕ
    pub previous_event_sha256 : Option String
    pub errors : List String
    pub closed : Bool

  -- The state that `__init__` leaves.
  abbrev pub fresh : SessionDescriptor → Bool → Writer
  fresh d fsync = record {
    descriptor = d;
    session_file = dump_session d;
    fsync_each_event = fsync;
    raw = everywhere [];
    timeline = [];
    torn = none;
    next_sequence = 0;
    next_direction_sequence = everywhere 0;
    captured_bytes = everywhere 0;
    captured_chunks = everywhere 0;
    eof_events = everywhere 0;
    timeline_events = 0;
    previous_event_sha256 = none;
    errors = [];
    closed = false;
  }

  -- The checks at the head of `append`, in their order: the first that fails raises.
  unfoldable pub append_check : Writer → CaptureEvent → Option SpoolError
  append_check w e =
      if w.closed
      then some SpoolError.session_closed
      else if not (e.sequence == w.next_sequence)
      then some (SpoolError.timeline_mismatch w.next_sequence e.sequence)
      else if not (e.direction_sequence == at w.next_direction_sequence e.direction)
      then some (
          SpoolError.direction_mismatch (at w.next_direction_sequence e.direction)
            e.direction_sequence)
      else if not (e.offset == at w.captured_bytes e.direction)
      then some (SpoolError.offset_mismatch (at w.captured_bytes e.direction) e.offset)
      else if not (str_eq e.kind "data" || str_eq e.kind "eof")
      then some (SpoolError.unsupported_kind e.kind)
      else if str_eq e.kind "eof" && not (is_empty e.payload)
      then some SpoolError.eof_with_payload
      else none

  abbrev add_raw : Writer → Direction → Bytes → Writer
  add_raw w d bytes = record w { raw = put w.raw d (at w.raw d ++ bytes) }

  -- The write of the payload: the file afterwards, and whether an `OSError` was raised.
  unfoldable pub write_raw : WriteOutcome ℕ → CaptureEvent → Writer → Bool × Writer
  write_raw out e w = if is_empty e.payload then (true, w) else elim out [
    | WriteOutcome.written ↦ (true, add_raw w e.direction e.payload)
    | WriteOutcome.short n ↦ (false, add_raw w e.direction (take n e.payload))
    | WriteOutcome.unsynced ↦ (not w.fsync_each_event, add_raw w e.direction e.payload)
  ]

  -- A line goes behind what a short write has left.
  abbrev add_line : Writer → Text → Writer
  add_line w line = elim w.torn [
    | none ↦ record w { timeline = w.timeline ++ line ∷ [] }
    | some piece ↦ record w { timeline = w.timeline ++ glue piece line ∷ []; torn = none }
  ]

  abbrev add_piece : Writer → Option Text → Writer
  add_piece w none = w
  add_piece w (some piece) = elim w.torn [
    | none ↦ record w { torn = some piece }
    | some before ↦ record w { torn = some (glue before piece) }
  ]

  unfoldable pub write_line : WriteOutcome (Option Text) → Text → Writer → Bool × Writer
  write_line WriteOutcome.written line w = (true, add_line w line)
  write_line (WriteOutcome.short piece) line w = (false, add_piece w piece)
  write_line WriteOutcome.unsynced line w = (not w.fsync_each_event, add_line w line)

  abbrev pub event_body : Writer → CaptureEvent → EventBody
  event_body w e = record {
    schema_version = schema_version;
    session_id = w.descriptor.session_id;
    job_id = w.descriptor.job_id;
    device_id = w.descriptor.device_id;
    sequence = e.sequence;
    observed_sequence = e.observed_sequence;
    direction_sequence = e.direction_sequence;
    direction = value e.direction;
    kind = e.kind;
    captured_at_utc = e.captured_at_utc;
    captured_monotonic_ns = e.captured_monotonic_ns;
    offset = e.offset;
    length = length e.payload;
    payload_sha256 = digest_bytes e.payload;
    forwarded = e.forwarded;
    forwarded_at_utc = e.forwarded_at_utc;
    forward_error = e.forward_error;
    previous_event_sha256 = w.previous_event_sha256;
  }

  -- The counters after both writes.
  unfoldable pub advance : CaptureEvent → String → Writer → Writer
  advance e hash w =
      let d = e.direction in
      let is_data = str_eq e.kind "data" in
      record w {
        previous_event_sha256 = some hash;
        next_sequence = w.next_sequence + 1;
        next_direction_sequence =
            put w.next_direction_sequence d (at w.next_direction_sequence d + 1);
        timeline_events = w.timeline_events + 1;
        captured_bytes =
            if is_data
            then put w.captured_bytes d (at w.captured_bytes d + length e.payload)
            else w.captured_bytes;
        captured_chunks =
            if is_data
            then put w.captured_chunks d (at w.captured_chunks d + 1)
            else w.captured_chunks;
        eof_events = if is_data then w.eof_events else put w.eof_events d (at w.eof_events d + 1);
      }

  -- `append`: what it raises, if anything, and the state with the files as they are then.
  unfoldable pub append : Disk → CaptureEvent → Writer → Option SpoolError × Writer
  unfolding append_check write_raw write_line advance
  append disk e w = elim (append_check w e) [
    | some error ↦ (some error, w)
    | none ↦
        let (raw_ok, w₁) = write_raw disk.raw_file e w in
        let body = event_body w e in
        let hash = digest (dump body) in
        let (line_ok, w₂) = write_line disk.timeline_file (dump_entry body hash) w₁ in
        if not raw_ok
        then (some SpoolError.raw_write_failed, w₁)
        else if not line_ok
        then (some SpoolError.timeline_write_failed, w₂)
        else (none, advance e hash w₂)
  ]

  unfoldable pub mark_error : String → Writer → Writer
  unfolding shorten
  mark_error error w = record w { errors = w.errors ++ shorten 1000 error ∷ [] }
