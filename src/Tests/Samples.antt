-- ===== src/Tests/Samples.antt =====
-- A codec that keeps what it is given, a session, and the answers of a disk and a network that work.
use retail_print_guard.Base.{String, Bool, true, false, Option, none, some, [], ◌∷◌, refl}
use retail_print_guard.Spool.Types.{
  SessionDescriptor, EventBody, LoadedEntry, LoadedSession, unreadable, described, Manifest, Bytes,
  Codec,
}
use retail_print_guard.Spool.Writer.{WriteOutcome, Disk}
use retail_print_guard.Spool.Timeline.Laws.{RoundTrips}
use retail_print_guard.Spool.Recovery.Crash.{ReadsBack}
use retail_print_guard.Spool.Worker.{World}
use retail_print_guard.Relay.Pump.{Tick}
use retail_print_guard.Base.Int.{pos}

-- A text that remembers what it was dumped from.
pub data Paper : Type 0 where
  body : EventBody → Paper
  entry : EventBody → String → Paper
  manifest : Manifest → Paper
  session : SessionDescriptor → Paper
  blank : Paper
  glued : Paper → Paper → Paper

abbrev load : Paper → Option (LoadedEntry Paper)
load (entry b h) = some (record {
  event_hash = h;
  direction = b.direction;
  kind = b.kind;
  sequence = pos b.sequence;
  observed_sequence = pos b.observed_sequence;
  direction_sequence = pos b.direction_sequence;
  offset = pos b.offset;
  length = pos b.length;
  previous = b.previous_event_sha256;
  without_hash = body b;
})
load _ = none

abbrev load_manifest : Paper → Option String
load_manifest (manifest m) = some m.session.job_id
load_manifest _ = none

abbrev load_session : Paper → LoadedSession
load_session (session d) = described d
load_session _ = unreadable

abbrev digest : Paper → String
digest (body b) = "body"
digest (manifest m) = "manifest"
digest _ = "other"

abbrev pub papers : Codec
papers = record {
  Text = Paper;
  dump = body;
  dump_entry = entry;
  dump_manifest = manifest;
  dump_session = session;
  load = load;
  escapes = λ text. false;
  load_manifest = load_manifest;
  load_session = load_session;
  digest = digest;
  digest_bytes = λ bytes. "bytes";
  encode = λ text. 10 ∷ [];
  glue = glued;
  empty_text = blank;
}

pub papers-RoundTrips : RoundTrips papers
papers-RoundTrips = record { load-dump_entry = λ b h. refl }

pub papers-ReadsBack : ReadsBack papers
papers-ReadsBack = record { load-dump_manifest = λ m. refl; load-dump_session = λ d. refl }

abbrev pub till : SessionDescriptor
till = record {
  session_id = "s-1";
  job_id = "j-1";
  device_id = "pos-1";
  device_name = "Till";
  device_type = "POS";
  parser = "escpos";
  client_endpoint = ("192.0.2.10", 40000);
  listener_endpoint = ("192.0.2.20", 9100);
  target_endpoint = ("192.0.2.30", 9100);
  connected_at_utc = "2026-01-01T00:00:00.000000Z";
  connected_monotonic_ns = 7;
}

abbrev pub good_disk : Disk papers
good_disk = record { raw_file = WriteOutcome.written; timeline_file = WriteOutcome.written }

abbrev pub good_world : World papers
good_world = record {
  fsync_each_event = true;
  open_error = none;
  disk = good_disk;
  fault = none;
  taken = Bool.false;
}

-- A round that reads some bytes and forwards them.
abbrev pub round : Bytes → Tick
round bytes = record {
  payload = bytes;
  forward_error = none;
  captured_at_utc = "t";
  captured_monotonic_ns = 8;
  forwarded_at_utc = "u";
}
