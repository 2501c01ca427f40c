-- ===== src/Spool/Recovery.antt =====
-- `recover_incomplete_spool` of proxy/spool.py on the directory of one job: what an unclean exit has
-- left is published once, as a partial capture.
pub mod Crash
use retail_print_guard.Base.{
  ℕ, String, Bool, true, false, ◌&&◌, Option, none, some, List, [], ◌∷◌, ◌++◌, length, is_empty,
  if◌then◌else◌,
}
use retail_print_guard.Spool.Types.{
  Direction, PerDirection, Bytes, SessionDescriptor, FileFacts, Manifest, Codec, unreadable,
  unnumbered, described,
}
use retail_print_guard.Spool.Writer.{schema_version}
use retail_print_guard.Spool.Timeline.{Inspection, start, inspect, breaks}
use retail_print_guard.Spool.Publish.{
  Directory, same_counts, bytes_of, file_facts, all_facts, publish_ready,
}

abbrev pub unclean : String
unclean = "unclean shutdown; completeness beyond captured prefixes is unknown"

abbrev pub uncovered : String
uncovered = "timeline does not cover directional RAW; trailing bytes have no chunk index"

abbrev file_or {ℓ} : {A : Type ℓ} → A → Option A → A
file_or a none = a
file_or a (some b) = b

module _ (c : Codec) where
  open c use {Text, dump_manifest, load_manifest, load_session, digest, encode, empty_text}

  -- `_read_recovery_session`: what session.json says, or a guess from the name. `now` is the time; `none`
  -- is the KeyError of `session["job_id"]`.
  unfoldable pub read_recovery_session : String → Directory c → Option SessionDescriptor
  read_recovery_session now dir =
      let guess : SessionDescriptor = record {
        session_id = dir.job_part;
        job_id = dir.job_part;
        device_id = dir.device_id;
        device_name = dir.device_id;
        device_type = "unknown";
        parser = "unknown";
        client_endpoint = ("unknown", 0);
        listener_endpoint = ("unknown", 0);
        target_endpoint = ("unknown", 0);
        connected_at_utc = now;
        connected_monotonic_ns = 0;
      } in
      elim dir.session_file [
        | none ↦ some guess
        | some text ↦ elim (load_session text) [
          | unreadable ↦ some guess
          | unnumbered ↦ none
          | described d ↦ some d
        ]
      ]

  -- `_finish_recovered_directory`; `none` where the destination exists already.
  unfoldable pub finish_directory : Bool → Directory c → Option (Directory c)
  finish_directory taken dir =
      if dir.is_partial
      then (if taken then none else some (record dir { is_partial = false }))
      else some dir

  -- The files that are not there are created empty.
  abbrev pub with_files : Directory c → Directory c
  with_files dir = record dir {
    session_file = some (file_or empty_text dir.session_file);
    client_raw = some (file_or [] dir.client_raw);
    device_raw = some (file_or [] dir.device_raw);
    timeline = some (file_or [] dir.timeline);
  }

  abbrev untrusted_facts : List (String × Text) → List FileFacts
  untrusted_facts [] = []
  untrusted_facts ((name, text) ∷ texts) = file_facts c name (encode text) ∷ untrusted_facts texts

  -- A manifest that cannot be read is kept under another name; `spare` is a name that is free.
  abbrev pub keep_untrusted : String → Text → Directory c → Directory c
  keep_untrusted spare text dir =
      let name = if is_empty dir.untrusted then "manifest.untrusted.json" else spare in
      record dir { manifest = none; untrusted = dir.untrusted ++ (name, text) ∷ [] }

  abbrev pub raw_sizes : Directory c → PerDirection ℕ
  raw_sizes dir = record {
    client = length (file_or [] dir.client_raw);
    device = length (file_or [] dir.device_raw);
  }

  abbrev pub timeline_of : Directory c → Inspection
  timeline_of dir = inspect c (file_or [] dir.timeline) start

  unfoldable pub covers_raw : Directory c → Bool
  covers_raw dir =
      (timeline_of dir).integrity_ok && same_counts (timeline_of dir).covered_bytes (raw_sizes dir)

  -- The manifest of a capture that was cut off.
  unfoldable pub recovery_manifest : SessionDescriptor → String → Directory c → Manifest
  unfolding covers_raw
  recovery_manifest session now dir =
      let seen = timeline_of dir in
      record {
        schema_version = schema_version;
        capture_format = "retailprintguard-bidirectional-v1";
        session = session;
        closed_at_utc = now;
        closed_monotonic_ns = 0;
        close_reason = "recovered_after_unclean_shutdown";
        status = "PARTIAL";
        transport_complete = false;
        storage_complete = covers_raw dir;
        observed_bytes = raw_sizes dir;
        observed_chunks = seen.data_chunks;
        captured_bytes = raw_sizes dir;
        captured_chunks = seen.data_chunks;
        timeline_covered_bytes = some seen.covered_bytes;
        eof_events = seen.eof_events;
        timeline_events = seen.events;
        last_event_sha256 = seen.previous_hash;
        dropped_chunks = 0;
        dropped_bytes = 0;
        errors = if covers_raw dir then unclean ∷ [] else unclean ∷ uncovered ∷ [];
        files =
            all_facts c (file_or empty_text dir.session_file) (file_or [] dir.client_raw)
              (file_or [] dir.device_raw) (file_or [] dir.timeline)
            ++ untrusted_facts dir.untrusted;
      }

  -- The last steps: the final name, and the marker.
  unfoldable pub publish_recovered : Bool → String → Text → Directory c → Option (Directory c)
  unfolding finish_directory publish_ready
  publish_recovered taken job_id text dir = elim (finish_directory taken dir) [
    | none ↦ none
    | some final ↦ some (publish_ready c job_id (digest text) final)
  ]

  -- A directory that has no manifest that can be read; `none` also where an error ends the recovery.
  unfoldable pub rebuild : Bool → String → Directory c → Option (Directory c)
  unfolding recovery_manifest publish_recovered read_recovery_session breaks
  rebuild taken now dir = elim (read_recovery_session now dir) [
    | none ↦ none
    | some session ↦
        let text = dump_manifest (recovery_manifest session now dir) in
        if breaks c (file_or [] dir.timeline) start
        then none
        else publish_recovered taken session.job_id text
            (record (with_files dir) { manifest = some text })
  ]

  -- One round of the loop over the directories of a device; `none` where it raises: because the
  -- final path is there already (`taken`), or by what `rebuild` reads.
  unfoldable pub recover : Bool → String → String → Directory c → Option (Directory c)
  unfolding publish_recovered rebuild
  recover taken now spare dir = elim dir.ready [
    | some _ ↦ some dir
    | none ↦ elim dir.manifest [
      | none ↦ rebuild taken now dir
      | some text ↦ elim (load_manifest text) [
        | some job_id ↦ publish_recovered taken job_id text dir
        | none ↦ rebuild taken now (keep_untrusted spare text dir)
      ]
    ]
  ]
