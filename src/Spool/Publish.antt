-- ===== src/Spool/Publish.antt =====
-- `finalize` and `_publish_ready` of proxy/spool.py: how the directory of a job gets its manifest,
-- its final name and its `.ready` marker, in this order, with a fault before any of the steps.
use retail_print_guard.Base.{
  ℕ, String, Bool, true, false, ◌&&◌, ◌||◌, Option, none, some, List, [], ◌∷◌, ◌++◌, ◌==◌,
  if◌then◌else◌, length, is_empty,
}
use retail_print_guard.Spool.Types.{
  PerDirection, Bytes, SessionCloseSummary, FileFacts, Manifest, Ready, Codec,
}
use retail_print_guard.Spool.Writer.{Writer, schema_version}

-- Where an `OSError` ends `finalize`; at `syncing_ready` the marker has its name already, and its
-- directory is not flushed.
pub data Stage : Type 0 where
  closing reading_files writing_manifest checking_destination renaming writing_ready syncing_ready :
      Stage

abbrev pub stage_eq : Stage → Stage → Bool
stage_eq Stage.closing Stage.closing = true
stage_eq Stage.reading_files Stage.reading_files = true
stage_eq Stage.writing_manifest Stage.writing_manifest = true
stage_eq Stage.checking_destination Stage.checking_destination = true
stage_eq Stage.renaming Stage.renaming = true
stage_eq Stage.writing_ready Stage.writing_ready = true
stage_eq Stage.syncing_ready Stage.syncing_ready = true
stage_eq _ _ = false

abbrev pub hits : Option Stage → Stage → Bool
hits none s = false
hits (some t) s = stage_eq t s

-- `all(… for direction in Direction)`
abbrev pub same_counts : PerDirection ℕ → PerDirection ℕ → Bool
same_counts a b = a.client == b.client && a.device == b.device

module _ (c : Codec) where
  open c use {Text, dump_manifest, digest, digest_bytes, encode}

  -- The directory of a job. A file is `none` until it is there. Of the name `job_part` is what
  -- follows its last `_`, without the ending `.partial`, which `is_partial` stands for.
  pub record Directory : Type 0 where
    pub job_part : String
    pub device_id : String
    pub is_partial : Bool
    pub session_file : Option Text
    pub client_raw : Option Bytes
    pub device_raw : Option Bytes
    pub timeline : Option (List Text)
    pub manifest : Option Text
    pub untrusted : List (String × Text)
    pub ready : Option Ready

  -- The lines of the timeline, as the reader of the file finds them.
  abbrev pub file_lines : Writer c → List Text
  file_lines w = elim w.torn [ none ↦ w.timeline | some piece ↦ w.timeline ++ piece ∷ [] ]

  -- The directory that a writer has filled.
  abbrev pub directory_of : Writer c → Directory
  directory_of w = record {
    job_part = w.descriptor.job_id;
    device_id = w.descriptor.device_id;
    is_partial = true;
    session_file = some w.session_file;
    client_raw = some w.raw.client;
    device_raw = some w.raw.device;
    timeline = some (file_lines w);
    manifest = none;
    untrusted = [];
    ready = none;
  }

  abbrev pub bytes_of : List Text → Bytes
  bytes_of [] = []
  bytes_of (line ∷ lines) = encode line ++ bytes_of lines

  abbrev pub file_facts : String → Bytes → FileFacts
  file_facts name bytes = record { name = name; size = length bytes; sha256 = digest_bytes bytes }

  abbrev pub all_facts : Text → Bytes → Bytes → List Text → List FileFacts
  all_facts session client device lines =
      file_facts "client.raw" client
      ∷ file_facts "device.raw" device
      ∷ file_facts "timeline.jsonl" (bytes_of lines)
      ∷ file_facts "session.json" (encode session)
      ∷ []

  -- What `finalize` is given beside the summary.
  pub record Closing : Type 0 where
    pub summary : SessionCloseSummary
    pub capture_errors : List String
    pub dropped_chunks : ℕ
    pub dropped_bytes : ℕ

  abbrev pub byte_complete : Writer c → Closing → Bool
  byte_complete w k = same_counts k.summary.observed_bytes w.captured_bytes

  abbrev pub chunk_complete : Writer c → Closing → Bool
  chunk_complete w k = same_counts k.summary.observed_chunks w.captured_chunks

  abbrev pub all_errors : Writer c → Closing → List String
  all_errors w k = w.errors ++ (k.capture_errors ++ k.summary.transport_errors)

  unfoldable pub is_complete : Writer c → Closing → Bool
  is_complete w k =
      k.summary.transport_complete
      && byte_complete w k
      && chunk_complete w k
      && is_empty (all_errors w k)
      && k.dropped_chunks == 0

  unfoldable pub is_storage_complete : Writer c → Closing → Bool
  is_storage_complete w k =
      byte_complete w k
      && chunk_complete w k
      && is_empty w.errors
      && is_empty k.capture_errors
      && k.dropped_chunks == 0

  unfoldable pub manifest_of : Writer c → Closing → Manifest
  unfolding is_complete is_storage_complete
  manifest_of w k = record {
    schema_version = schema_version;
    capture_format = "retailprintguard-bidirectional-v1";
    session = w.descriptor;
    closed_at_utc = k.summary.closed_at_utc;
    closed_monotonic_ns = k.summary.closed_monotonic_ns;
    close_reason = k.summary.close_reason;
    status = if is_complete w k then "COMPLETE" else "PARTIAL";
    transport_complete = k.summary.transport_complete;
    storage_complete = is_storage_complete w k;
    observed_bytes = k.summary.observed_bytes;
    observed_chunks = k.summary.observed_chunks;
    captured_bytes = w.captured_bytes;
    captured_chunks = w.captured_chunks;
    timeline_covered_bytes = none;
    eof_events = w.eof_events;
    timeline_events = w.timeline_events;
    last_event_sha256 = w.previous_event_sha256;
    dropped_chunks = k.dropped_chunks;
    dropped_bytes = k.dropped_bytes;
    errors = all_errors w k;
    files = all_facts w.session_file w.raw.client w.raw.device (file_lines w);
  }

  -- `_publish_ready`: a marker that is there stays.
  unfoldable pub publish_ready : String → String → Directory → Directory
  publish_ready job_id sha256 dir = elim dir.ready [
    | none ↦ record dir {
      ready =
          some
            (record { schema_version = schema_version; job_id = job_id; manifest_sha256 = sha256 });
    }
    | some _ ↦ dir
  ]

  -- `finalize` on the directory: the hash of the manifest that it publishes, or `none` where it
  -- raises, and the directory as it is then. `fault` is the stage that an `OSError` or the end of
  -- the process cuts short, `taken` says that the final path is there already.
  unfoldable pub finalize : Option Stage → Bool → Closing → Writer c → Option String × Directory
  unfolding manifest_of publish_ready
  finalize fault taken k w =
      let dir = directory_of w in
      let text = dump_manifest (manifest_of w k) in
      let sha256 = digest text in
      let with_manifest = record dir { manifest = some text } in
      let renamed = record with_manifest { is_partial = false } in
      if hits fault Stage.closing
        || hits fault Stage.reading_files
        || hits fault Stage.writing_manifest
      then (none, dir)
      else if hits fault Stage.checking_destination || taken || hits fault Stage.renaming
      then (none, with_manifest)
      else if hits fault Stage.writing_ready
      then (none, renamed)
      else if hits fault Stage.syncing_ready
      then (none, publish_ready w.descriptor.job_id sha256 renamed)
      else (some sha256, publish_ready w.descriptor.job_id sha256 renamed)
