-- ===== src/Spool/Types.antt =====
-- The records of proxy/spool.py, and what the code takes from json and hashlib.
use retail_print_guard.Base.{ℕ, String, Bool, Option, List}
use retail_print_guard.Base.Int.{ℤ}

pub data Direction : Type 0 where
  client_to_device device_to_client : Direction

-- The texts of the enumeration, which the timeline holds.
abbrev pub value : Direction → String
value client_to_device = "client_to_device"
value device_to_client = "device_to_client"

pub data StorageFailurePolicy : Type 0 where
  continue abort : StorageFailurePolicy

-- A dictionary with one entry for each direction.
pub record PerDirection {ℓ} (A : Type ℓ) : Type ℓ where
  pub client : A
  pub device : A

module _ {ℓ} {A : Type ℓ} where
  abbrev pub at : PerDirection A → Direction → A
  at p client_to_device = p.client
  at p device_to_client = p.device

  abbrev pub put : PerDirection A → Direction → A → PerDirection A
  put p client_to_device a = record p { client = a }
  put p device_to_client a = record p { device = a }

  -- `{direction: a for direction in Direction}`
  abbrev pub everywhere : A → PerDirection A
  everywhere a = record { client = a; device = a }

abbrev pub Bytes : Type 0
Bytes = List ℕ

pub record SessionDescriptor : Type 0 where
  pub session_id : String
  pub job_id : String
  pub device_id : String
  pub device_name : String
  pub device_type : String
  pub parser : String
  pub client_endpoint : String × ℕ
  pub listener_endpoint : String × ℕ
  pub target_endpoint : String × ℕ
  pub connected_at_utc : String
  pub connected_monotonic_ns : ℕ

pub record CaptureEvent : Type 0 where
  pub sequence : ℕ
  pub observed_sequence : ℕ
  pub direction_sequence : ℕ
  pub direction : Direction
  pub kind : String
  pub captured_at_utc : String
  pub captured_monotonic_ns : ℕ
  pub offset : ℕ
  pub payload : Bytes
  pub forwarded : Bool
  pub forwarded_at_utc : String
  pub forward_error : Option String

pub record SessionCloseSummary : Type 0 where
  pub closed_at_utc : String
  pub closed_monotonic_ns : ℕ
  pub close_reason : String
  pub transport_complete : Bool
  pub observed_bytes : PerDirection ℕ
  pub observed_chunks : PerDirection ℕ
  pub transport_errors : List String

-- The dictionary `event_body` that `append` writes as one line.
pub record EventBody : Type 0 where
  pub schema_version : ℕ
  pub session_id : String
  pub job_id : String
  pub device_id : String
  pub sequence : ℕ
  pub observed_sequence : ℕ
  pub direction_sequence : ℕ
  pub direction : String
  pub kind : String
  pub captured_at_utc : String
  pub captured_monotonic_ns : ℕ
  pub offset : ℕ
  pub length : ℕ
  pub payload_sha256 : String
  pub forwarded : Bool
  pub forwarded_at_utc : String
  pub forward_error : Option String
  pub previous_event_sha256 : Option String

-- What the loop of `_inspect_timeline` takes from a line: the fields that it converts, the popped
-- hash, and the canonical text of what is left of the entry.
pub record LoadedEntry (Text : Type 0) : Type 0 where
  pub event_hash : String
  pub direction : String
  pub kind : String
  pub sequence : ℤ
  pub observed_sequence : ℤ
  pub direction_sequence : ℤ
  pub offset : ℤ
  pub length : ℤ
  pub previous : Option String
  pub without_hash : Text

-- `_file_facts`, and the manifest of a job (of a `PARTIAL` one that is recovered, too, which adds
-- the bytes that the timeline covers).
pub record FileFacts : Type 0 where
  pub name : String
  pub size : ℕ
  pub sha256 : String

pub record Manifest : Type 0 where
  pub schema_version : ℕ
  pub capture_format : String
  pub session : SessionDescriptor
  pub closed_at_utc : String
  pub closed_monotonic_ns : ℕ
  pub close_reason : String
  pub status : String
  pub transport_complete : Bool
  pub storage_complete : Bool
  pub observed_bytes : PerDirection ℕ
  pub observed_chunks : PerDirection ℕ
  pub captured_bytes : PerDirection ℕ
  pub captured_chunks : PerDirection ℕ
  pub timeline_covered_bytes : Option (PerDirection ℕ)
  pub eof_events : PerDirection ℕ
  pub timeline_events : ℕ
  pub last_event_sha256 : Option String
  pub dropped_chunks : ℕ
  pub dropped_bytes : ℕ
  pub errors : List String
  pub files : List FileFacts

-- The file `.ready`.
pub record Ready : Type 0 where
  pub schema_version : ℕ
  pub job_id : String
  pub manifest_sha256 : String

-- What session.json holds for the recovery: nothing that is read as a dictionary, one without a job
-- number, or one of a descriptor. (A dictionary that has the job number, but not the other keys, goes
-- into the manifest as it is; here a dictionary with the number has them all.)
pub data LoadedSession : Type 0 where
  unreadable : LoadedSession
  unnumbered : LoadedSession
  described : (descriptor : SessionDescriptor) → LoadedSession

-- json and hashlib, which the code calls: `dump`, `dump_entry` and `dump_manifest` are
-- `_canonical_json_bytes` of a body, of a body with its hash and of a manifest (the last two with
-- the line end), `dump_session` is that of session.json; `load` is `json.loads` with the conversions
-- of the fields and answers `none` where these raise; `escapes` tells whether what it raises on a line
-- is no KeyError, TypeError or ValueError, as on a line that is no object, or has an infinite number.
-- `load_manifest` is the job number in a manifest, `none` where reading it raises, and `load_session`
-- the dictionary in session.json.
-- `digest` and `digest_bytes` are the hexadecimal SHA-256, `encode` is a text's bytes, `glue`
-- the concatenation of two texts, and `empty_text` is that of an empty file.
pub record Codec : Type 1 where
  pub Text : Type 0
  pub dump : EventBody → Text
  pub dump_entry : EventBody → String → Text
  pub dump_manifest : Manifest → Text
  pub dump_session : SessionDescriptor → Text
  pub load : Text → Option (LoadedEntry Text)
  pub escapes : Text → Bool
  pub load_manifest : Text → Option String
  pub load_session : Text → LoadedSession
  pub digest : Text → String
  pub digest_bytes : Bytes → String
  pub encode : Text → Bytes
  pub glue : Text → Text → Text
  pub empty_text : Text
