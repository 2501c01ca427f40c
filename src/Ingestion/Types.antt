-- ===== src/Ingestion/Types.antt =====
-- The values of ingestion/worker.py, and the repository and adapters that it is given.
use retail_print_guard.Base.{ℕ, String, Option, List}

-- The texts of `report.errors`, each with what is formatted into it.
pub data ErrorText : Type 0 where
  quarantine_unavailable : (key error : String) → ErrorText
  retry_exhausted_for : (key error : String) → ErrorText
  source_snapshot_busy : (root error : String) → ErrorText
  source_candidate_busy : (key error : String) → ErrorText
  cannot_begin : (root error : String) → ErrorText
  cannot_complete : (root error : String) → ErrorText
  refresh_unavailable : String → ErrorText

pub record IngestionRunReport : Type 0 where
  pub discovered : ℕ
  pub imported : ℕ
  pub duplicates : ℕ
  pub quarantined : ℕ
  pub retry_exhausted : ℕ
  pub source_busy : ℕ
  pub errors : List ErrorText
  pub candidate_keys : List String

pub record Candidate : Type 0 where
  pub source_instance_id : String
  pub candidate_key : String
  pub source_path : String
  pub source_kind : String

pub record QuarantineRecord : Type 0 where
  pub source_instance_id : String
  pub candidate_key : String
  pub source_path : String
  pub source_kind : String
  pub reason : String

-- `delay` counts milliseconds.
pub record RetryRecord : Type 0 where
  pub source_key : String
  pub attempt : ℕ
  pub delay : ℕ
  pub error : String

-- What `store_import` answers; `unsupported` is any other disposition, `unavailable` a
-- RepositoryUnavailable.
pub data StoreAnswer : Type 0 where
  imported duplicate unsupported : StoreAnswer
  unavailable : String → StoreAnswer

-- What comes of `begin_import_batch`, which a repository may lack.
pub data BatchAnswer : Type 0 where
  no_batches : BatchAnswer
  begun : String → BatchAnswer
  not_begun : String → BatchAnswer

-- What an adapter gives, SourceBusyError and SourceValidationError included.
pub data Sourced {ℓ} (A : Type ℓ) : Type ℓ where
  sourced : A → Sourced A
  busy : String → Sourced A
  invalid : String → Sourced A

-- The IngestionRepository protocol on its own state. An answer `some error` is a
-- RepositoryUnavailable; the worker drops what `record_retry` answers.
pub record IngestionRepository : Type 1 where
  pub State : Type 0
  pub Envelope : Type 0
  pub source_key : Envelope → String
  pub store_import : Envelope → State → StoreAnswer × State
  pub quarantine : QuarantineRecord → State → Option String × State
  pub record_retry : RetryRecord → State → State
  pub begin_import_batch : String → String → String → State → BatchAnswer × State
  pub complete_import_batch : String → IngestionRunReport → State → Option String × State
  pub refresh_device_statuses : State → Option String × State

module _ (r : IngestionRepository) where
  open r use {State, Envelope}

  pub record SourceAdapter : Type 0 where
    pub source_instance_id : String
    pub root : String
    pub class_name : String
    pub discover : ℕ → Sourced (List Candidate)
    pub load : Candidate → Sourced Envelope

  -- The repository and the delays that were slept.
  pub record World : Type 0 where
    pub state : State
    pub slept : List ℕ

-- The arguments of `IngestionWorker.__init__`; the intervals count milliseconds.
pub record Settings : Type 0 where
  pub retry_initial : ℕ
  pub retry_max : ℕ
  pub retry_attempts : ℕ
