-- ===== src/Ingestion/Worker.antt =====
-- `IngestionWorker` of ingestion/worker.py.
use Prim.Native.String.{◌++◌ as ◌+++◌}
use retail_print_guard.Base.{
  ℕ, zero, suc, ◌+◌, ◌*◌, min, String, Bool, ◌&&◌, ◌==◌, leb, ltb, Option, none, some, List, [],
  ◌∷◌, ◌++◌, if◌then◌else◌, any_of, str_eq, shorten,
}
use retail_print_guard.Ingestion.Types.{
  ErrorText, IngestionRunReport, Candidate, QuarantineRecord, StoreAnswer, BatchAnswer, Sourced,
  IngestionRepository, SourceAdapter, World, Settings,
}

infixl 5 ◌>>=◌
abbrev pub ◌>>=◌ {ℓ κ} : {A : Type ℓ} {B : Type κ} → Option A → (A → Option B) → Option B
none >>= f = none
some a >>= f = f a

abbrev pub empty_report : IngestionRunReport
empty_report = record {
  discovered = 0;
  imported = 0;
  duplicates = 0;
  quarantined = 0;
  retry_exhausted = 0;
  source_busy = 0;
  errors = [];
  candidate_keys = [];
}

-- `set.add`
abbrev add_key : String → List String → List String
add_key k ks = if any_of (str_eq k) ks then ks else ks ++ k ∷ []

abbrev update_keys : List String → List String → List String
update_keys keys [] = keys
update_keys keys (k ∷ more) = update_keys (add_key k keys) more

-- `report.merge(other)`
unfoldable pub merge : IngestionRunReport → IngestionRunReport → IngestionRunReport
merge a b = record {
  discovered = a.discovered + b.discovered;
  imported = a.imported + b.imported;
  duplicates = a.duplicates + b.duplicates;
  quarantined = a.quarantined + b.quarantined;
  retry_exhausted = a.retry_exhausted + b.retry_exhausted;
  source_busy = a.source_busy + b.source_busy;
  errors = a.errors ++ b.errors;
  candidate_keys = update_keys a.candidate_keys b.candidate_keys;
}

-- The checks of `__init__`.
unfoldable pub is_valid : Settings → Bool
is_valid s =
    ltb 0 s.retry_initial
    && leb s.retry_initial s.retry_max
    && leb 1 s.retry_attempts
    && leb s.retry_attempts 100

abbrev add_error : ErrorText → IngestionRunReport → IngestionRunReport
add_error e report = record report { errors = report.errors ++ e ∷ [] }

abbrev exhausted : ErrorText → IngestionRunReport → IngestionRunReport
exhausted e report = record (add_error e report) { retry_exhausted = suc report.retry_exhausted }

module _ (r : IngestionRepository) (settings : Settings) where
  open r use {
    State, Envelope, source_key, store_import, quarantine, record_retry, begin_import_batch,
    complete_import_batch, refresh_device_statuses,
  }

  abbrev next_delay : ℕ → ℕ
  next_delay delay = min settings.retry_max (delay * 2)

  -- The retry is recorded, before it is known whether another attempt follows.
  abbrev noted : String → ℕ → ℕ → String → World r → World r
  noted key attempt delay error w = record w {
    state =
        record_retry
          (record {
            source_key = key;
            attempt = attempt;
            delay = delay;
            error = shorten 4096 error;
          })
          w.state;
  }

  abbrev sleep : ℕ → World r → World r
  sleep delay w = record w { slept = w.slept ++ delay ∷ [] }

  abbrev with_state : State → World r → World r
  with_state state w = record w { state = state }

  -- The loop of `_quarantine` with `left` attempts to go.
  unfoldable pub quarantine_loop :
      QuarantineRecord
      → (left attempt delay : ℕ) → IngestionRunReport
      → World r
      → IngestionRunReport × World r
  unfolding shorten
  quarantine_loop q zero attempt delay report w = (report, w)
  quarantine_loop q (suc left) attempt delay report w =
      let (refused, state) = quarantine q w.state in
      elim refused [
        | none ↦ (record report { quarantined = suc report.quarantined }, with_state state w)
        | some error ↦
            let later = noted q.candidate_key attempt delay error (with_state state w) in
            let again =
              quarantine_loop q left (suc attempt) (next_delay delay) report (sleep delay later) in
            if attempt == settings.retry_attempts
            then (exhausted (ErrorText.quarantine_unavailable q.candidate_key error) report, later)
            else again
      ]

  -- `_quarantine`
  abbrev pub quarantine_with_retry :
      QuarantineRecord → IngestionRunReport → World r → IngestionRunReport × World r
  quarantine_with_retry q report w =
      quarantine_loop (record q { reason = shorten 4096 q.reason }) settings.retry_attempts 1
        settings.retry_initial report w

  -- The loop of `_store_with_retry`; `none` is a RepositoryContractError.
  unfoldable pub store_loop :
      Envelope
      → (left attempt delay : ℕ) → IngestionRunReport
      → World r
      → Option (IngestionRunReport × World r)
  unfolding shorten
  store_loop e zero attempt delay report w = some (report, w)
  store_loop e (suc left) attempt delay report w =
      let (answer, state) = store_import e w.state in
      elim answer [
        | StoreAnswer.imported ↦
            some (record report { imported = suc report.imported }, with_state state w)
        | StoreAnswer.duplicate ↦
            some (record report { duplicates = suc report.duplicates }, with_state state w)
        | StoreAnswer.unsupported ↦ none
        | StoreAnswer.unavailable error ↦
            let later = noted (source_key e) attempt delay error (with_state state w) in
            let again =
              store_loop e left (suc attempt) (next_delay delay) report (sleep delay later) in
            if attempt == settings.retry_attempts
            then some (exhausted (ErrorText.retry_exhausted_for (source_key e) error) report, later)
            else again
      ]

  -- `_store_with_retry`
  abbrev pub store_with_retry :
      Envelope → IngestionRunReport → World r → Option (IngestionRunReport × World r)
  store_with_retry e report w =
      store_loop e settings.retry_attempts 1 settings.retry_initial report w

  abbrev discovered_one : Candidate → IngestionRunReport → IngestionRunReport
  discovered_one c report = record report {
    discovered = suc report.discovered;
    candidate_keys = add_key c.candidate_key report.candidate_keys;
  }

  abbrev busy_with : ErrorText → IngestionRunReport → IngestionRunReport
  busy_with e report = record (add_error e report) { source_busy = suc report.source_busy }

  -- One round of the loop over the candidates.
  unfoldable pub scan_candidate :
      SourceAdapter r
      → Candidate
      → IngestionRunReport
      → World r
      → Option (IngestionRunReport × World r)
  unfolding shorten
  scan_candidate adapter c report w =
      let seen = discovered_one c report in
      elim (adapter.load c) [
        | Sourced.sourced e ↦ store_with_retry e seen w
        | Sourced.busy error ↦
            some (busy_with (ErrorText.source_candidate_busy c.candidate_key error) seen, w)
        | Sourced.invalid error ↦ some (
            quarantine_with_retry
              (record {
                source_instance_id = c.source_instance_id;
                candidate_key = c.candidate_key;
                source_path = c.source_path;
                source_kind = c.source_kind;
                reason = error;
              })
              seen w)
      ]

  unfoldable pub scan_candidates :
      SourceAdapter r
      → List Candidate
      → IngestionRunReport
      → World r
      → Option (IngestionRunReport × World r)
  unfolding scan_candidate
  scan_candidates adapter [] report w = some (report, w)
  scan_candidates adapter (c ∷ cs) report w = do
    (next, later) ← scan_candidate adapter c report w
    scan_candidates adapter cs next later

  -- `_scan_adapter`
  unfoldable pub scan_adapter :
      SourceAdapter r → ℕ → World r → Option (IngestionRunReport × World r)
  unfolding scan_candidates quarantine_loop
  scan_adapter adapter maximum w = elim (adapter.discover maximum) [
    | Sourced.sourced candidates ↦ scan_candidates adapter candidates empty_report w
    | Sourced.busy error ↦
        some (busy_with (ErrorText.source_snapshot_busy adapter.root error) empty_report, w)
    | Sourced.invalid error ↦ some (
        quarantine_with_retry
          (record {
            source_instance_id = adapter.source_instance_id;
            candidate_key = adapter.source_instance_id +++ (":discovery:" +++ adapter.root);
            source_path = adapter.root;
            source_kind = adapter.class_name;
            reason = error;
          })
          empty_report w)
  ]

  -- The begin of a batch: its number, where there is one, and the report of the run.
  unfoldable pub begin_batch :
      SourceAdapter r
      → IngestionRunReport
      → World r
      → Option String × (IngestionRunReport × World r)
  begin_batch adapter report w =
      let (answer, state) =
        begin_import_batch adapter.class_name adapter.source_instance_id adapter.root w.state in
      elim answer [
        | BatchAnswer.no_batches ↦ (none, (report, w))
        | BatchAnswer.begun batch ↦ (some batch, (report, with_state state w))
        | BatchAnswer.not_begun error ↦ (
          none,
          (add_error (ErrorText.cannot_begin adapter.root error) report, with_state state w),
        )
      ]

  unfoldable pub complete_batch :
      SourceAdapter r → Option String → IngestionRunReport → World r → IngestionRunReport × World r
  complete_batch adapter none report w = (report, w)
  complete_batch adapter (some batch) report w =
      let (refused, state) = complete_import_batch batch report w.state in
      elim refused [
        | none ↦ (report, with_state state w)
        | some error ↦
            (add_error (ErrorText.cannot_complete adapter.root error) report, with_state state w)
      ]

  -- The loop of `run_once` over the adapters.
  unfoldable pub run_adapters :
      List (SourceAdapter r)
      → ℕ
      → IngestionRunReport
      → World r
      → Option (IngestionRunReport × World r)
  unfolding scan_adapter begin_batch complete_batch merge
  run_adapters [] maximum report w = some (report, w)
  run_adapters (adapter ∷ adapters) maximum report w = do
    let (batch, (begun, w1)) = begin_batch adapter report w
    (scanned, w2) ← scan_adapter adapter maximum w1
    let (completed, w3) = complete_batch adapter batch scanned w2
    run_adapters adapters maximum (merge begun completed) w3

  unfoldable pub refresh : IngestionRunReport → World r → IngestionRunReport × World r
  refresh report w =
      let (refused, state) = refresh_device_statuses w.state in
      elim refused [
        | none ↦ (report, with_state state w)
        | some error ↦ (add_error (ErrorText.refresh_unavailable error) report, with_state state w)
      ]

  -- `run_once`; `none` is a ValueError or a RepositoryContractError.
  unfoldable pub run_once :
      List (SourceAdapter r) → ℕ → World r → Option (IngestionRunReport × World r)
  unfolding run_adapters refresh
  run_once adapters maximum w =
      if ltb maximum 1
      then none
      else (run_adapters adapters maximum empty_report w >>= λ end. some (refresh end.0 end.1))
