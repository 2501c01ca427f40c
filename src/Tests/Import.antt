-- ===== src/Tests/Import.antt =====
-- An import from one adapter with two candidates, into a repository that answers once in two calls.
use retail_print_guard.Base.{
  arith, ◌+◌, String, Bool, true, false, none, some, [], ◌∷◌, ◌≡◌, refl, if◌then◌else◌, str_eq,
}
use retail_print_guard.Ingestion.Types.{
  IngestionRunReport, Candidate, StoreAnswer, Sourced, BatchAnswer, IngestionRepository,
  SourceAdapter, World, Settings,
}
use retail_print_guard.Ingestion.Worker.{
  empty_report, run_once, store_with_retry, is_valid, run_adapters, scan_adapter, scan_candidates,
  scan_candidate, store_loop, quarantine_loop, begin_batch, complete_batch, merge, refresh,
}
use retail_print_guard.Ingestion.Accounting.{outcomes, failed_discoveries, run_once-IsAccounted}
use retail_print_guard.Ingestion.Answers.{KeepsProtocol}
use retail_print_guard.Ingestion.Backoff.{IsPatient, store-IsPatient}

-- The state says whether the next call is refused.
abbrev tired : IngestionRepository
tired = record {
  State = Bool;
  Envelope = String;
  source_key = λ e. e;
  store_import =
      λ e s. if s then (StoreAnswer.unavailable "busy", false) else (StoreAnswer.imported, true);
  quarantine = λ q s. (none, s);
  record_retry = λ q s. s;
  begin_import_batch = λ a b c s. (BatchAnswer.no_batches, s);
  complete_import_batch = λ b q s. (none, s);
  refresh_device_statuses = λ s. (none, s);
}

abbrev settings : Settings
settings = record { retry_initial = 2000; retry_max = 300000; retry_attempts = 5 }

abbrev candidate : String → Candidate
candidate key = record {
  source_instance_id = "till";
  candidate_key = key;
  source_path = key;
  source_kind = "spool";
}

abbrev folder : SourceAdapter tired
folder = record {
  source_instance_id = "till";
  root = "spool";
  class_name = "SpoolAdapter";
  discover = λ n. Sourced.sourced (candidate "good" ∷ candidate "torn" ∷ []);
  load =
      λ c. if str_eq c.candidate_key "good" then Sourced.sourced "good" else Sourced.invalid "torn";
}

abbrev world : World tired
world = record { state = true; slept = [] }

abbrev expected : IngestionRunReport
expected = record empty_report {
  discovered = 2;
  imported = 1;
  quarantined = 1;
  candidate_keys = "good" ∷ "torn" ∷ [];
}

two_candidates_are_counted :
    run_once tired settings (folder ∷ []) 100 world
    ≡ some (expected, record { state = true; slept = 2000 ∷ [] })
unfolding run_once run_adapters scan_adapter scan_candidates scan_candidate store_loop
    quarantine_loop begin_batch complete_batch merge refresh
two_candidates_are_counted = refl

valid_settings : is_valid settings ≡ true
unfolding is_valid
valid_settings = refl

tired-KeepsProtocol : KeepsProtocol tired
tired-KeepsProtocol x true h = ground (arith, h)
tired-KeepsProtocol x false h = ground (arith, h)

run_once-IsAccounted_example :
    (end : IngestionRunReport × World tired) × ((run_once tired settings (folder ∷ []) 100 world
        ≡ some end)
      × (outcomes end.0 ≡ end.0.discovered + failed_discoveries tired (folder ∷ []) 100))
run_once-IsAccounted_example =
    run_once-IsAccounted tired settings tired-KeepsProtocol valid_settings (folder ∷ []) 100 world
      (omega arith)

store-IsPatient_example :
    (end : IngestionRunReport × World tired) × ((store_with_retry tired settings "good" empty_report
          world
        ≡ some end)
      × IsPatient tired settings world end.1)
store-IsPatient_example =
    store-IsPatient tired settings "good" world empty_report tired-KeepsProtocol valid_settings
