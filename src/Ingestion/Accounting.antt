-- ===== src/Ingestion/Accounting.antt =====
-- The report of a run of ingestion/worker.py accounts for every candidate.
use Prim.Native.String.{◌++◌ as ◌+++◌}
use retail_print_guard.Base.{
  ◌≤◌, false, ℕ, zero, suc, ◌+◌, ◌==◌, ==_iff, true, Option, none, some, List, [], ◌∷◌, ◌≡◌, refl,
  ap, subst, inl, inr, Bool-cases, Option-cases, arith, String, shorten, ltb,
}
use retail_print_guard.Ingestion.Types.{
  IngestionRunReport, Candidate, QuarantineRecord, Sourced, IngestionRepository, SourceAdapter,
  World, Settings, BatchAnswer,
}
use retail_print_guard.Ingestion.Worker.{
  empty_report, merge, is_valid, quarantine_loop, store_loop, scan_candidate, scan_candidates,
  scan_adapter, store_with_retry, quarantine_with_retry, begin_batch, complete_batch, run_adapters,
  refresh, run_once,
}
use retail_print_guard.Ingestion.Answers.{
  KeepsProtocol, Returns-some, Returns, Returns-map, Returns-bind, predecessor, Sourced-cases,
  StoreAnswer-cases,
}

-- How many ends the report has counted.
abbrev pub outcomes : IngestionRunReport → ℕ
outcomes report =
    report.imported + report.duplicates + report.quarantined + report.retry_exhausted
    + report.source_busy

-- One end more, and no candidate more.
abbrev IsEnded : IngestionRunReport → IngestionRunReport → Type 0
IsEnded before after =
    (outcomes after ≡ suc (outcomes before)) × (after.discovered ≡ before.discovered)

abbrev failed_of {ℓ} : {A : Type ℓ} → Sourced A → ℕ
failed_of (Sourced.sourced a) = 0
failed_of (Sourced.busy error) = 1
failed_of (Sourced.invalid error) = 1

-- Whether the search of an adapter fails, and how many adapters of a list do.
abbrev pub failed_discovery : (r : IngestionRepository) → SourceAdapter r → ℕ → ℕ
failed_discovery r adapter maximum = failed_of (adapter.discover maximum)

abbrev pub failed_discoveries : (r : IngestionRepository) → List (SourceAdapter r) → ℕ → ℕ
failed_discoveries r [] maximum = 0
failed_discoveries r (adapter ∷ adapters) maximum =
    failed_discovery r adapter maximum + failed_discoveries r adapters maximum

module _ (r : IngestionRepository) (settings : Settings) (lawful : KeepsProtocol r) where
  open r use {
    State, Envelope, store_import, quarantine, begin_import_batch, complete_import_batch,
    refresh_device_statuses,
  }

  IsEnded-quarantine_loop :
      (q : QuarantineRecord) (left attempt delay : ℕ) (report : IngestionRunReport) (w : World r)
      → attempt + left ≡ settings.retry_attempts
      → IsEnded report (quarantine_loop r settings q (suc left) attempt delay report w).0
  unfolding quarantine_loop
  IsEnded-quarantine_loop q zero attempt delay report w h =
      elim (Option-cases (quarantine q w.state).0) [
        | inl e ↦ rw (e, quarantine_loop) (omega arith, refl)
        | inr (error, e) ↦
            rw (e, quarantine_loop)
              (rw ((==_iff attempt settings.retry_attempts).1 (omega (arith, h)))
                (omega arith, refl))
      ]
  IsEnded-quarantine_loop q (suc left) attempt delay report w h =
      elim (Option-cases (quarantine q w.state).0) [
        | inl e ↦ rw (e, quarantine_loop) (omega arith, refl)
        | inr (error, e) ↦ elim (Bool-cases (attempt == settings.retry_attempts)) [
          | inl last ↦ rw (e, quarantine_loop) (rw last (omega arith, refl))
          | inr more ↦
              rw (e, quarantine_loop)
                (rw more
                  (IsEnded-quarantine_loop q left (suc attempt) _ report _ (omega (arith, h))))
        ]
      ]

  IsEnded-store_loop :
      (x : Envelope) (left attempt delay : ℕ) (report : IngestionRunReport) (w : World r)
      → attempt + left ≡ settings.retry_attempts
      → Returns
          (λ end. IsEnded report end.0)
          (store_loop r settings x (suc left) attempt delay report w)
  unfolding store_loop
  IsEnded-store_loop x zero attempt delay report w h =
      elim (StoreAnswer-cases (store_import x w.state).0) [
        | inl e ↦ rw (e, store_loop) (omega arith, refl)
        | inr (inl e) ↦ rw (e, store_loop) (omega arith, refl)
        | inr (inr (inl e)) ↦ elim (lawful x w.state e) [ ]
        | inr (inr (inr (error, e))) ↦
            rw (e, store_loop)
              (rw ((==_iff attempt settings.retry_attempts).1 (omega (arith, h)))
                (omega arith, refl))
      ]
  IsEnded-store_loop x (suc left) attempt delay report w h =
      elim (StoreAnswer-cases (store_import x w.state).0) [
        | inl e ↦ rw (e, store_loop) (omega arith, refl)
        | inr (inl e) ↦ rw (e, store_loop) (omega arith, refl)
        | inr (inr (inl e)) ↦ elim (lawful x w.state e) [ ]
        | inr (inr (inr (error, e))) ↦ elim (Bool-cases (attempt == settings.retry_attempts)) [
          | inl last ↦ rw (e, store_loop) (rw last (omega arith, refl))
          | inr more ↦
              rw (e, store_loop)
                (rw more (IsEnded-store_loop x left (suc attempt) _ report _ (omega (arith, h))))
        ]
      ]

  -- A candidate more, and an end more.
  abbrev IsScanned : IngestionRunReport → IngestionRunReport → Type 0
  IsScanned before after =
      (outcomes after ≡ suc (outcomes before)) × (after.discovered ≡ suc before.discovered)

  module _ (valid : is_valid settings ≡ true) where
    some_attempt : (n : ℕ) × (suc n ≡ settings.retry_attempts)
    unfolding is_valid
    some_attempt = predecessor settings.retry_attempts (ground (arith, valid))

    IsEnded-store :
        (x : Envelope) (report : IngestionRunReport) (w : World r)
        → Returns (λ end. IsEnded report end.0) (store_with_retry r settings x report w)
    IsEnded-store x report w =
        let (n, e) = some_attempt in
        subst
          (λ m.
            Returns (λ end. IsEnded report end.0)
              (store_loop r settings x m 1 settings.retry_initial report w))
          e (IsEnded-store_loop x n 1 settings.retry_initial report w (omega (arith, e)))

    IsEnded-quarantine :
        (q : QuarantineRecord) (report : IngestionRunReport) (w : World r)
        → IsEnded report (quarantine_with_retry r settings q report w).0
    IsEnded-quarantine q report w =
        let (n, e) = some_attempt in
        let short : QuarantineRecord = record q { reason = shorten 4096 q.reason } in
        subst
          (λ m.
            IsEnded report (quarantine_loop r settings short m 1 settings.retry_initial report w).0)
          e (IsEnded-quarantine_loop short n 1 settings.retry_initial report w (omega (arith, e)))

    IsScanned-scan_candidate :
        (adapter : SourceAdapter r) (c : Candidate) (report : IngestionRunReport) (w : World r)
        → Returns (λ end. IsScanned report end.0) (scan_candidate r settings adapter c report w)
    unfolding scan_candidate
    IsScanned-scan_candidate adapter c report w = elim (Sourced-cases (adapter.load c)) [
      | inl (x, e) ↦ rw (e, scan_candidate) (IsEnded-store x _ w)
      | inr (inl (error, e)) ↦ rw (e, scan_candidate) (omega arith, refl)
      | inr (inr (error, e)) ↦ rw (e, scan_candidate) (IsEnded-quarantine _ _ w)
    ]

    -- As many ends more as candidates.
    abbrev IsBalanced : IngestionRunReport → IngestionRunReport → Type 0
    IsBalanced before after =
        outcomes after + before.discovered ≡ outcomes before + after.discovered

    IsBalanced-scan_candidates :
        (adapter : SourceAdapter r) (cs : List Candidate) (report : IngestionRunReport)
        (w : World r)
        → Returns (λ end. IsBalanced report end.0) (scan_candidates r settings adapter cs report w)
    unfolding scan_candidates
    IsBalanced-scan_candidates adapter [] report w = refl
    IsBalanced-scan_candidates adapter (c ∷ cs) report w =
        Returns-bind (λ x. IsScanned report x.0) _ (scan_candidate r settings adapter c report w)
          (λ x. scan_candidates r settings adapter cs x.0 x.1)
          (λ x h.
            Returns-map _ _ (scan_candidates r settings adapter cs x.0 x.1)
              (λ y balanced. omega (arith, balanced, h.0, h.1))
              (IsBalanced-scan_candidates adapter cs x.0 x.1))
          (IsScanned-scan_candidate adapter c report w)

    scan_adapter_lem :
        (adapter : SourceAdapter r) (maximum : ℕ) (w : World r)
        → Returns
            (λ end. outcomes end.0 ≡ end.0.discovered + failed_discovery r adapter maximum)
            (scan_adapter r settings adapter maximum w)
    unfolding scan_adapter
    scan_adapter_lem adapter maximum w = elim (Sourced-cases (adapter.discover maximum)) [
      | inl (cs, e) ↦
          rw (e, scan_adapter)
            (Returns-map _ _ (scan_candidates r settings adapter cs empty_report w)
              (λ y balanced. omega (arith, balanced, ap failed_of e))
              (IsBalanced-scan_candidates adapter cs empty_report w))
      | inr (inl (error, e)) ↦ rw (e, scan_adapter) (omega (arith, ap failed_of e))
      | inr (inr (error, e)) ↦
          rw (e, scan_adapter)
            (let q : QuarantineRecord = record {
              source_instance_id = adapter.source_instance_id;
              candidate_key = adapter.source_instance_id +++ (":discovery:" +++ adapter.root);
              source_path = adapter.root;
              source_kind = adapter.class_name;
              reason = error;
            } in
              let (ends, found) = IsEnded-quarantine q empty_report w in
              omega (arith, ends, found, ap failed_of e))
    ]

    begin_batch_lem :
        (adapter : SourceAdapter r) (report : IngestionRunReport) (w : World r)
        → let begun = (begin_batch r settings adapter report w).1.0 in
          (outcomes begun ≡ outcomes report) × (begun.discovered ≡ report.discovered)
    unfolding begin_batch
    begin_batch_lem adapter report w =
        on_answer
          (begin_import_batch adapter.class_name adapter.source_instance_id adapter.root w.state).0
          refl
      where
        on_answer :
            (a : BatchAnswer)
            → (begin_import_batch adapter.class_name adapter.source_instance_id adapter.root
                w.state).0
              ≡ a
            → let begun = (begin_batch r settings adapter report w).1.0 in
              (outcomes begun ≡ outcomes report) × (begun.discovered ≡ report.discovered)
        on_answer BatchAnswer.no_batches e = rw (e, begin_batch) (refl, refl)
        on_answer (BatchAnswer.begun batch) e = rw (e, begin_batch) (refl, refl)
        on_answer (BatchAnswer.not_begun error) e = rw (e, begin_batch) (refl, refl)

    complete_batch_lem :
        (adapter : SourceAdapter r) (batch : Option String) (report : IngestionRunReport)
        (w : World r)
        → let after = (complete_batch r settings adapter batch report w).0 in
          (outcomes after ≡ outcomes report) × (after.discovered ≡ report.discovered)
    unfolding complete_batch
    complete_batch_lem adapter none report w = (refl, refl)
    complete_batch_lem adapter (some batch) report w =
        elim (Option-cases (complete_import_batch batch report w.state).0) [
          | inl e ↦ rw (e, complete_batch) (refl, refl)
          | inr (error, e) ↦ rw (e, complete_batch) (refl, refl)
        ]

    run_adapters_lem :
        (adapters : List (SourceAdapter r)) (maximum : ℕ) (report : IngestionRunReport)
        (w : World r)
        → Returns
            (λ end.
              outcomes end.0 + report.discovered
              ≡ outcomes report + end.0.discovered + failed_discoveries r adapters maximum)
            (run_adapters r settings adapters maximum report w)
    unfolding run_adapters merge
    run_adapters_lem [] maximum report w = omega arith
    run_adapters_lem (adapter ∷ adapters) maximum report w =
        let (batch, (begun, w1)) = begin_batch r settings adapter report w in
        Returns-bind (λ x. outcomes x.0 ≡ x.0.discovered + failed_discovery r adapter maximum) _
          (scan_adapter r settings adapter maximum w1)
          (λ x.
            run_adapters r settings adapters maximum
              (merge begun (complete_batch r settings adapter batch x.0 x.1).0)
              (complete_batch r settings adapter batch x.0 x.1).1)
          (λ x h.
            let (completed, w3) = complete_batch r settings adapter batch x.0 x.1 in
            Returns-map _ _ (run_adapters r settings adapters maximum (merge begun completed) w3)
              (λ y rest. omega (
                arith,
                h,
                rest,
                (begin_batch_lem adapter report w).0,
                (begin_batch_lem adapter report w).1,
                (complete_batch_lem adapter batch x.0 x.1).0,
                (complete_batch_lem adapter batch x.0 x.1).1,
              ))
              (run_adapters_lem adapters maximum (merge begun completed) w3))
          (scan_adapter_lem adapter maximum w1)

    below_one : (n : ℕ) → 1 ≤ n → ltb n 1 ≡ false
    below_one n h = ground (arith, h)

    refresh_lem :
        (report : IngestionRunReport) (w : World r)
        → let after = (refresh r settings report w).0 in
          (outcomes after ≡ outcomes report) × (after.discovered ≡ report.discovered)
    unfolding refresh
    refresh_lem report w = elim (Option-cases (refresh_device_statuses w.state).0) [
      | inl e ↦ rw (e, refresh) (refl, refl)
      | inr (error, e) ↦ rw (e, refresh) (refl, refl)
    ]

    -- With valid settings, a maximum of at least 1 and a repository that keeps its protocol, a run
    -- returns a report, and that has counted one end (imported, duplicate, quarantined, given up or
    -- busy) for each candidate it discovered, and one for each adapter whose search failed.
    pub run_once-IsAccounted :
        (adapters : List (SourceAdapter r)) (maximum : ℕ) (w : World r)
        → 1 ≤ maximum
        → (end : IngestionRunReport × World r) × ((run_once r settings adapters maximum w
              ≡ some end)
            × (outcomes end.0 ≡ end.0.discovered + failed_discoveries r adapters maximum))
    unfolding run_once
    run_once-IsAccounted adapters maximum w large =
        Returns-some _ (run_once r settings adapters maximum w) (
          rw (below_one maximum large) (
            Returns-bind _ _ (run_adapters r settings adapters maximum empty_report w)
              (λ end. some (refresh r settings end.0 end.1))
              (λ end h. omega (arith, h, (refresh_lem end.0 end.1).0, (refresh_lem end.0 end.1).1))
              (run_adapters_lem adapters maximum empty_report w)))
