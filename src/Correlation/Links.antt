-- ===== src/Correlation/Links.antt =====
-- The links between documents that a protocol or a sequence of prints shows, of
-- correlation/engine.py.
use retail_print_guard.Base.{
  ◌-◌, Bool, true, false, not, ◌&&◌, ◌||◌, Option, none, some, [], ◌∷◌, if◌then◌else◌, str_eq,
  opt_eq, is_some, is_empty, ltb,
}
use retail_print_guard.Base.Sort.{common}
use retail_print_guard.Domain.{
  DocumentType, is_kitchen_order, is_order_change, is_management, is_commercial, is_device_response,
}
use retail_print_guard.Correlation.Types.{Platform, NormalizedDocument, PairScore, Detail}
use retail_print_guard.Correlation.Lines.{normalise, shared_items, aggregate_from}
use retail_print_guard.Correlation.Conflicts.{
  seconds, document_time, metadata_references, printed_counter_suffix, is_prebill_source,
  is_fiscal_sibling_type, rejected_pair, agree,
}
use retail_print_guard.Correlation.Score.{
  Engine, passed, whole_seconds, time_passed, items_passed, text_or_empty, window, pair, delta_of,
}

module _ (p : Platform) (engine : Engine) where
  abbrev Document : Type 0
  Document = NormalizedDocument p

  -- A copy or a management document, and the fiscal document that it names.
  abbrev may_refer : DocumentType → Bool
  may_refer DocumentType.management_document = true
  may_refer DocumentType.conforming_copy = true
  may_refer DocumentType.reprint = true
  may_refer _ = false

  abbrev pub suffix_reference : Document → Document → Bool
  suffix_reference fiscal referring =
      is_some (normalise p referring.commercial_reference_code)
      && is_some fiscal.external_document_code_suffix
      && agree (printed_counter_suffix p (normalise p referring.commercial_reference_code))
          (printed_counter_suffix p fiscal.external_document_code_suffix)
      && opt_eq fiscal.raw_metadata.suffix_evidence
          (some "RCH_STATUS_RESPONSE_SUFFIX_SEQUENCE_CONFIRMED")

  abbrev pub suffix_pair : Document → Document → Document → Document → Option PairScore
  suffix_pair left right fiscal referring =
      let delta = delta_of p engine left right in
      let items = shared_items p referring.lines fiscal.lines in
      if not (agree (normalise p referring.table_code) (normalise p fiscal.table_code))
        || is_empty items
        || ltb (seconds 300) delta
      then none
      else some (
          pair p engine left right 100 (
            passed "commercial_reference_to_observed_fiscal_suffix" 55 (
              Detail.says
                "suffisso fiscale osservato nella risposta RCH uguale al suffisso del riferimento commerciale")
            ∷ passed "table_code" 15 (
                Detail.says_of "stesso tavolo {}"
                  (text_or_empty (normalise p referring.table_code)))
            ∷ items_passed 20 items
            ∷ time_passed 10 delta
            ∷ []))

  abbrev pub reference_score : Document → Document → PairScore
  reference_score left right = pair p engine left right 95 (
      passed "commercial_reference_to_fiscal_progressive" 85
        (Detail.says "riferimento commerciale uguale al progressivo proprio fiscale")
      ∷ time_passed 10 (delta_of p engine left right)
      ∷ [])

  abbrev pub reference_pair : Document → Document → Document → Document → Option PairScore
  reference_pair left right fiscal referring =
      let delta = delta_of p engine left right in
      let exact_reference =
        agree (normalise p referring.commercial_reference_code)
          (normalise p fiscal.external_document_code) in
      if not (is_commercial fiscal.kind)
        || not (may_refer referring.kind)
        || not (exact_reference || suffix_reference fiscal referring)
        || ltb (window p engine) delta
      then none
      else if suffix_reference fiscal referring
      then suffix_pair left right fiscal referring
      else some (reference_score left right)

  -- `_commercial_reference_pair`
  unfoldable pub commercial_reference_pair : Document → Document → Option PairScore
  unfolding aggregate_from
  commercial_reference_pair left right =
      if is_commercial left.kind
      then reference_pair left right left right
      else reference_pair left right right left

  abbrev pub sale_sequence : Document → Document → Document → Document → Option PairScore
  sale_sequence left right source fiscal =
      let delta = document_time p fiscal - document_time p source in
      let items = shared_items p source.lines fiscal.lines in
      if not (is_prebill_source p source)
        || not (is_commercial fiscal.kind)
        || not (agree (normalise p source.table_code) (normalise p fiscal.table_code))
        || ltb (document_time p fiscal) (document_time p source)
        || ltb (seconds 300) delta
        || is_empty items
      then none
      else some (
          pair p engine left right 100 (
            passed "table_sale_sequence" 40 (
              Detail.says_of "preconto/gestionale seguito da chiusura fiscale sul tavolo {}"
                (text_or_empty (normalise p source.table_code)))
            ∷ items_passed 35 items
            ∷ passed "time_proximity" 25 (
                Detail.says_count "chiusura dopo {} secondi; limite episodio 300"
                  (whole_seconds delta))
            ∷ []))

  -- `_table_sale_sequence_pair`
  unfoldable pub table_sale_sequence_pair : Document → Document → Option PairScore
  unfolding aggregate_from
  table_sale_sequence_pair left right =
      if is_prebill_source p left
      then sale_sequence left right left right
      else sale_sequence left right right left

  -- `_cross_department_dispatch_pair`
  unfoldable pub cross_department_dispatch_pair : Document → Document → Option PairScore
  cross_department_dispatch_pair left right =
      let delta = delta_of p engine left right in
      if not (is_kitchen_order left.kind)
        || not (is_kitchen_order right.kind)
        || str_eq left.source_device_id right.source_device_id
        || not (agree (normalise p left.table_code) (normalise p right.table_code))
        || ltb (seconds 30) delta
      then none
      else some (
          pair p engine left right 85 (
            passed "CROSS_DEPARTMENT_DISPATCH" 75 (
              Detail.says_of "stesso tavolo {}, ticket cucina su dispositivi differenti"
                (text_or_empty (normalise p left.table_code)))
            ∷ passed "time_proximity" 10
                (Detail.says_count "distanza {} secondi; limite dispatch 30" (whole_seconds delta))
            ∷ []))

  abbrev pub baseline : Document → Document → Document → Document → Option PairScore
  baseline left right kitchen management =
      let delta = document_time p management - document_time p kitchen in
      let items = shared_items p kitchen.lines management.lines in
      if not (is_kitchen_order kitchen.kind)
        || not (is_management management.kind)
        || not (is_prebill_source p management)
        || not (agree (normalise p kitchen.table_code) (normalise p management.table_code))
        || is_empty items
        || ltb (document_time p management) (document_time p kitchen)
        || ltb (seconds 30) delta
      then none
      else some (
          pair p engine left right 100 (
            passed "kitchen_to_management_baseline" 40 (
              Detail.says_of "comanda seguita dalla baseline gestionale sul tavolo {}"
                (text_or_empty (normalise p kitchen.table_code)))
            ∷ items_passed 35 items
            ∷ passed "time_proximity" 25 (
                Detail.says_count "baseline dopo {} secondi; limite apertura 30"
                  (whole_seconds delta))
            ∷ []))

  -- `_kitchen_management_baseline_pair`
  unfoldable pub kitchen_management_baseline_pair : Document → Document → Option PairScore
  unfolding aggregate_from
  kitchen_management_baseline_pair left right =
      if is_kitchen_order left.kind
      then baseline left right left right
      else baseline left right right left

  abbrev pub change_sequence : Document → Document → Document → Document → Option PairScore
  change_sequence left right kitchen change =
      let delta = document_time p change - document_time p kitchen in
      let items = shared_items p kitchen.lines change.lines in
      if not (is_kitchen_order kitchen.kind)
        || not (is_order_change change.kind)
        || not (str_eq kitchen.source_device_id change.source_device_id)
        || not (agree (normalise p kitchen.table_code) (normalise p change.table_code))
        || is_empty items
        || ltb (document_time p change) (document_time p kitchen)
        || ltb (seconds 300) delta
      then none
      else some (
          pair p engine left right 100 (
            passed "SAME_TABLE_CHANGE_SEQUENCE" 80 (
              Detail.says_of
                "ticket cucina seguito da variazione sullo stesso dispositivo e tavolo {}"
                (text_or_empty (normalise p kitchen.table_code)))
            ∷ items_passed 10 items
            ∷ passed "time_proximity" 10 (
                Detail.says_count "variazione dopo {} secondi; limite sequenza 300"
                  (whole_seconds delta))
            ∷ []))

  -- `_same_table_change_pair`
  unfoldable pub same_table_change_pair : Document → Document → Option PairScore
  unfolding aggregate_from
  same_table_change_pair left right =
      if is_kitchen_order left.kind
      then change_sequence left right left right
      else change_sequence left right right left

  -- `_fiscal_siblings`
  unfoldable pub fiscal_siblings : Document → Document → Option PairScore
  fiscal_siblings left right =
      let delta = delta_of p engine left right in
      let references = common (metadata_references p left) (metadata_references p right) in
      if not (is_fiscal_sibling_type left.kind)
        || not (is_fiscal_sibling_type right.kind)
        || ltb (window p engine) delta
        || is_empty references
          && not (agree (normalise p left.order_code) (normalise p right.order_code))
      then none
      else some (
          pair p engine left right 80 (
            passed "split_fiscal_reference" 70
              (Detail.says "documenti fiscali parziali con riferimento ordine comune")
            ∷ time_passed 10 delta
            ∷ []))

  -- `_device_response_pair`
  unfoldable pub device_response_pair : Document → Document → Option PairScore
  unfolding rejected_pair
  device_response_pair left right =
      let delta = delta_of p engine left right in
      if not (is_device_response left.kind || is_device_response right.kind)
      then none
      else if ltb (window p engine) delta
      then some (rejected_pair p left right "risposta RCH fuori dalla finestra del job")
      else if str_eq left.source_job_id "" || not (str_eq left.source_job_id right.source_job_id)
      then some (rejected_pair p left right "risposta RCH osservata in un job differente")
      else some (
          pair p engine left right 90 (
            passed "response_job_context" 80 (Detail.says "stesso job duplex")
            ∷ time_passed 10 delta
            ∷ []))
