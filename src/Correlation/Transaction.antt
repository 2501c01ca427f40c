-- ===== src/Correlation/Transaction.antt =====
-- `_build_transaction`, `_correlate_pairs`, `correlate` and `correlate_candidates` of
-- correlation/engine.py.
pub mod Sound
pub mod Baseline
pub mod Relevant
pub mod Weakest
use Prim.Native.String.{◌++◌ as ◌+++◌}
use retail_print_guard.Base.{
  ℕ, suc, String, Bool, true, false, not, ◌&&◌, ◌||◌, Option, none, some, List, [], ◌∷◌, ◌++◌,
  if◌then◌else◌, str_eq, opt_eq, ltb, leb, ◌==◌, length, keep, map, is_some, is_empty, concat, min,
  max,
}
use retail_print_guard.Base.Sort.{sort_by, text_le, nub, member, sorted_set}
use retail_print_guard.Domain.{is_commercial, is_pre_bill, is_management, is_payment}
use retail_print_guard.Correlation.Types.{
  Platform, NormalizedDocument, DocumentLine, Criterion, Detail, PairScore, CorrelationResult,
  CorrelatedTransaction, TimelineEntry, LineChange,
}
use retail_print_guard.Correlation.Lines.{normalise, compare_document_lines, shared_items}
use retail_print_guard.Correlation.Conflicts.{
  document_time, total_of, is_prebill_source, not_later, closes,
}
use retail_print_guard.Correlation.Score.{Engine}
use retail_print_guard.Correlation.Forest.{◌>>=◌}
use retail_print_guard.Correlation.Groups.{Edge, edges_of, groups_of}
use retail_print_guard.Correlation.Evidence.{correlation_of, join_with}
use retail_print_guard.Correlation.Closing.{
  sum, total_or_zero, valid_fiscal, prebill_of, economic_closures, authoritative_payments,
}

module _ (p : Platform) (engine : Engine) where
  open p use {
    Amount, zero_amount, hundred, plus, minus, times, over, quantize, same, at_most, uuid5, format,
  }

  abbrev Document : Type 0
  Document = NormalizedDocument p

  abbrev prebill_total_of : Option Document → Option Amount
  prebill_total_of none = none
  prebill_total_of (some d) = total_of p d

  abbrev difference_of : Option Amount → Amount → Option Amount
  difference_of none total = none
  difference_of (some before) total = some (minus before total)

  abbrev percent_of : Option Amount → Amount → Option Amount
  percent_of none total = none
  percent_of (some before) total =
      if same before zero_amount
      then none
      else some (quantize (times (over (minus before total) before) hundred))

  abbrev changes_from : Option Document → List (DocumentLine p) → List (LineChange p)
  changes_from none final = []
  changes_from (some prebill) final =
      if is_empty prebill.lines || is_empty final
      then []
      else compare_document_lines p prebill.lines final

  abbrev timeline_entry : Document → TimelineEntry p
  timeline_entry d = record {
    document_id = d.id;
    document_type = d.kind;
    occurred_at = document_time p d;
    gross_total = total_of p d;
    source_device_id = d.source_device_id;
    source_job_id = d.source_job_id;
  }

  abbrev totals_of : List Document → Amount
  totals_of ds = sum p (map (total_or_zero p) ds)

  abbrev lines_of : List Document → List (DocumentLine p)
  lines_of ds = concat (map (λ d. d.lines) ds)

  -- `_build_transaction`
  unfoldable pub build_transaction : List (Edge p engine) → List Document → CorrelatedTransaction p
  unfolding correlation_of prebill_of economic_closures authoritative_payments
  build_transaction edges group =
      let documents = sort_by (not_later p) group in
      let transaction_id = uuid5 (
        "rpg-correlation-1.5.0:" +++ join_with ":" (sort_by text_le (map (λ d. d.id) documents))) in
      let fiscal = valid_fiscal p documents in
      let prebill = prebill_of p documents in
      let closures = economic_closures p documents in
      record {
        transaction_id = transaction_id;
        correlation = correlation_of p engine transaction_id documents edges;
        documents = documents;
        prebill_total = prebill_total_of prebill;
        fiscal_total = totals_of fiscal;
        observed_final_total = totals_of closures;
        payment_total = sum p (authoritative_payments p documents fiscal);
        difference_amount = difference_of (prebill_total_of prebill) (totals_of closures);
        difference_percent = percent_of (prebill_total_of prebill) (totals_of closures);
        split_payment = leb 2 (length fiscal) && not (at_most (totals_of fiscal) zero_amount);
        line_changes = changes_from prebill (lines_of closures);
        timeline = map timeline_entry documents;
      }

  -- `item.timeline[0].occurred_at`; a group, and so a timeline, has a document.
  abbrev opened_at : List (TimelineEntry p) → ℕ
  opened_at [] = 0
  opened_at (e ∷ rest) = e.occurred_at

  abbrev pub opens_before : CorrelatedTransaction p → CorrelatedTransaction p → Bool
  opens_before a b =
      ltb (opened_at a.timeline) (opened_at b.timeline)
      || opened_at a.timeline == opened_at b.timeline && text_le a.transaction_id b.transaction_id

  -- `_correlate_pairs`
  unfoldable pub correlate_pairs :
      List Document → List (String × String) → Option (List (CorrelatedTransaction p))
  unfolding groups_of build_transaction
  correlate_pairs ordered candidates = do
    groups ← groups_of p engine ordered candidates
    some (
        sort_by opens_before
          (map (build_transaction (edges_of p engine ordered candidates)) groups))

  -- `correlate_candidates`
  unfoldable pub correlate_candidates :
      List Document → List (String × String) → Option (List (CorrelatedTransaction p))
  unfolding correlate_pairs
  correlate_candidates documents candidates =
      correlate_pairs (sort_by (not_later p) documents) candidates

  abbrev all_pairs : List Document → List (String × String)
  all_pairs [] = []
  all_pairs (d ∷ ds) = map (λ e. (d.id, e.id)) ds ++ all_pairs ds

  -- `correlate`
  unfoldable pub correlate : List Document → Option (List (CorrelatedTransaction p))
  unfolding correlate_pairs
  correlate documents =
      let ordered = sort_by (not_later p) documents in correlate_pairs ordered (all_pairs ordered)
