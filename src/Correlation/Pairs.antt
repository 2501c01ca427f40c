-- ===== src/Correlation/Pairs.antt =====
-- The score of a pair of documents, `score_candidate_pair` of correlation/engine.py.
use retail_print_guard.Base.{String, Option, none, some}
use retail_print_guard.Correlation.Types.{Platform, NormalizedDocument, PairScore}
use retail_print_guard.Correlation.Conflicts.{
  identity_conflict, episode_boundary_conflict, rejected_pair,
}
use retail_print_guard.Correlation.Score.{Engine, or_pair, score_pair}
use retail_print_guard.Correlation.Links.{
  commercial_reference_pair, table_sale_sequence_pair, kitchen_management_baseline_pair,
  fiscal_siblings, same_table_change_pair, cross_department_dispatch_pair, device_response_pair,
}

abbrev pub or_score : Option PairScore → PairScore → PairScore
or_score none s = s
or_score (some r) s = r

module _ (p : Platform) (engine : Engine) where
  abbrev Document : Type 0
  Document = NormalizedDocument p

  -- The chain of `or` at the end of `score_candidate_pair`.
  unfoldable pub score_linked_pair : Document → Document → PairScore
  score_linked_pair left right =
      or_score
        (or_pair (commercial_reference_pair p engine left right) (
          or_pair (table_sale_sequence_pair p engine left right) (
            or_pair (kitchen_management_baseline_pair p engine left right) (
              or_pair (fiscal_siblings p engine left right) (
                or_pair (same_table_change_pair p engine left right)
                  (cross_department_dispatch_pair p engine left right))))))
        (score_pair p engine left right)

  abbrev pub unless_conflict : Document → Document → Option String → PairScore → PairScore
  unless_conflict left right none s = s
  unless_conflict left right (some reason) s = rejected_pair p left right reason

  -- `score_candidate_pair`
  unfoldable pub score_candidate_pair : Document → Document → PairScore
  score_candidate_pair left right = or_score (device_response_pair p engine left right) (
      unless_conflict left right (episode_boundary_conflict p left right) (
        unless_conflict left right (identity_conflict p left right) (score_linked_pair left right)))
