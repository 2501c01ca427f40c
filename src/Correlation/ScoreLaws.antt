-- ===== src/Correlation/ScoreLaws.antt =====
-- What the score of a pair of documents says, in correlation/engine.py.
use retail_print_guard.Base.{◌≤◌, true, ◌||◌, Option, none, some, ◌≡◌, ◌⊎◌, str_eq}
use retail_print_guard.Domain.{is_device_response}
use retail_print_guard.Correlation.Types.{Platform, NormalizedDocument, PairScore}
use retail_print_guard.Correlation.Conflicts.{
  gap, document_time, identity_conflict, episode_boundary_conflict,
}
use retail_print_guard.Correlation.Score.{Engine}
use retail_print_guard.Correlation.Reach.{reach}

module _ (p : Platform) (engine : Engine) where
  abbrev Document : Type 0
  Document = NormalizedDocument p

  -- What an engine may join two documents for: one of them at least is a device response and both
  -- are of one duplex job, or there is no explicit conflict.
  abbrev pub MayJoin : Document → Document → Type 0
  MayJoin left right =
      (((is_device_response left.kind || is_device_response right.kind) ≡ true)
        × (str_eq left.source_job_id right.source_job_id ≡ true))
      ⊎ ((identity_conflict p left right ≡ none) × (episode_boundary_conflict p left right ≡ none))

  -- The facts about the score of a candidate pair.
  pub record IsGoverned (left right : Document) (s : PairScore) : Type 0 where
    pub capped_at : s.score ≤ 100
    pub near : (s.score ≡ 0) ⊎ (gap (document_time p left) (document_time p right) ≤ reach p engine)
    pub allowed : (s.score ≡ 0) ⊎ MayJoin left right

  IsGovernedLink : Document → Document → Option PairScore → Type 0
  IsGovernedLink left right none = Unit
  IsGovernedLink left right (some s) = IsGoverned left right s
