-- ===== src/Pricing/Attribution.antt =====
-- `derive_document_attributions` of pricing/service.py: one line against the lines of one document.
use Prim.Native.String.{compare as compare_text}
use Prim.Native.Nat.{compare as compare_number, Ordering}
use retail_print_guard.Base.{
  ℕ, String, Bool, true, false, Option, none, some, List, [], ◌∷◌, map, if◌then◌else◌, ◌==◌, ltb,
  ◌+◌, ◌-◌, ◌/◌, length, min,
}
use retail_print_guard.Pricing.Types.{
  Platform, PriceLineEvidence, DerivedPriceAttribution, MatchBasis, SourceKind, Status,
  QuantityBasis, UnitOrigin, TemporalRelation, Fingerprinted,
}
use retail_print_guard.Pricing.Match.{
  candidates, sources_agree, price_signature, effective_unit_price, quantity_compatibility,
  normalise_money,
}

abbrev pub price_attribution_algorithm : String
price_attribution_algorithm = "line-price-attribution/1.0.0"

abbrev base_confidence : MatchBasis → ℕ
base_confidence MatchBasis.item_code_exact = 9800
base_confidence MatchBasis.description_normalized_exact = 9000

abbrev quantity_penalty : QuantityBasis → ℕ
quantity_penalty QuantityBasis.unknown = 1000
quantity_penalty QuantityBasis.absolute_exact = 0
quantity_penalty QuantityBasis.conflict = 0

abbrev origin_penalty : UnitOrigin → ℕ
origin_penalty UnitOrigin.observed_unit_price = 0
origin_penalty UnitOrigin.derived_from_observed_line_total = 300
origin_penalty UnitOrigin.unavailable = 1500

abbrev graded : Status → ℕ → ℕ
graded Status.resolved n = n
graded Status.agreed n = min 9900 (n + 100)
graded Status.ambiguous n = min n 4900

-- The confidence, in ten-thousandths.
unfoldable pub confidence_of : MatchBasis → QuantityBasis → UnitOrigin → Status → ℕ
confidence_of basis quantity origin status =
    graded status (base_confidence basis - quantity_penalty quantity - origin_penalty origin)

-- `abs(int((source - target).total_seconds()))`, of two times in microseconds
abbrev distance_seconds : ℕ → ℕ → ℕ
distance_seconds target source = ((source - target) + (target - source)) / 1000000

abbrev relation_of : ℕ → ℕ → TemporalRelation
relation_of target source =
    if distance_seconds target source == 0
    then TemporalRelation.simultaneous
    else if ltb target source
    then TemporalRelation.source_after_target
    else TemporalRelation.source_before_target

module _ (p : Platform) where
  open p use {fingerprint, uuid5}

  abbrev Line : Type 0
  Line = PriceLineEvidence p

  -- The order of the key `(sequence, str(line_id))`: the first is not behind the second.
  abbrev not_after : Line → Line → Bool
  not_after a b = elim (compare_number a.sequence b.sequence) [
    | Ordering.lt ↦ true
    | Ordering.gt ↦ false
    | Ordering.eq ↦ elim (compare_text a.line_id b.line_id) [ Ordering.gt ↦ false | _ ↦ true ]
  ]

  abbrev pub insert_line : Line → List Line → List Line
  insert_line a [] = a ∷ []
  insert_line a (b ∷ bs) =
      let rest = insert_line a bs in if not_after a b then a ∷ b ∷ bs else b ∷ rest

  abbrev pub sort_lines : List Line → List Line
  sort_lines [] = []
  sort_lines (a ∷ rest) = insert_line a (sort_lines rest)

  -- What the call has for all the rows.
  pub record Request : Type 0 where
    pub correlation_id : String
    pub target : Line
    pub source_kind : SourceKind
    pub source_document_id : String
    pub source_document_version_id : String
    pub algorithm_version : String

  abbrev pub status_of : List Line → Status
  status_of lines =
      if length lines == 1
      then Status.resolved
      else if ltb 1 (length lines)
      then (if sources_agree p lines then Status.agreed else Status.ambiguous)
      else Status.ambiguous

  abbrev pub ambiguity_group_of : Request → List Line → Status → Option String
  ambiguity_group_of r lines Status.resolved = none
  ambiguity_group_of r lines Status.agreed = none
  ambiguity_group_of r lines Status.ambiguous = some (
      fingerprint (
        Fingerprinted.ambiguity r.algorithm_version r.correlation_id r.target.line_id
          r.source_document_version_id (map (λ line. line.line_id) lines)))

  abbrev pub fingerprint_of : Request → Line → String
  fingerprint_of r source =
      fingerprint (
        Fingerprinted.identity r.algorithm_version r.correlation_id r.target.line_id source.line_id)

  -- The row of one candidate among `lines`.
  abbrev pub row : Request → MatchBasis → List Line → Line → DerivedPriceAttribution p
  row r basis lines source =
      let status = status_of lines in
      let (unit_price, unit_origin) = effective_unit_price p source in
      let quantity_basis = (quantity_compatibility p r.target source).1 in
      record {
        id = uuid5 (fingerprint_of r source);
        correlation_id = r.correlation_id;
        target_document_id = r.target.document_id;
        target_document_version_id = r.target.document_version_id;
        target_line_id = r.target.line_id;
        source_document_id = r.source_document_id;
        source_document_version_id = r.source_document_version_id;
        source_line_id = source.line_id;
        observed_unit_price = unit_price;
        observed_line_total = normalise_money p source.line_total;
        target_quantity = r.target.quantity;
        source_quantity = source.quantity;
        source_kind = r.source_kind;
        match_basis = basis;
        algorithm_version = r.algorithm_version;
        confidence = confidence_of basis quantity_basis unit_origin status;
        status = status;
        criteria = record {
          candidate_count = length lines;
          candidate_price_signatures = map (price_signature p) lines;
          item_code_priority = elim basis [
            | MatchBasis.item_code_exact ↦ true
            | MatchBasis.description_normalized_exact ↦ false
          ];
          quantity_compatibility = quantity_basis;
          unit_price_origin = unit_origin;
          temporal_relation = relation_of r.target.observed_at source.observed_at;
          temporal_distance_seconds = distance_seconds r.target.observed_at source.observed_at;
        };
        ambiguity_group = ambiguity_group_of r lines status;
        attribution_fingerprint = fingerprint_of r source;
        source_observed_at = source.observed_at;
      }

  -- The loop over the sorted candidates `lines`.
  unfoldable pub rows :
      Request → MatchBasis → List Line → List Line → List (DerivedPriceAttribution p)
  rows r basis lines [] = []
  rows r basis lines (source ∷ sources) =
      let rest = rows r basis lines sources in
      if (quantity_compatibility p r.target source).0 then row r basis lines source ∷ rest else rest

  -- `derive_document_attributions`
  unfoldable pub derive_document_attributions :
      Request → List Line → List (DerivedPriceAttribution p)
  derive_document_attributions r source_lines =
      let (basis, found) = candidates p r.target source_lines in
      let lines = sort_lines found in elim basis [ none ↦ [] | some b ↦ rows r b lines lines ]
