-- ===== src/Pricing/Types.antt =====
-- The values of pricing/service.py, and what it takes from Python's decimal, unicodedata, hashlib
-- and uuid modules.
use retail_print_guard.Base.{ℕ, String, Bool, Option, List}

pub data SourceKind : Type 0 where
  prebill management fiscal : SourceKind

pub data MatchBasis : Type 0 where
  item_code_exact description_normalized_exact : MatchBasis

pub data Status : Type 0 where
  resolved agreed ambiguous : Status

pub data QuantityBasis : Type 0 where
  unknown absolute_exact conflict : QuantityBasis

pub data UnitOrigin : Type 0 where
  observed_unit_price derived_from_observed_line_total unavailable : UnitOrigin

pub data TemporalRelation : Type 0 where
  source_after_target source_before_target simultaneous : TemporalRelation

-- The two dictionaries that `_fingerprint` is called with.
pub data Fingerprinted : Type 0 where
  identity :
      (algorithm_version correlation_id target_line_id source_line_id : String) → Fingerprinted
  ambiguity :
      (algorithm_version correlation_id target_line_id source_document_version_id : String)
      → List String
      → Fingerprinted

-- `Amount` is Decimal; `quotient a b` is `a / abs(b)`, `same_abs` compares absolute values,
-- `same` is `==`. `strip` is that of texts, `fold` is NFKC, case folding and single spaces.
-- `fingerprint` is SHA-256 over canonical JSON, `uuid5` names a fingerprint.
pub record Platform : Type 1 where
  pub Amount : Type 0
  pub quantize : Amount → Amount
  pub quotient : Amount → Amount → Amount
  pub is_zero : Amount → Bool
  pub same : Amount → Amount → Bool
  pub same_abs : Amount → Amount → Bool
  pub strip : String → String
  pub fold : String → String
  pub fingerprint : Fingerprinted → String
  pub uuid5 : String → String

module _ (p : Platform) where
  open p use {Amount}

  -- `observed_at` counts microseconds.
  pub record PriceLineEvidence : Type 0 where
    pub line_id : String
    pub document_id : String
    pub document_version_id : String
    pub sequence : ℕ
    pub item_code : Option String
    pub description : Option String
    pub quantity : Option Amount
    pub unit_price : Option Amount
    pub line_total : Option Amount
    pub observed_at : ℕ

  pub record Criteria : Type 0 where
    pub candidate_count : ℕ
    pub candidate_price_signatures : List (Option Amount × Option Amount)
    pub item_code_priority : Bool
    pub quantity_compatibility : QuantityBasis
    pub unit_price_origin : UnitOrigin
    pub temporal_relation : TemporalRelation
    pub temporal_distance_seconds : ℕ

  -- `confidence` counts ten-thousandths.
  pub record DerivedPriceAttribution : Type 0 where
    pub id : String
    pub correlation_id : String
    pub target_document_id : String
    pub target_document_version_id : String
    pub target_line_id : String
    pub source_document_id : String
    pub source_document_version_id : String
    pub source_line_id : String
    pub observed_unit_price : Option Amount
    pub observed_line_total : Option Amount
    pub target_quantity : Option Amount
    pub source_quantity : Option Amount
    pub source_kind : SourceKind
    pub match_basis : MatchBasis
    pub algorithm_version : String
    pub confidence : ℕ
    pub status : Status
    pub criteria : Criteria
    pub ambiguity_group : Option String
    pub attribution_fingerprint : String
    pub source_observed_at : ℕ
