-- ===== src/Pricing/Persist.antt =====
-- `persist_transaction_price_attributions` of pricing/service.py: the documents of one sale, the
-- lines that are stored for them, and the rows that are added.
use retail_print_guard.Base.{
  ℕ, suc, String, Bool, true, false, not, ◌&&◌, ◌||◌, Option, none, some, List, [], ◌∷◌, ◌++◌, map,
  if◌then◌else◌, str_eq, is_some, is_empty, keep, any_of,
}
use retail_print_guard.Domain.{DocumentType}
use retail_print_guard.Base.Dict.{Dict, lookup}
use retail_print_guard.Pricing.Types.{
  Platform, PriceLineEvidence, DerivedPriceAttribution, SourceKind,
}
use retail_print_guard.Pricing.Attribution.{
  derive_document_attributions, price_attribution_algorithm,
}

abbrev pub contains_text : String → List String → Bool
contains_text s = any_of (str_eq s)

-- `_TARGET_TYPES`
abbrev pub is_target : DocumentType → Bool
is_target DocumentType.order = true
is_target DocumentType.order_change = true
is_target DocumentType.kitchen_order = true
is_target _ = false

-- `_SOURCE_KINDS`
abbrev pub source_kind_of : DocumentType → Option SourceKind
source_kind_of DocumentType.pre_bill = some SourceKind.prebill
source_kind_of DocumentType.management_document = some SourceKind.management
source_kind_of DocumentType.commercial_document = some SourceKind.fiscal
source_kind_of _ = none

-- The fields of a document that are read; the times count microseconds.
pub record NormalizedDocument : Type 0 where
  pub id : String
  pub kind : DocumentType
  pub complete : Bool
  pub document_timestamp : Option ℕ
  pub captured_at : ℕ

module _ (p : Platform) where
  open p use {Amount}

  pub record DocumentLine : Type 0 where
    pub id : String
    pub document_version_id : String
    pub sequence : ℕ
    pub item_code : Option String
    pub description : Option String
    pub quantity : Option Amount
    pub unit_price : Option Amount
    pub line_total : Option Amount
    pub cancelled : Bool
    pub removed : Bool

  -- The two tables that are read. `lines` lies in the order of the query: by version, sequence
  -- and id.
  pub record Tables : Type 0 where
    pub lines : List DocumentLine
    pub attributions : List (DerivedPriceAttribution p)

  abbrev or_else : Option ℕ → ℕ → ℕ
  or_else none n = n
  or_else (some m) n = m

  -- `_evidence_line`
  abbrev pub evidence_line : NormalizedDocument → String → DocumentLine → PriceLineEvidence p
  evidence_line document version_id line = record {
    line_id = line.id;
    document_id = document.id;
    document_version_id = version_id;
    sequence = line.sequence;
    item_code = line.item_code;
    description = line.description;
    quantity = line.quantity;
    unit_price = line.unit_price;
    line_total = line.line_total;
    observed_at = or_else document.document_timestamp document.captured_at;
  }

  -- `lines_by_version.get(version_id, [])`
  abbrev lines_of : String → List DocumentLine → List DocumentLine
  lines_of version_id lines = keep (λ line. str_eq line.document_version_id version_id) lines

  abbrev pub is_priced : DocumentLine → Bool
  is_priced line = is_some line.unit_price || is_some line.line_total

  abbrev pub target_evidence :
      NormalizedDocument → String → List DocumentLine → List (PriceLineEvidence p)
  target_evidence document version_id lines =
      map (evidence_line document version_id)
        (keep (λ line. not (is_some line.unit_price)) (lines_of version_id lines))

  abbrev pub source_evidence :
      NormalizedDocument → String → List DocumentLine → List (PriceLineEvidence p)
  source_evidence document version_id lines = map (evidence_line document version_id) (
      keep (λ line. not line.cancelled && not line.removed && is_priced line)
        (lines_of version_id lines))

  -- The loop over the lines of a target, for one source of some kind.
  unfoldable pub derive_lines :
      String
      → SourceKind
      → String
      → String
      → List (PriceLineEvidence p)
      → List (PriceLineEvidence p)
      → List (DerivedPriceAttribution p)
  derive_lines correlation_id kind document_id version_id sources [] = []
  derive_lines correlation_id kind document_id version_id sources (target ∷ targets) =
      derive_document_attributions p
        (record {
          correlation_id = correlation_id;
          target = target;
          source_kind = kind;
          source_document_id = document_id;
          source_document_version_id = version_id;
          algorithm_version = price_attribution_algorithm;
        })
        sources
      ++ derive_lines correlation_id kind document_id version_id sources targets

  abbrev derive_source :
      String
      → Dict String
      → List DocumentLine
      → List (PriceLineEvidence p)
      → NormalizedDocument
      → List (DerivedPriceAttribution p)
  derive_source correlation_id version_ids lines targets document =
      elim (lookup document.id version_ids) [
        | none ↦ []
        | some version_id ↦ elim (source_kind_of document.kind) [
          | none ↦ []
          | some kind ↦
              if is_empty (source_evidence document version_id lines)
              then []
              else derive_lines correlation_id kind document.id version_id
                  (source_evidence document version_id lines) targets
        ]
      ]

  -- The loop over the sources, for the lines of one target document.
  unfoldable pub derive_sources :
      String
      → Dict String
      → List DocumentLine
      → List (PriceLineEvidence p)
      → List NormalizedDocument
      → List (DerivedPriceAttribution p)
  unfolding lookup
  derive_sources correlation_id version_ids lines targets [] = []
  derive_sources correlation_id version_ids lines targets (document ∷ documents) =
      derive_source correlation_id version_ids lines targets document
      ++ derive_sources correlation_id version_ids lines targets documents

  -- The loop over the targets.
  unfoldable pub derive_targets :
      String
      → Dict String
      → List DocumentLine
      → List NormalizedDocument
      → List NormalizedDocument
      → List (DerivedPriceAttribution p)
  unfolding lookup
  derive_targets correlation_id version_ids lines sources [] = []
  derive_targets correlation_id version_ids lines sources (document ∷ documents) =
      elim (lookup document.id version_ids) [
        | none ↦ []
        | some version_id ↦
            derive_sources correlation_id version_ids lines
              (target_evidence document version_id lines) sources
      ]
      ++ derive_targets correlation_id version_ids lines sources documents

  -- The loop that adds rows: how many it adds, and which. `existing` are the fingerprints that
  -- the table has.
  unfoldable pub add_missing :
      List (DerivedPriceAttribution p) → List String → ℕ × List (DerivedPriceAttribution p)
  add_missing [] existing = (0, [])
  add_missing (item ∷ items) existing =
      let known_before = contains_text item.attribution_fingerprint existing in
      let (inserted, added) =
        add_missing items
          (if known_before then existing else item.attribution_fingerprint ∷ existing) in
      if known_before then (inserted, added) else (suc inserted, item ∷ added)

  abbrev pub fingerprints : List (DerivedPriceAttribution p) → List String
  fingerprints = map (λ item. item.attribution_fingerprint)

  abbrev pub targets_of : List NormalizedDocument → List NormalizedDocument
  targets_of = keep (λ d. is_target d.kind)

  -- An incomplete document prices nothing.
  abbrev pub sources_of : List NormalizedDocument → List NormalizedDocument
  sources_of = keep (λ d. is_some (source_kind_of d.kind) && d.complete)

  -- The early returns: no target, no source, or no version of any of them.
  unfoldable pub nothing_to_price : List NormalizedDocument → Dict String → Bool
  unfolding lookup
  nothing_to_price documents version_ids =
      is_empty (targets_of documents)
      || is_empty (sources_of documents)
      || not (
          any_of (λ d. is_some (lookup d.id version_ids))
            (targets_of documents ++ sources_of documents))

  abbrev pub derived :
      String
      → List NormalizedDocument
      → Dict String
      → List DocumentLine
      → List (DerivedPriceAttribution p)
  derived correlation_id documents version_ids lines =
      derive_targets correlation_id version_ids lines (sources_of documents) (targets_of documents)

  -- The fingerprints of the derived rows that the table has.
  abbrev pub existing_among :
      List (DerivedPriceAttribution p) → List (DerivedPriceAttribution p) → List String
  existing_among items stored =
      keep (λ f. contains_text f (fingerprints items)) (fingerprints stored)

  abbrev pub store :
      List (DerivedPriceAttribution p)
      → List (DerivedPriceAttribution p)
      → ℕ × List (DerivedPriceAttribution p)
  store items stored =
      let (inserted, added) = add_missing items (existing_among items stored) in
      (inserted, stored ++ added)

  -- `persist_transaction_price_attributions`: how many rows are added, and the tables after it.
  unfoldable pub persist_transaction_price_attributions :
      String → List NormalizedDocument → Dict String → Tables → ℕ × Tables
  persist_transaction_price_attributions correlation_id documents version_ids tables =
      let items = derived correlation_id documents version_ids tables.lines in
      let (inserted, attributions) = store items tables.attributions in
      if nothing_to_price documents version_ids
      then (0, tables)
      else (inserted, record tables { attributions = attributions })
