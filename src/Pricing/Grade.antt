-- ===== src/Pricing/Grade.antt =====
-- What the rows that are derived for a line have in common: the candidates they come from, and the
-- bounds of their confidence.
use retail_print_guard.Base.{ℕ, ◌≤◌, true, Option, none, some, List, [], ◌≡◌, All, In, is_some}
use retail_print_guard.Pricing.Types.{
  Platform, PriceLineEvidence, DerivedPriceAttribution, MatchBasis, Status,
}
use retail_print_guard.Pricing.Match.{
  by_code, normalise_code, normalise_description, quantity_compatibility, has_observed_amount,
}
use retail_print_guard.Pricing.Attribution.{Request}

-- The bounds of a confidence under each status.
abbrev pub InBounds : Status → ℕ → Type 0
InBounds Status.resolved n = (6500 ≤ n) × (n ≤ 9800)
InBounds Status.agreed n = (6600 ≤ n) × (n ≤ 9900)
InBounds Status.ambiguous n = n ≡ 4900

module _ (p : Platform) where
  abbrev Line : Type 0
  Line = PriceLineEvidence p

  -- Why `source` may price the target: the codes are equal, or the descriptions are and no listed
  -- line with the target's code has a compatible quantity and an observed amount.
  abbrev pub IsMatch : Line → List Line → MatchBasis → Line → Type 0
  IsMatch target sources MatchBasis.item_code_exact source =
      (normalise_code p source.item_code ≡ normalise_code p target.item_code)
      × (is_some (normalise_code p target.item_code) ≡ true)
  IsMatch target sources MatchBasis.description_normalized_exact source =
      (normalise_description p source.description ≡ normalise_description p target.description)
      × (is_some (normalise_description p target.description) ≡ true)
      × (by_code p target sources ≡ [])

  -- A line of the document that may price the target under a basis.
  pub record IsCandidate (target : Line) (sources : List Line) (basis : MatchBasis) (source : Line)
      : Type 0 where
    pub listed : In source sources
    pub fits : (quantity_compatibility p target source).0 ≡ true
    pub priced : has_observed_amount p source ≡ true
    pub matched : IsMatch target sources basis source

  -- The lines that were found under some basis are candidates under it.
  unfoldable Supported : Line → List Line → Option MatchBasis × List Line → Type 0
  Supported target sources (none, found) = Unit
  Supported target sources (some basis, found) = All (IsCandidate target sources basis) found

  -- What a row says is so.
  pub record IsJustified (r : Request p) (sources : List Line) (a : DerivedPriceAttribution p)
      : Type 0 where
    pub source : Line
    pub named : a.source_line_id ≡ source.line_id
    pub candidate : IsCandidate r.target sources a.match_basis source
    pub bounded : InBounds a.status a.confidence
