-- ===== src/Pricing/Match.antt =====
-- The match of one line against the lines of a document, of pricing/service.py: normalisation,
-- quantities, prices, candidates, and whether the candidates agree.
use retail_print_guard.Base.{
  String, Bool, true, false, not, ◌&&◌, ◌||◌, ◌==◌, leb, Option, none, some, List, [], ◌∷◌, map,
  if◌then◌else◌, str_eq, opt_eq, is_some, is_empty, length, all_of, keep,
}
use retail_print_guard.Pricing.Types.{
  Platform, PriceLineEvidence, MatchBasis, QuantityBasis, UnitOrigin,
}

-- `text or None`
abbrev or_none : String → Option String
or_none s = if str_eq s "" then none else some s

-- The elements that are there.
abbrev pub known {ℓ} : {A : Type ℓ} → List (Option A) → List A
known [] = []
known (none ∷ xs) = known xs
known (some x ∷ xs) = x ∷ known xs

-- The members of a set, each once.
abbrev pub distinct {ℓ} : {A : Type ℓ} → (A → A → Bool) → List A → List A
distinct same [] = []
distinct same (x ∷ xs) = x ∷ keep (λ y. not (same x y)) (distinct same xs)

module _ (p : Platform) where
  open p use {Amount, quantize, quotient, is_zero, same, same_abs, strip, fold}

  abbrev Line : Type 0
  Line = PriceLineEvidence p

  abbrev pub normalise_code : Option String → Option String
  normalise_code none = none
  normalise_code (some value) = or_none (strip value)

  abbrev pub normalise_description : Option String → Option String
  normalise_description none = none
  normalise_description (some value) = or_none (fold value)

  abbrev pub normalise_money : Option Amount → Option Amount
  normalise_money none = none
  normalise_money (some value) = some (quantize value)

  abbrev derived_price : Option Amount → Option Amount → Option Amount × UnitOrigin
  derived_price none quantity = (none, UnitOrigin.unavailable)
  derived_price (some total) none = (none, UnitOrigin.unavailable)
  derived_price (some total) (some quantity) =
      if is_zero quantity
      then (none, UnitOrigin.unavailable)
      else (some (quantize (quotient total quantity)), UnitOrigin.derived_from_observed_line_total)

  -- `_effective_unit_price`
  abbrev pub effective_unit_price : Line → Option Amount × UnitOrigin
  effective_unit_price line = elim line.unit_price [
    | some price ↦ (some (quantize price), UnitOrigin.observed_unit_price)
    | none ↦ derived_price line.line_total line.quantity
  ]

  abbrev compare_quantities : Option Amount → Option Amount → Bool × QuantityBasis
  compare_quantities none source = (true, QuantityBasis.unknown)
  compare_quantities (some target) none = (true, QuantityBasis.unknown)
  compare_quantities (some target) (some source) =
      if same_abs target source
      then (true, QuantityBasis.absolute_exact)
      else (false, QuantityBasis.conflict)

  -- `_quantity_compatibility`
  abbrev pub quantity_compatibility : Line → Line → Bool × QuantityBasis
  quantity_compatibility target source = compare_quantities target.quantity source.quantity

  -- `_price_signature`
  abbrev pub price_signature : Line → Option Amount × Option Amount
  price_signature line = ((effective_unit_price line).0, normalise_money line.line_total)

  -- `_has_observed_amount`
  abbrev pub has_observed_amount : Line → Bool
  has_observed_amount line = is_some line.unit_price || is_some line.line_total

  -- The condition of both generators of `_candidates`, on the text that each compares.
  abbrev pub matches : Option String → String → Line → Line → Bool
  matches found wanted target source =
      opt_eq found (some wanted)
      && (quantity_compatibility target source).0
      && has_observed_amount source

  abbrev pub by_code : Line → List Line → List Line
  by_code target sources = elim (normalise_code target.item_code) [
    | none ↦ []
    | some code ↦ keep (λ s. matches (normalise_code s.item_code) code target s) sources
  ]

  abbrev pub by_description : Line → List Line → List Line
  by_description target sources = elim (normalise_description target.description) [
    | none ↦ []
    | some text ↦ keep (λ s. matches (normalise_description s.description) text target s) sources
  ]

  -- `_candidates`
  unfoldable pub candidates : Line → List Line → Option MatchBasis × List Line
  candidates target sources =
      if not (is_empty (by_code target sources))
      then (some MatchBasis.item_code_exact, by_code target sources)
      else if not (is_empty (by_description target sources))
      then (some MatchBasis.description_normalized_exact, by_description target sources)
      else (none, [])

  -- `_sources_agree`
  unfoldable pub sources_agree : List Line → Bool
  sources_agree lines =
      let units = map (λ line. (price_signature line).0) lines in
      let totals = map (λ line. (price_signature line).1) lines in
      let unit_prices = length (distinct same (known units)) in
      let line_totals = length (distinct same (known totals)) in
      if all_of is_some units
      then unit_prices == 1 && leb line_totals 1
      else if all_of is_some totals
      then line_totals == 1 && leb unit_prices 1
      else false
