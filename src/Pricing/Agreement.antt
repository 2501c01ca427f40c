-- ===== src/Pricing/Agreement.antt =====
-- What it means for the candidates of one line that `_sources_agree` of pricing/service.py holds.
use retail_print_guard.Base.{
  ◌≤◌, Bool, true, Option, none, some, List, [], ◌∷◌, map, ◌≡◌, refl, sym, subst, ◌∙◌, inl, inr,
  All, In, All-In, Bool-cases, length, arith,
}
use retail_print_guard.Pricing.Types.{
  Platform, PriceLineEvidence, DerivedPriceAttribution, MatchBasis, Status,
}
use retail_print_guard.Pricing.Match.{
  distinct, known, sources_agree, price_signature, candidates, quantity_compatibility,
}
use retail_print_guard.Pricing.Attribution.{
  Request, rows, derive_document_attributions, sort_lines, status_of,
}
use retail_print_guard.Pricing.Sets.{In-known, In-map, All-lookup, IsEquality, same_of_few}

module _ (p : Platform) where
  open p use {Amount, same}

  abbrev Line : Type 0
  Line = PriceLineEvidence p

  abbrev Row : Type 0
  Row = DerivedPriceAttribution p

  -- No two lines have different unit prices, and no two have different totals.
  record Agrees (lines : List Line) : Type 0 where
    units :
        (s t : Line) (x y : Amount)
        → In s lines
        → In t lines
        → (price_signature p s).0 ≡ some x
        → (price_signature p t).0 ≡ some y
        → same x y ≡ true
    totals :
        (s t : Line) (x y : Amount)
        → In s lines
        → In t lines
        → (price_signature p s).1 ≡ some x
        → (price_signature p t).1 ≡ some y
        → same x y ≡ true

  few_amounts :
      (lines : List Line)
      → sources_agree p lines ≡ true
      → (length (distinct same (known (map (λ line. (price_signature p line).0) lines))) ≤ 1)
        × (length (distinct same (known (map (λ line. (price_signature p line).1) lines))) ≤ 1)
  unfolding sources_agree
  few_amounts lines h = (ground (arith, h), ground (arith, h))

  In-amounts :
      (f : Line → Option Amount) (s : Line) (x : Amount) (lines : List Line)
      → In s lines
      → f s ≡ some x
      → In x (known (map f lines))
  In-amounts f s x lines h e =
      In-known x (map f lines) (subst (λ o. In o (map f lines)) e (In-map f s lines h))

  Agrees_lem : (lines : List Line) → IsEquality same → sources_agree p lines ≡ true → Agrees lines
  Agrees_lem lines laws h =
      let (few_units, few_totals) = few_amounts lines h in
      record {
        units = λ s t x y hs ht ex ey.
            same_of_few same laws _ x y few_units
              (In-amounts (λ line. (price_signature p line).0) s x lines hs ex)
              (In-amounts (λ line. (price_signature p line).0) t y lines ht ey);
        totals = λ s t x y hs ht ex ey.
            same_of_few same laws _ x y few_totals
              (In-amounts (λ line. (price_signature p line).1) s x lines hs ex)
              (In-amounts (λ line. (price_signature p line).1) t y lines ht ey);
      }

  -- The candidate that a row was made from.
  record Comes (lines : List Line) (a : Row) : Type 0 where
    source : Line
    listed : In source lines
    unit : a.observed_unit_price ≡ (price_signature p source).0
    total : a.observed_line_total ≡ (price_signature p source).1
    graded : a.status ≡ status_of p lines

  rows-Comes :
      (r : Request p) (b : MatchBasis) (lines todo : List Line)
      → All (λ s. In s lines) todo
      → All (Comes lines) (rows p r b lines todo)
  unfolding rows
  rows-Comes r b lines [] h = tt
  rows-Comes r b lines (s ∷ todo) h = elim (Bool-cases (quantity_compatibility p r.target s).0) [
    | inl fits ↦ rw fits (
      record { source = s; listed = h.0; unit = refl; total = refl; graded = refl },
      rows-Comes r b lines todo h.1,
    )
    | inr conflicts ↦ rw conflicts (rows-Comes r b lines todo h.1)
  ]

  status_of-agreed :
      (lines : List Line) → status_of p lines ≡ Status.agreed → sources_agree p lines ≡ true
  status_of-agreed lines h = ground (arith, h)

  -- Where both amounts are there they are the same.
  abbrev pub same_known : Option Amount → Option Amount → Bool
  same_known none y = true
  same_known (some x) none = true
  same_known (some x) (some y) = same x y

  same_known_lem :
      (o q : Option Amount)
      → ((x y : Amount) → o ≡ some x → q ≡ some y → same x y ≡ true)
      → same_known o q ≡ true
  same_known_lem none q h = refl
  same_known_lem (some x) none h = refl
  same_known_lem (some x) (some y) h = h x y refl refl

  rows_agree :
      (lines : List Line) (a b : Row)
      → IsEquality same
      → Comes lines a
      → Comes lines b
      → a.status ≡ Status.agreed
      → (same_known a.observed_unit_price b.observed_unit_price ≡ true)
        × (same_known a.observed_line_total b.observed_line_total ≡ true)
  rows_agree lines a b laws from_a from_b h =
      let agree = Agrees_lem lines laws (status_of-agreed lines (sym from_a.graded ∙ h)) in
      (
        same_known_lem a.observed_unit_price b.observed_unit_price (λ x y ex ey.
            agree.units from_a.source from_b.source x y from_a.listed from_b.listed
              (sym from_a.unit ∙ ex) (sym from_b.unit ∙ ey)),
        same_known_lem a.observed_line_total b.observed_line_total (λ x y ex ey.
            agree.totals from_a.source from_b.source x y from_a.listed from_b.listed
              (sym from_a.total ∙ ex) (sym from_b.total ∙ ey)),
      )

  unfoldable rows_of : Request p → Option MatchBasis × List Line → List Row
  rows_of r (none, found) = []
  rows_of r (some b, found) = rows p r b (sort_lines p found) (sort_lines p found)

  derive-rows_of :
      (r : Request p) (sources : List Line)
      → derive_document_attributions p r sources ≡ rows_of r (candidates p r.target sources)
  unfolding derive_document_attributions rows_of
  derive-rows_of r sources = on_found (candidates p r.target sources)
    where
      on_found :
          (found : Option MatchBasis × List Line)
          → (elim found.0 [
            | none ↦ []
            | some b ↦ rows p r b (sort_lines p found.1) (sort_lines p found.1)
          ])
            ≡ rows_of r found
      on_found (none, found) = refl
      on_found (some b, found) = refl

  rows_of-Comes :
      (r : Request p) (found : Option MatchBasis × List Line)
      → All (Comes (sort_lines p found.1)) (rows_of r found)
  unfolding rows_of
  rows_of-Comes r (none, found) = tt
  rows_of-Comes r (some b, found) = rows-Comes r b _ _ (All-In (sort_lines p found))

  -- Of the rows that are derived for one line from one document, if one says AGREED, then its unit
  -- price and that of any other row are the same where both are known, and so are their totals.
  pub agreed_rows_agree :
      (r : Request p) (sources : List Line) (a b : Row)
      → IsEquality same
      → In a (derive_document_attributions p r sources)
      → In b (derive_document_attributions p r sources)
      → a.status ≡ Status.agreed
      → (same_known a.observed_unit_price b.observed_unit_price ≡ true)
        × (same_known a.observed_line_total b.observed_line_total ≡ true)
  agreed_rows_agree r sources a b laws ha hb h =
      let found = candidates p r.target sources in
      let come =
        subst (All (Comes (sort_lines p found.1))) (sym (derive-rows_of r sources))
          (rows_of-Comes r found) in
      rows_agree (sort_lines p found.1) a b laws (All-lookup _ a _ come ha)
        (All-lookup _ b _ come hb) h
