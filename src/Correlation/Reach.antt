-- ===== src/Correlation/Reach.antt =====
-- The scores of the links of correlation/engine.py: their bound, and how far they reach in time.
use retail_print_guard.Base.{
  ℕ, ◌-◌, ◌≤◌, min, max, Bool, true, false, not, ◌||◌, Option, none, some, ◌≡◌, refl, ◌⊎◌, inl, inr,
  Bool-cases, arith, leb, ltb, if◌then◌else◌,
}
use retail_print_guard.Correlation.Types.{Platform, NormalizedDocument, PairScore}
use retail_print_guard.Correlation.Conflicts.{seconds, gap, document_time, compatible}
use retail_print_guard.Correlation.Score.{
  Engine, window, score_pair, or_pair, weights, pair_criteria, delta_of,
}
use retail_print_guard.Correlation.Links.{
  commercial_reference_pair, table_sale_sequence_pair, kitchen_management_baseline_pair,
  fiscal_siblings, same_table_change_pair, cross_department_dispatch_pair, reference_pair,
  suffix_pair, suffix_reference, reference_score, sale_sequence, baseline, change_sequence,
}
use retail_print_guard.Correlation.Pairs.{score_linked_pair, or_score}

module _ (p : Platform) (engine : Engine) where
  abbrev Document : Type 0
  Document = NormalizedDocument p

  -- The longest time between two linked documents: the window of the engine, or five minutes.
  abbrev pub reach : ℕ
  reach = max (window p engine) (seconds 300)

  -- A score is at most 100, and one above 0 joins documents that are near in time.
  abbrev pub IsSound : Document → Document → PairScore → Type 0
  IsSound left right s =
      (s.score ≤ 100)
      × ((s.score ≡ 0) ⊎ (gap (document_time p left) (document_time p right) ≤ reach))

  abbrev IsSoundLink : Document → Document → Option PairScore → Type 0
  IsSoundLink left right none = Unit
  IsSoundLink left right (some s) = IsSound left right s

  capped :
      (c : Bool) (d w n : ℕ)
      → let s = (if not c || not (leb d w) then 0 else min 100 n) in
        (s ≤ 100) × ((s ≡ 0) ⊎ (d ≤ max w (seconds 300)))
  capped true d w n = elim (Bool-cases (leb d w)) [
    | inl near ↦ rw near (ground arith, inr (ground (arith, near)))
    | inr far ↦ rw far (ground arith, inl refl)
  ]
  capped false d w n = (omega arith, inl refl)

  score_pair-IsSound : (left right : Document) → IsSound left right (score_pair p engine left right)
  unfolding score_pair
  score_pair-IsSound left right =
      capped (compatible p left right) (delta_of p engine left right) (window p engine)
        (weights (pair_criteria p engine left right))

  guarded :
      (left right : Document) (refused : Bool) (s : PairScore)
      → (refused ≡ false → IsSound left right s)
      → IsSoundLink left right (if refused then none else some s)
  guarded left right true s h = tt
  guarded left right false s h = h refl

  pub or_false : (a b : Bool) → (a || b) ≡ false → (a ≡ false) × (b ≡ false)
  or_false true b e = (cc, cc)
  or_false false b e = (refl, e)

  -- A link of at most 100 whose guard refuses documents that are too far apart.
  guarded_near :
      (left right : Document) (refused : Bool) (s : PairScore) (limit : ℕ)
      → s.score ≤ 100
      → limit ≤ reach
      → (refused ≡ false → gap (document_time p left) (document_time p right) ≤ limit)
      → IsSoundLink left right (if refused then none else some s)
  guarded_near left right refused s limit small le near =
      guarded left right refused s (λ e. (small, inr (omega (arith, near e))))

  -- The time between two documents, either way round.
  abbrev Apart : Document → Document → Document → Document → Type 0
  Apart left right first second =
      gap (document_time p left) (document_time p right)
      ≡ gap (document_time p first) (document_time p second)

  pub not_ltb : (a b : ℕ) → ltb a b ≡ false → b ≤ a
  not_ltb a b h = ground (arith, h)

  fiscal_siblings-IsSoundLink :
      (left right : Document) → IsSoundLink left right (fiscal_siblings p engine left right)
  unfolding fiscal_siblings
  fiscal_siblings-IsSoundLink left right =
      guarded_near left right _ _ (window p engine) (omega arith) (omega arith)
        (λ e. not_ltb _ _ (or_false _ _ (or_false _ _ e).0).1)

  dispatch-IsSoundLink :
      (left right : Document)
      → IsSoundLink left right (cross_department_dispatch_pair p engine left right)
  unfolding cross_department_dispatch_pair
  dispatch-IsSoundLink left right =
      guarded_near left right _ _ (seconds 30) (omega arith) (omega arith)
        (λ e. not_ltb _ _ (or_false _ _ e).1)

  -- The later document follows the earlier one within the limit.
  follows :
      (left right first second : Document) (limit : ℕ)
      → Apart left right first second
      → ltb (document_time p second) (document_time p first) ≡ false
      → ltb limit (document_time p second - document_time p first) ≡ false
      → gap (document_time p left) (document_time p right) ≤ limit
  follows left right first second limit apart ordered near =
      omega (arith, apart, not_ltb _ _ ordered, not_ltb _ _ near)

  sale_sequence-IsSoundLink :
      (left right source fiscal : Document)
      → Apart left right source fiscal
      → IsSoundLink left right (sale_sequence p engine left right source fiscal)
  sale_sequence-IsSoundLink left right source fiscal apart =
      guarded_near left right _ _ (seconds 300) (omega arith) (omega arith) (λ e.
        let f = (or_false _ _ e).0 in
        follows left right source fiscal (seconds 300) apart (or_false _ _ (or_false _ _ f).0).1
          (or_false _ _ f).1)

  baseline-IsSoundLink :
      (left right kitchen management : Document)
      → Apart left right kitchen management
      → IsSoundLink left right (baseline p engine left right kitchen management)
  baseline-IsSoundLink left right kitchen management apart =
      guarded_near left right _ _ (seconds 30) (omega arith) (omega arith) (λ e.
        follows left right kitchen management (seconds 30) apart (or_false _ _ (or_false _ _ e).0).1
          (or_false _ _ e).1)

  change_sequence-IsSoundLink :
      (left right kitchen change : Document)
      → Apart left right kitchen change
      → IsSoundLink left right (change_sequence p engine left right kitchen change)
  change_sequence-IsSoundLink left right kitchen change apart =
      guarded_near left right _ _ (seconds 300) (omega arith) (omega arith) (λ e.
        follows left right kitchen change (seconds 300) apart (or_false _ _ (or_false _ _ e).0).1
          (or_false _ _ e).1)

  -- A link that is looked for either way round.
  either_way :
      (left right : Document) (b : Bool) (x y : Option PairScore)
      → IsSoundLink left right x
      → IsSoundLink left right y
      → IsSoundLink left right (if b then x else y)
  either_way left right true x y hx hy = hx
  either_way left right false x y hx hy = hy

  guarded_link :
      (left right : Document) (refused : Bool) (o : Option PairScore)
      → (refused ≡ false → IsSoundLink left right o)
      → IsSoundLink left right (if refused then none else o)
  guarded_link left right true o h = tt
  guarded_link left right false o h = h refl

  suffix_pair-IsSoundLink :
      (left right fiscal referring : Document)
      → IsSoundLink left right (suffix_pair p engine left right fiscal referring)
  suffix_pair-IsSoundLink left right fiscal referring =
      guarded_near left right _ _ (seconds 300) (omega arith) (omega arith)
        (λ e. not_ltb _ _ (or_false _ _ e).1)

  exact_link :
      (left right : Document) (s : PairScore)
      → s.score ≤ 100
      → delta_of p engine left right ≤ window p engine
      → IsSoundLink left right (some s)
  exact_link left right s small near = (small, inr (omega arith))

  reference_pair-IsSoundLink :
      (left right fiscal referring : Document)
      → IsSoundLink left right (reference_pair p engine left right fiscal referring)
  reference_pair-IsSoundLink left right fiscal referring = guarded_link left right _ _ (λ e.
      let linked : IsSoundLink left right (some (reference_score p engine left right)) =
        exact_link left right (reference_score p engine left right) (omega arith)
          (not_ltb _ _ (or_false _ _ e).1) in
      either_way left right (suffix_reference p engine fiscal referring)
        (suffix_pair p engine left right fiscal referring)
        (some (reference_score p engine left right))
        (suffix_pair-IsSoundLink left right fiscal referring) linked)

  reference-IsSoundLink :
      (left right : Document)
      → IsSoundLink left right (commercial_reference_pair p engine left right)
  unfolding commercial_reference_pair
  reference-IsSoundLink left right =
      either_way left right _ _ _ (reference_pair-IsSoundLink left right left right)
        (reference_pair-IsSoundLink left right right left)

  sale-IsSoundLink :
      (left right : Document)
      → IsSoundLink left right (table_sale_sequence_pair p engine left right)
  unfolding table_sale_sequence_pair
  sale-IsSoundLink left right =
      either_way left right _ _ _ (sale_sequence-IsSoundLink left right left right refl)
        (sale_sequence-IsSoundLink left right right left (omega arith))

  baseline-link :
      (left right : Document)
      → IsSoundLink left right (kitchen_management_baseline_pair p engine left right)
  unfolding kitchen_management_baseline_pair
  baseline-link left right =
      either_way left right _ _ _ (baseline-IsSoundLink left right left right refl)
        (baseline-IsSoundLink left right right left (omega arith))

  change-IsSoundLink :
      (left right : Document) → IsSoundLink left right (same_table_change_pair p engine left right)
  unfolding same_table_change_pair
  change-IsSoundLink left right =
      either_way left right _ _ _ (change_sequence-IsSoundLink left right left right refl)
        (change_sequence-IsSoundLink left right right left (omega arith))

  or_pair-IsSoundLink :
      (left right : Document) (x y : Option PairScore)
      → IsSoundLink left right x
      → IsSoundLink left right y
      → IsSoundLink left right (or_pair x y)
  or_pair-IsSoundLink left right none y hx hy = hy
  or_pair-IsSoundLink left right (some s) y hx hy = hx

  or_score-IsSound :
      (left right : Document) (x : Option PairScore) (s : PairScore)
      → IsSoundLink left right x
      → IsSound left right s
      → IsSound left right (or_score x s)
  or_score-IsSound left right none s hx hs = hs
  or_score-IsSound left right (some r) s hx hs = hx

  pub score_linked_pair-IsSound :
      (left right : Document) → IsSound left right (score_linked_pair p engine left right)
  unfolding score_linked_pair
  score_linked_pair-IsSound left right =
      let or = or_pair-IsSoundLink left right in
      or_score-IsSound left right _ (score_pair p engine left right)
        (or _ _ (reference-IsSoundLink left right) (
          or _ _ (sale-IsSoundLink left right) (
            or _ _ (baseline-link left right) (
              or _ _ (fiscal_siblings-IsSoundLink left right)
                (or _ _ (change-IsSoundLink left right) (dispatch-IsSoundLink left right))))))
        (score_pair-IsSound left right)
