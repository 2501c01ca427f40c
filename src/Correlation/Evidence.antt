-- ===== src/Correlation/Evidence.antt =====
-- What ties the documents of one group in `_build_transaction` of correlation/engine.py: the relevant
-- edges, the score and the criteria.
use Prim.Native.String.{◌++◌ as ◌+++◌}
use retail_print_guard.Base.{
  ℕ, String, Bool, not, ◌&&◌, ◌||◌, Option, none, some, List, [], ◌∷◌, ◌++◌, str_eq, leb, keep, map,
  concat, length, min, max,
}
use retail_print_guard.Base.Sort.{member, sorted_set}
use retail_print_guard.Correlation.Types.{
  Platform, NormalizedDocument, Criterion, CorrelationResult,
}
use retail_print_guard.Correlation.Score.{Engine}
use retail_print_guard.Correlation.Groups.{Edge}

-- `a - b`
abbrev without : List String → List String → List String
without xs ys = keep (λ x. not (member x ys)) xs

-- `separator.join(texts)`
abbrev pub join_with : String → List String → String
join_with separator [] = ""
join_with separator (s ∷ []) = s
join_with separator (s ∷ t ∷ rest) = s +++ (separator +++ join_with separator (t ∷ rest))

abbrev pub highest : List ℕ → ℕ
highest [] = 0
highest (n ∷ ns) = max n (highest ns)

-- `min(per_document)` of a list that is not empty.
abbrev pub lowest : ℕ → List ℕ → ℕ
lowest n [] = n
lowest n (m ∷ ms) = min n (lowest m ms)

module _ (p : Platform) (engine : Engine) where
  open p use {
    Amount, zero_amount, hundred, plus, minus, times, over, quantize, same, at_most, digits, format,
  }

  abbrev Document : Type 0
  Document = NormalizedDocument p

  abbrev pub joins : Document → Document → Edge p engine → Bool
  joins a b e =
      str_eq e.ends.0.id a.id && str_eq e.ends.1.id b.id
      || str_eq e.ends.0.id b.id && str_eq e.ends.1.id a.id

  -- The edges between a document and the later ones that pass the minimum.
  abbrev pub linked_later : Document → List Document → List (Edge p engine) → List (Edge p engine)
  linked_later a [] edges = []
  linked_later a (b ∷ bs) edges =
      keep (λ e. joins a b e && leb engine.minimum_score e.score) edges ++ linked_later a bs edges

  abbrev pub relevant_edges : List Document → List (Edge p engine) → List (Edge p engine)
  relevant_edges [] edges = []
  relevant_edges (d ∷ ds) edges = linked_later d ds edges ++ relevant_edges ds edges

  abbrev pub is_end : Document → Edge p engine → Bool
  is_end d e = str_eq d.id e.ends.0.id || str_eq d.id e.ends.1.id

  -- `max(linked, default=0)`
  abbrev pub best_link : List (Edge p engine) → Document → ℕ
  best_link relevant d = highest (map (λ e. e.score) (keep (is_end d) relevant))

  abbrev criteria_of : List (Edge p engine) → List Criterion
  criteria_of relevant = concat (map (λ e. e.pair_score.criteria) relevant)

  abbrev matched_of : List (Edge p engine) → List Criterion
  matched_of relevant = keep (λ c. c.matched) (criteria_of relevant)

  abbrev unmatched_of : List (Edge p engine) → List Criterion
  unmatched_of relevant = keep (λ c. not c.matched) (criteria_of relevant)

  abbrev names : List Criterion → List String
  names criteria = map (λ c. c.name) criteria

  -- `min(per_document)`
  abbrev score_of : Document → List Document → List (Edge p engine) → ℕ
  score_of d ds relevant = lowest (best_link relevant d) (map (best_link relevant) ds)

  abbrev explanation_of : ℕ → ℕ → List String → List String → String
  explanation_of count score matched details =
      digits count
      +++ (" documenti collegati con punteggio minimo "
          +++ (digits score
              +++ ("; criteri: "
                  +++ (join_with ", " matched +++ ("; evidenze: " +++ join_with "; " details)))))

  -- The CorrelationResult of a group of several documents.
  abbrev explain : String → Document → List Document → List (Edge p engine) → CorrelationResult
  explain transaction_id d ds relevant =
      let matched = sorted_set (names (matched_of relevant)) in
      record {
        transaction_id = transaction_id;
        document_ids = map (λ e. e.id) (d ∷ ds);
        score = score_of d ds relevant;
        algorithm_version = "rpg-correlation-1.5.0";
        matched_criteria = matched;
        unmatched_criteria = sorted_set (without (names (unmatched_of relevant)) matched);
        explanation =
            explanation_of (length (d ∷ ds)) (score_of d ds relevant) matched
              (sorted_set (map (λ c. format c.detail) (matched_of relevant)));
      }

  unfoldable pub correlation_of :
      String → List Document → List (Edge p engine) → Option CorrelationResult
  correlation_of transaction_id [] edges = none
  correlation_of transaction_id (d ∷ []) edges = none
  correlation_of transaction_id (d ∷ e ∷ rest) edges =
      some (explain transaction_id d (e ∷ rest) (relevant_edges (d ∷ e ∷ rest) edges))
