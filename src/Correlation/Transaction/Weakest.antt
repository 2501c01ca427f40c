-- ===== src/Correlation/Transaction/Weakest.antt =====
-- The score of a transaction in correlation/engine.py.
use retail_print_guard.Base.{
  ℕ, ◌≤◌, String, Bool, true, false, ◌&&◌, ◌||◌, some, ◌≡◌, refl, sym, ◌∙◌, subst, inl, inr, ◌⊎◌,
  List, [], ◌∷◌, All, All-map, All-zip, All-In, All-keep, In-All, map, In, keep, min, max, arith,
  str_eq, and_split, and_join, Bool-cases,
}
use retail_print_guard.Correlation.Types.{Platform, NormalizedDocument, CorrelationResult}
use retail_print_guard.Correlation.Score.{Engine}
use retail_print_guard.Correlation.Groups.{Edge}
use retail_print_guard.Correlation.Evidence.{
  lowest, highest, best_link, is_end, relevant_edges, correlation_of,
}
use retail_print_guard.Correlation.Transaction.Relevant.{
  In-keep, is_inside, is_named, Found, relevant_edges-Found, In-relevant_edges,
}

min_cases : (m n : ℕ) → (min m n ≡ m) ⊎ (min m n ≡ n)
min_cases m n = ground arith

max_cases : (m n : ℕ) → (max m n ≡ m) ⊎ (max m n ≡ n)
max_cases m n = ground arith

module _ {A : Type 0} (f : A → ℕ) where
  lowest_le : (a : A) (rest : List A) → All (λ b. lowest (f a) (map f rest) ≤ f b) (a ∷ rest)
  lowest_le a [] = (omega arith, tt)
  lowest_le a (b ∷ rest) =
      (omega arith, All-map _ _ (b ∷ rest) (λ c le. omega (arith, le)) (lowest_le b rest))

  lowest-In :
      (a : A) (rest : List A) → (b : A) × (In b (a ∷ rest) × (lowest (f a) (map f rest) ≡ f b))
  lowest-In a [] = (a, (inl refl, refl))
  lowest-In a (b ∷ rest) = elim (min_cases (f a) (lowest (f b) (map f rest))) [
    | inl e ↦ (a, (inl refl, e))
    | inr e ↦ let (d, (here, same)) = lowest-In b rest in (d, (inr here, e ∙ same))
  ]

  highest_ge : (xs : List A) → All (λ b. f b ≤ highest (map f xs)) xs
  highest_ge [] = tt
  highest_ge (a ∷ xs) = (omega arith, All-map _ _ xs (λ c le. omega (arith, le)) (highest_ge xs))

  highest-In :
      (xs : List A) → (highest (map f xs) ≡ 0) ⊎ ((b : A) × (In b xs × (highest (map f xs) ≡ f b)))
  highest-In [] = inl refl
  highest-In (a ∷ xs) = elim (max_cases (f a) (highest (map f xs))) [
    | inl e ↦ inr (a, (inl refl, e))
    | inr e ↦ elim (highest-In xs) [
      | inl none_above ↦ inl (e ∙ none_above)
      | inr (b, (here, same)) ↦ inr (b, (inr here, e ∙ same))
    ]
  ]

module _ (p : Platform) (engine : Engine) where
  abbrev Document : Type 0
  Document = NormalizedDocument p

  -- The edge passes the minimum, joins two documents of the list, and the document is one of them.
  abbrev pub is_link : List Document → Document → Edge p engine → Bool
  is_link documents d e =
      is_inside p engine documents e && (str_eq d.id e.ends.0.id || str_eq d.id e.ends.1.id)

  -- The document has a link of at least that score, or the score is 0.
  abbrev pub Reaches : ℕ → List Document → List (Edge p engine) → Document → Type 0
  Reaches score documents edges d =
      (score ≡ 0)
      ⊎ ((e : Edge p engine) × (In e edges × ((is_link documents d e ≡ true) × (score ≤ e.score))))

  -- Every edge is none of the document's links, or has at most that score.
  abbrev pub NoneAbove : ℕ → List Document → List (Edge p engine) → Document → Type 0
  NoneAbove score documents edges d =
      All (λ e. (is_link documents d e ≡ false) ⊎ (e.score ≤ score)) edges

  explained : {A : Type 0} {a b : A} → some a ≡ some b → a ≡ b
  explained h = cc h

  module _ (documents : List Document) (edges : List (Edge p engine)) where
    abbrev relevant : List (Edge p engine)
    relevant = relevant_edges p engine documents edges

    best_link-Reaches :
        (score : ℕ) (d : Document)
        → score ≤ best_link p engine relevant d
        → Reaches score documents edges d
    best_link-Reaches score d le =
        elim (highest-In (λ e. e.score) (keep (is_end p engine d) relevant)) [
          | inl nothing ↦ inl (omega (arith, le, nothing))
          | inr (e, (here, same)) ↦
              let (found, is_one) =
                In-All _ e (keep (is_end p engine d) relevant)
                  (All-keep (Found p engine edges documents) (is_end p engine d) relevant
                    (relevant_edges-Found p engine edges documents))
                  here in
              inr (e, (found.0, (and_join _ _ found.1 is_one, omega (arith, le, same))))
        ]

    link-le :
        (d : Document) (e : Edge p engine)
        → In e edges
        → str_eq e.ends.0.id e.ends.1.id ≡ false
        → is_link documents d e ≡ true
        → e.score ≤ best_link p engine relevant d
    link-le d e here differ link =
        let (inside, is_one) = and_split _ (is_end p engine d e) link in
        let (passes, named) =
          and_split _
            (is_named p engine e.ends.0.id documents && is_named p engine e.ends.1.id documents)
            inside in
        let (first, second) = and_split _ (is_named p engine e.ends.1.id documents) named in
        In-All (λ f. f.score ≤ best_link p engine relevant d) e (keep (is_end p engine d) relevant)
          (highest_ge (λ f. f.score) (keep (is_end p engine d) relevant))
          (In-keep (is_end p engine d) e relevant
            (In-relevant_edges p engine edges e here passes documents differ first second) is_one)

    best_link-NoneAbove :
        (d : Document)
        → All (λ e. str_eq e.ends.0.id e.ends.1.id ≡ false) edges
        → NoneAbove (best_link p engine relevant d) documents edges d
    best_link-NoneAbove d differ =
        All-zip (λ e. In e edges) (λ e. str_eq e.ends.0.id e.ends.1.id ≡ false)
          (λ e. (is_link documents d e ≡ false) ⊎ (e.score ≤ best_link p engine relevant d)) edges
          (λ e here apart. elim (Bool-cases (is_link documents d e)) [
            | inl link ↦ inr (link-le d e here apart link)
            | inr other ↦ inl other
          ])
          (All-In edges) differ

  -- Where every edge joins two ids, the result of a group of several documents names all of them, in order,
  -- and its score is the greatest that each document reaches: every document has an edge of at least
  -- that score, and of at least the minimum, to a document of the group, unless the score is 0; and
  -- there is a document that has no such edge above it.
  pub correlation_of-IsWeakest :
      (transaction_id : String) (documents : List Document) (edges : List (Edge p engine))
      (result : CorrelationResult)
      → All (λ e. str_eq e.ends.0.id e.ends.1.id ≡ false) edges
      → correlation_of p engine transaction_id documents edges ≡ some result
      → (result.document_ids ≡ map (λ d. d.id) documents)
        × (All (Reaches result.score documents edges) documents
            × ((d : Document) × (In d documents × NoneAbove result.score documents edges d)))
  unfolding correlation_of
  correlation_of-IsWeakest transaction_id [] edges result differ h = ground (arith, h)
  correlation_of-IsWeakest transaction_id (d ∷ []) edges result differ h = ground (arith, h)
  correlation_of-IsWeakest transaction_id (d ∷ e ∷ rest) edges result differ h =
      let documents = d ∷ e ∷ rest in
      let best = best_link p engine (relevant documents edges) in
      let (least, (here, same)) = lowest-In best d (e ∷ rest) in
      subst
        (λ r.
          (r.document_ids ≡ map (λ x. x.id) documents)
          × (All (Reaches r.score documents edges) documents
              × ((x : Document) × (In x documents × NoneAbove r.score documents edges x))))
        (explained h)
        (
          refl,
          (
            All-map _ (Reaches (lowest (best d) (map best (e ∷ rest))) documents edges) documents
                (λ x le. best_link-Reaches documents edges _ x le) (lowest_le best d (e ∷ rest)),
            (
              least,
              (
                here,
                subst (λ n. NoneAbove n documents edges least) (sym same)
                    (best_link-NoneAbove documents edges least differ),
              ),
            ),
          ),
        )
