-- ===== src/Correlation/Transaction/Relevant.antt =====
-- Which edges `_build_transaction` of correlation/engine.py finds between the documents of a group.
use retail_print_guard.Base.{
  String, Bool, true, false, ◌&&◌, ◌≡◌, sym, ◌∙◌, inl, inr, List, [], ◌∷◌, All, All-map, All-append,
  All-keep, All-In, In, keep, any_of, leb, str_eq, str_eq_iff, arith, and_split, and_join, or_split,
  or_first, or_second, ap, if◌then◌else◌,
}
use retail_print_guard.Correlation.Types.{Platform, NormalizedDocument}
use retail_print_guard.Correlation.Score.{Engine}
use retail_print_guard.Correlation.Groups.{Edge}
use retail_print_guard.Correlation.Groups.Apart.{str_eq_comm}
use retail_print_guard.Correlation.Forest.Joined.{In-left, In-right}
use retail_print_guard.Correlation.Evidence.{joins, linked_later, relevant_edges}

pub In-keep :
    {A : Type 0} (test : A → Bool) (x : A) (xs : List A)
    → In x xs
    → test x ≡ true
    → In x (keep test xs)
In-keep test x [] here h = elim here [ ]
In-keep test x (y ∷ ys) (inl e) h = kept_first (test y) (ap test (sym e) ∙ h)
  where
    kept_first : (b : Bool) → b ≡ true → In x (if b then y ∷ keep test ys else keep test ys)
    kept_first true g = inl e
    kept_first false g = ground (arith, g)
In-keep test x (y ∷ ys) (inr here) h = kept_later (test y) (In-keep test x ys here h)
  where
    kept_later :
        (b : Bool) → In x (keep test ys) → In x (if b then y ∷ keep test ys else keep test ys)
    kept_later true g = inr g
    kept_later false g = g

module _ (p : Platform) (engine : Engine) where
  abbrev Document : Type 0
  Document = NormalizedDocument p

  -- A document of the list has the id.
  abbrev pub is_named : String → List Document → Bool
  is_named id documents = any_of (λ d. str_eq d.id id) documents

  -- An edge that passes the minimum and joins two documents of the list.
  abbrev pub is_inside : List Document → Edge p engine → Bool
  is_inside documents e =
      leb engine.minimum_score e.score
      && (is_named e.ends.0.id documents && is_named e.ends.1.id documents)

  is_named-In :
      (id : String) (d : Document) (documents : List Document)
      → In d documents
      → str_eq d.id id ≡ true
      → is_named id documents ≡ true
  is_named-In id d [] here h = elim here [ ]
  is_named-In id d (x ∷ xs) (inl e) h = or_first _ _ (ap (λ t. str_eq t.id id) (sym e) ∙ h)
  is_named-In id d (x ∷ xs) (inr here) h = or_second _ _ (is_named-In id d xs here h)

  joins-ends :
      (a b : Document) (e : Edge p engine) (documents : List Document)
      → In a documents
      → In b documents
      → (joins p engine a b e && leb engine.minimum_score e.score) ≡ true
      → is_inside documents e ≡ true
  joins-ends a b e documents in_a in_b h =
      let (joined, passes) = and_split _ (leb engine.minimum_score e.score) h in
      let turned : (i j : String) → str_eq i j ≡ true → str_eq j i ≡ true =
        λ i j g. str_eq_comm j i ∙ g in
      elim (or_split _ (str_eq e.ends.0.id b.id && str_eq e.ends.1.id a.id) joined) [
        | inl straight ↦
            let (first, second) = and_split _ (str_eq e.ends.1.id b.id) straight in
            and_join _ _ passes (
              and_join _ _ (is_named-In _ a documents in_a (turned _ _ first))
                (is_named-In _ b documents in_b (turned _ _ second)))
        | inr crossed ↦
            let (first, second) = and_split _ (str_eq e.ends.1.id a.id) crossed in
            and_join _ _ passes (
              and_join _ _ (is_named-In _ b documents in_b (turned _ _ first))
                (is_named-In _ a documents in_a (turned _ _ second)))
      ]

  module _ (edges : List (Edge p engine)) where
    -- A relevant edge is one of the given ones, passes the minimum and joins two documents.
    abbrev pub Found : List Document → Edge p engine → Type 0
    Found documents e = In e edges × (is_inside documents e ≡ true)

    linked_later-Found :
        (documents : List Document) (a : Document) (bs : List Document)
        → In a documents
        → All (λ b. In b documents) bs
        → All (Found documents) (linked_later p engine a bs edges)
    linked_later-Found documents a [] in_a h = tt
    linked_later-Found documents a (b ∷ bs) in_a h =
        All-append (Found documents) _ _
          (All-map _ (Found documents) _
            (λ e found. (found.0, joins-ends a b e documents in_a h.0 found.1))
            (All-keep (λ e. In e edges)
              (λ e. joins p engine a b e && leb engine.minimum_score e.score) edges (All-In edges)))
          (linked_later-Found documents a bs in_a h.1)

    relevant_edges-within :
        (documents ds : List Document)
        → All (λ d. In d documents) ds
        → All (Found documents) (relevant_edges p engine ds edges)
    relevant_edges-within documents [] h = tt
    relevant_edges-within documents (d ∷ ds) h =
        All-append (Found documents) _ _ (linked_later-Found documents d ds h.0 h.1)
          (relevant_edges-within documents ds h.1)

    pub relevant_edges-Found :
        (documents : List Document)
        → All (Found documents) (relevant_edges p engine documents edges)
    relevant_edges-Found documents = relevant_edges-within documents documents (All-In documents)

    module _ (e : Edge p engine) (here : In e edges)
        (passes : leb engine.minimum_score e.score ≡ true) where
      In-linked_later :
          (a : Document) (id : String) (bs : List Document)
          → ((b : Document) → str_eq b.id id ≡ true → joins p engine a b e ≡ true)
          → is_named id bs ≡ true
          → In e (linked_later p engine a bs edges)
      In-linked_later a id [] joined named = ground (arith, named)
      In-linked_later a id (b ∷ bs) joined named = elim (or_split _ (is_named id bs) named) [
        | inl same ↦ In-left e _ _ (
            In-keep (λ f. joins p engine a b f && leb engine.minimum_score f.score) e edges here
              (and_join _ _ (joined b same) passes))
        | inr later ↦ In-right e _ _ (In-linked_later a id bs joined later)
      ]

      pub In-relevant_edges :
          (documents : List Document)
          → str_eq e.ends.0.id e.ends.1.id ≡ false
          → is_named e.ends.0.id documents ≡ true
          → is_named e.ends.1.id documents ≡ true
          → In e (relevant_edges p engine documents edges)
      In-relevant_edges [] differ first second = ground (arith, first)
      In-relevant_edges (d ∷ ds) differ first second =
          elim (or_split _ (is_named e.ends.0.id ds) first) [
            | inl is_first ↦ In-left e _ _ (
                In-linked_later d e.ends.1.id ds
                  (λ b same. or_first _ _ (
                    and_join _ _ (str_eq_comm e.ends.0.id d.id ∙ is_first)
                      (str_eq_comm e.ends.1.id b.id ∙ same)))
                  (elim (or_split _ (is_named e.ends.1.id ds) second) [
                    | inr later ↦ later
                    | inl is_second ↦ ground (
                      arith,
                      differ,
                      is_first,
                      is_second,
                      str_eq_iff d.id e.ends.0.id,
                      str_eq_iff d.id e.ends.1.id,
                      str_eq_iff e.ends.0.id e.ends.1.id,
                    )
                  ]))
            | inr later_first ↦ elim (or_split _ (is_named e.ends.1.id ds) second) [
              | inl is_second ↦ In-left e _ _ (
                  In-linked_later d e.ends.0.id ds
                    (λ b same. or_second _ _ (
                      and_join _ _ (str_eq_comm e.ends.0.id b.id ∙ same)
                        (str_eq_comm e.ends.1.id d.id ∙ is_second)))
                    later_first)
              | inr later_second ↦
                  In-right e _ _ (In-relevant_edges ds differ later_first later_second)
            ]
          ]
