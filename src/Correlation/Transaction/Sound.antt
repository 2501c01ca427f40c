-- ===== src/Correlation/Transaction/Sound.antt =====
-- The transactions of `correlate_candidates` in correlation/engine.py.
use mathlib.Core.List.{Perm}
use mathlib.Core.List.Perm
use retail_print_guard.Base.{
  String, Bool, false, some, ◌≡◌, refl, sym, ap, subst, inl, inr, ◌∙◌, str_eq, List, [], ◌∷◌, ◌++◌,
  All, map, concat, Bool-cases, All-image,
}
use retail_print_guard.Base.Sort.{sort_by, insert_by, All-sort_by, All-insert_by}
use retail_print_guard.Base.Sorted.{Perm-sort_by, Perm-image-sort_by, In-sort_by, Perm-concat}
use retail_print_guard.Correlation.Types.{Platform, NormalizedDocument, CorrelatedTransaction}
use retail_print_guard.Correlation.Conflicts.{not_later}
use retail_print_guard.Correlation.Score.{Engine}
use retail_print_guard.Correlation.Groups.{Edge, edges_of}
use retail_print_guard.Correlation.Groups.Apart.{str_eq_comm}
use retail_print_guard.Correlation.Groups.Start.{Distinct}
use retail_print_guard.Correlation.Groups.Sound.{IsCompatible, groups_of_lem}
use retail_print_guard.Correlation.Transaction.{
  build_transaction, opens_before, correlate_candidates,
}

module _ (p : Platform) where
  abbrev Document : Type 0
  Document = NormalizedDocument p

  Distinct-insert_by :
      (le : Document → Document → Bool) (d : Document) (ds : List Document)
      → All (λ e. str_eq e.id d.id ≡ false) ds
      → Distinct p ds
      → Distinct p (insert_by le d ds)
  Distinct-insert_by le d [] h hs = (tt, tt)
  Distinct-insert_by le d (e ∷ es) h hs = elim (Bool-cases (le d e)) [
    | inl g ↦ rw g (h, hs)
    | inr g ↦ rw g (
      All-insert_by le (λ f. str_eq f.id e.id ≡ false) d es (str_eq_comm d.id e.id ∙ h.0) hs.0,
      Distinct-insert_by le d es h.1 hs.1,
    )
  ]

  Distinct-sort_by :
      (le : Document → Document → Bool) (ds : List Document)
      → Distinct p ds
      → Distinct p (sort_by le ds)
  Distinct-sort_by le [] h = tt
  Distinct-sort_by le (d ∷ ds) h =
      Distinct-insert_by le d (sort_by le ds)
        (All-sort_by le (λ e. str_eq e.id d.id ≡ false) ds h.0) (Distinct-sort_by le ds h.1)

  module _ (engine : Engine) where
    documents-build_transaction :
        (edges : List (Edge p engine)) (group : List Document)
        → (build_transaction p engine edges group).documents ≡ sort_by (not_later p) group
    unfolding build_transaction
    documents-build_transaction edges group = refl

    -- The documents of each transaction
    abbrev pub documents_of : List (CorrelatedTransaction p) → List (List Document)
    documents_of transactions = map (λ t. t.documents) transactions

    documents_of-build :
        (edges : List (Edge p engine)) (groups : List (List Document))
        → documents_of (map (build_transaction p engine edges) groups)
          ≡ map (sort_by (not_later p)) groups
    unfolding build_transaction
    documents_of-build edges [] = refl
    documents_of-build edges (g ∷ groups) =
        ap (λ l. sort_by (not_later p) g ∷ l) (documents_of-build edges groups)

    concat-same : (groups : List (List Document)) → concat (map (λ g. g) groups) ≡ concat groups
    concat-same [] = refl
    concat-same (g ∷ groups) = ap (λ l. g ++ l) (concat-same groups)

    Perm-build :
        (edges : List (Edge p engine)) (groups : List (List Document))
        → Perm
            (concat (documents_of (map (build_transaction p engine edges) groups)))
            (concat groups)
    Perm-build edges groups = rw (documents_of-build edges groups) (
        subst (λ l. Perm (concat (map (sort_by (not_later p)) groups)) l) (concat-same groups)
          (Perm-concat (sort_by (not_later p)) (λ g. g) groups (λ g. Perm-sort_by (not_later p) g)))

    IsCompatible-sort_by :
        (g : List Document) → IsCompatible p g → IsCompatible p (sort_by (not_later p) g)
    IsCompatible-sort_by g h x y in_x in_y =
        h x y (In-sort_by (not_later p) x g in_x) (In-sort_by (not_later p) y g in_y)

    correlate_candidates_lem :
        (documents : List Document) (candidates : List (String × String))
        → Distinct p documents
        → (transactions : List (CorrelatedTransaction p)) × ((correlate_candidates p engine
                documents candidates
              ≡ some transactions)
            × (Perm (concat (documents_of transactions)) documents
                × All (λ t. IsCompatible p t.documents) transactions))
    unfolding correlate_candidates
    correlate_candidates_lem documents candidates h =
        let ordered = sort_by (not_later p) documents in
        let edges = edges_of p engine ordered candidates in
        let (groups, (returns, (perm, compatible))) =
          groups_of_lem p engine ordered candidates (Distinct-sort_by (not_later p) documents h) in
        let built = map (build_transaction p engine edges) groups in
        (
          sort_by (opens_before p engine) built,
          (
            rw returns refl,
            (
              Perm.trans (Perm-image-sort_by (opens_before p engine) (λ t. t.documents) built) (
                  Perm.trans (Perm-build edges groups)
                    (Perm.trans perm (Perm-sort_by (not_later p) documents))),
              All-sort_by (opens_before p engine) (λ t. IsCompatible p t.documents) built
                  (All-image (IsCompatible p) (λ t. IsCompatible p t.documents)
                    (build_transaction p engine edges) groups
                    (λ g ok.
                      subst (IsCompatible p) (sym (documents-build_transaction edges g))
                        (IsCompatible-sort_by g ok))
                    compatible),
            ),
          ),
        )

    -- Where the documents have distinct ids, correlating them returns, and every document stands in exactly
    -- one transaction: the documents of the transactions, joined, are a permutation of those given,
    -- whatever the candidate pairs are.
    pub correlate_candidates-IsPartition :
        (documents : List Document) (candidates : List (String × String))
        → Distinct p documents
        → (transactions : List (CorrelatedTransaction p)) × ((correlate_candidates p engine
                documents candidates
              ≡ some transactions)
            × Perm (concat (documents_of transactions)) documents)
    correlate_candidates-IsPartition documents candidates h =
        let (transactions, (returns, (perm, _))) =
          correlate_candidates_lem documents candidates h in
        (transactions, (returns, perm))

    -- Where the documents have distinct ids, correlating them returns transactions in which no two documents
    -- conflict in their codes or references, and none opens an episode after another closed it,
    -- whatever chains of candidate pairs lead from one to the other.
    pub correlate_candidates-IsCompatible :
        (documents : List Document) (candidates : List (String × String))
        → Distinct p documents
        → (transactions : List (CorrelatedTransaction p)) × ((correlate_candidates p engine
                documents candidates
              ≡ some transactions)
            × All (λ t. IsCompatible p t.documents) transactions)
    correlate_candidates-IsCompatible documents candidates h =
        let (transactions, (returns, (_, compatible))) =
          correlate_candidates_lem documents candidates h in
        (transactions, (returns, compatible))
