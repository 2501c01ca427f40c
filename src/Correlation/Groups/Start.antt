-- ===== src/Correlation/Groups/Start.antt =====
-- `_correlate_pairs` of correlation/engine.py from its start: the components of one document, the
-- documents of the known pairs, and the unions in order.
use retail_print_guard.Base.{
  ℕ, suc, ◌+◌, ◌<◌, String, false, Option, none, some, ◌≡◌, refl, sym, subst, ◌∙◌, inl, inr, ◌⊎◌,
  Bool-cases, str_eq, str_eq_refl, arith, List, [], ◌∷◌, All, All-append, All-zip, In, length,
  Option-cases, kept, either, All-image,
}
use retail_print_guard.Base.Dict.{Dict, lookup, insert, lookup-insert}
use retail_print_guard.Base.Sort.{All-sort_by}
use retail_print_guard.Correlation.Types.{Platform, NormalizedDocument}
use retail_print_guard.Correlation.Score.{Engine}
use retail_print_guard.Correlation.Forest.{Forest}
use retail_print_guard.Correlation.Forest.Joined.{Placed}
use retail_print_guard.Correlation.Forest.Placed.{union-Placed}
use retail_print_guard.Correlation.Groups.{
  Edge, by_id, known_pairs, unique_pairs, edges_of, best, of_auxiliary, parents_of, union_pairs,
  fill, start, unite, Pair, turned, edge_of,
}
use retail_print_guard.Correlation.Groups.Apart.{singleton-refuses}

same {ℓ} : {A : Type ℓ} {o : Option A} {a : A} (b : A) → o ≡ some b → o ≡ some a → a ≡ b
same b h k = cc (h, k)

none_found {ℓ κ} : {A : Type ℓ} {B : Type κ} {a : A} → none ≡ some a → B
none_found h = ground (arith, h)

module _ (p : Platform) where
  abbrev Document : Type 0
  Document = NormalizedDocument p

  -- No two documents have one id.
  abbrev pub Distinct : List Document → Type 0
  Distinct [] = Unit
  Distinct (d ∷ ds) = All (λ e. str_eq e.id d.id ≡ false) ds × Distinct ds

  module _ (engine : Engine) where
    fill-kept :
        {V : Type 0} (value : Document → V) (i : String) (ds : List Document) (known : Dict V)
        → All (λ e. str_eq e.id i ≡ false) ds
        → lookup i (fill p engine value ds known) ≡ lookup i known
    fill-kept value i [] known h = refl
    fill-kept value i (d ∷ ds) known h =
        fill-kept value i ds (insert d.id (value d) known) h.1
        ∙ rw (lookup-insert d.id i (value d) known, h.0) refl

    fill-All :
        {V : Type 0} (value : Document → V) (ds : List Document) (known : Dict V)
        → Distinct ds
        → All (λ d. lookup d.id (fill p engine value ds known) ≡ some (value d)) ds
    fill-All value [] known h = tt
    fill-All value (d ∷ ds) known h = (
      fill-kept value d.id ds (insert d.id (value d) known) h.0
          ∙ rw (lookup-insert d.id d.id (value d) known, str_eq_refl d.id) refl,
      fill-All value ds (insert d.id (value d) known) h.1,
    )

    -- Every document starts as the root of its own component.
    pub start-Placed : (ds : List Document) → Distinct ds → All (Placed p 0 (start p engine ds)) ds
    start-Placed ds h =
        All-zip _ _ (Placed p 0 (start p engine ds)) ds
          (λ d up listed. (
            0,
            (
              d.id,
              (d ∷ [], (omega arith, ((up, refl), (listed, (inl refl, singleton-refuses p d))))),
            ),
          ))
          (fill-All (λ d. d.id) ds [] h) (fill-All (λ d. d ∷ []) ds [] h)

    fill-In :
        (i : String) (a : Document) (ds : List Document) (known : Dict Document)
        → lookup i (fill p engine (λ d. d) ds known) ≡ some a
        → In a ds ⊎ (lookup i known ≡ some a)
    fill-In i a [] known h = inr h
    fill-In i a (d ∷ ds) known h = elim (fill-In i a ds (insert d.id d known) h) [
      | inl here ↦ inl (inr here)
      | inr found ↦ elim (Bool-cases (str_eq d.id i)) [
        | inl e ↦ inl (inl (same d (rw (lookup-insert d.id i d known, e) refl) found))
        | inr e ↦ inr (sym (rw (lookup-insert d.id i d known, e) refl) ∙ found)
      ]
    ]

    -- Both documents are among the given ones.
    abbrev pub Known : List Document → Pair p engine → Type 0
    Known ds pair = In pair.0 ds × In pair.1 ds

    abbrev EndsKnown : List Document → Edge p engine → Type 0
    EndsKnown ds e = Known ds e.ends

    lookup-In :
        (ds : List Document) (i : String) (a : Document)
        → lookup i (by_id p engine ds) ≡ some a
        → In a ds
    unfolding lookup
    lookup-In ds i a h = elim (fill-In i a ds [] h) [
      | inl here ↦ here
      | inr found ↦ none_found found
    ]

    known_pairs-Known :
        (ds : List Document) (pairs : List (String × String))
        → All (Known ds) (known_pairs p engine (by_id p engine ds) pairs)
    unfolding known_pairs
    known_pairs-Known ds [] = tt
    known_pairs-Known ds (pair ∷ pairs) =
        let rest = known_pairs-Known ds pairs in
        elim (Bool-cases (str_eq pair.0 pair.1)) [
          | inl e ↦ rw e rest
          | inr e ↦ elim (Option-cases (lookup pair.0 (by_id p engine ds))) [
            | inl g ↦ rw (e, g) rest
            | inr (a, g) ↦ elim (Option-cases (lookup pair.1 (by_id p engine ds))) [
              | inl k ↦ rw (e, g, k) rest
              | inr (b, k) ↦
                  rw (e, g, k)
                    (
                      either (λ pr. Known ds pr) _ (a, b) (b, a)
                          (lookup-In ds pair.0 a g, lookup-In ds pair.1 b k)
                          (lookup-In ds pair.1 b k, lookup-In ds pair.0 a g),
                      rest,
                    )
            ]
          ]
        ]

    unique_pairs-All :
        (P : Pair p engine → Type 0) (pairs : List (Pair p engine))
        → All P pairs
        → All P (unique_pairs p engine pairs)
    unique_pairs-All P [] h = tt
    unique_pairs-All P (a ∷ pairs) h =
        (h.0, kept P _ (unique_pairs p engine pairs) (unique_pairs-All P pairs h.1))

    best-All :
        (P : Edge p engine → Type 0) (e : Edge p engine) (es : List (Edge p engine))
        → P e
        → All P es
        → P (best p engine e es)
    best-All P e [] h hs = h
    best-All P e (f ∷ fs) h hs = either P _ e (best p engine f fs) h (best-All P f fs hs.0 hs.1)

    parents_of-All :
        (P : Edge p engine → Type 0) (es : List (Edge p engine))
        → All P es
        → All P (parents_of p engine es)
    parents_of-All P [] h = tt
    parents_of-All P (e ∷ es) h = (
      best-All P e (of_auxiliary p engine e es) h.0 (kept P _ es h.1),
      kept P _ (parents_of p engine es) (parents_of-All P es h.1),
    )

    turned-Known :
        (ds : List Document) (e : Edge p engine) → EndsKnown ds e → EndsKnown ds (turned p engine e)
    turned-Known ds e h = either (EndsKnown ds) _ e _ h (h.1, h.0)

    union_pairs-Known :
        (ds : List Document) (edges : List (Edge p engine))
        → All (EndsKnown ds) edges
        → All (Known ds) (union_pairs p engine edges)
    union_pairs-Known ds edges h =
        All-image (EndsKnown ds) (Known ds) (λ e. e.ends) _ (λ e g. g)
          (All-append (EndsKnown ds) _ _
            (All-sort_by _ (EndsKnown ds) _ (kept (EndsKnown ds) _ edges h))
            (All-sort_by _ (EndsKnown ds) _ (
              parents_of-All (EndsKnown ds) _ (
                All-image (EndsKnown ds) (EndsKnown ds) (turned p engine) _ (turned-Known ds)
                  (kept (EndsKnown ds) _ edges h)))))

    pub edges_of-Known :
        (ds : List Document) (candidates : List (String × String))
        → All (Known ds) (union_pairs p engine (edges_of p engine ds candidates))
    edges_of-Known ds candidates = union_pairs-Known ds (edges_of p engine ds candidates) (
        All-image (Known ds) (EndsKnown ds) (edge_of p engine) _ (λ pr g. g)
          (All-sort_by _ (Known ds) _
            (unique_pairs-All (Known ds) _ (known_pairs-Known ds candidates))))

    -- The unions return, and keep every document placed.
    pub unite-Placed :
        (fuel k : ℕ) (pairs : List (Pair p engine)) (f : Forest p) (ds : List Document)
        → k + length pairs < fuel
        → All (Known ds) pairs
        → All (Placed p k f) ds
        → (g : Forest p) × ((unite p engine fuel pairs f ≡ some g)
            × All (Placed p (k + length pairs) g) ds)
    unfolding unite
    unite-Placed fuel k [] f ds lt known h =
        (f, (refl, subst (λ n. All (Placed p n f) ds) (omega arith) h))
    unite-Placed fuel k (pair ∷ pairs) f ds lt known h =
        let (done, (next, (runs, placed))) =
          union-Placed p fuel k pair.0 pair.1 f ds (omega arith) known.0.0 known.0.1 h in
        let (g, (goes, end)) =
          unite-Placed fuel (suc k) pairs next ds (omega arith) known.1 placed in
        (g, (rw runs goes, subst (λ n. All (Placed p n g) ds) (omega arith) end))
