-- ===== src/Correlation/Groups/Assign.antt =====
-- The documents of each root in `_correlate_pairs` of correlation/engine.py.
use mathlib.Core.List.{Perm, perm_append_singleton, perm_middle}
use mathlib.Core.List.Perm
use retail_print_guard.Base.{
  ℕ, ◌≤◌, ◌<◌, String, true, false, some, ◌≡◌, refl, sym, subst, ◌∙◌, ap, inl, inr, Bool-cases,
  str_eq, str_eq_iff, arith, List, [], ◌∷◌, ◌++◌, All, All-map, All-append, In, map, concat, In-All,
}
use retail_print_guard.Base.Dict.{Dict, lookup, insert}
use retail_print_guard.Base.Sorted.{under}
use retail_print_guard.Correlation.Types.{Platform, NormalizedDocument}
use retail_print_guard.Correlation.Score.{Engine}
use retail_print_guard.Correlation.Forest.Roots.{
  RootAt, Shortens, Shortens-refl, Shortens-trans, find-RootAt, Text-cases,
}
use retail_print_guard.Correlation.Forest.Joined.{Placed, Placed-Shortens}
use retail_print_guard.Correlation.Groups.{entry, assign}

abbrev pub values {ℓ} : {A : Type ℓ} → Dict (List A) → List A
values groups = concat (map (λ g. g.1) groups)

module _ (p : Platform) (engine : Engine) where
  abbrev Document : Type 0
  Document = NormalizedDocument p

  abbrev Group : Type 0
  Group = String × List Document

  entry-first :
      (root : String) (g : Group) (groups : Dict (List Document))
      → str_eq g.0 root ≡ true
      → entry p engine root (g ∷ groups) ≡ g.1
  unfolding lookup
  entry-first root g groups e = rw (entry, e) refl

  entry-rest :
      (root : String) (g : Group) (groups : Dict (List Document))
      → str_eq g.0 root ≡ false
      → entry p engine root (g ∷ groups) ≡ entry p engine root groups
  unfolding lookup
  entry-rest root g groups e = rw (entry, e) refl

  Perm-entry :
      (root : String) (d : Document) (v : List Document) (groups : Dict (List Document))
      → v ≡ entry p engine root groups ++ (d ∷ [])
      → Perm (values (insert root v groups)) (d ∷ values groups)
  unfolding insert lookup
  Perm-entry root d v [] h = subst (λ l. Perm (l ++ []) (d ∷ [])) (sym h) (Perm.refl _)
  Perm-entry root d v (g ∷ groups) h = elim (Bool-cases (str_eq g.0 root)) [
    | inl e ↦ rw e (
        subst (λ l. Perm (l ++ values groups) (d ∷ values (g ∷ groups)))
          (sym (h ∙ ap (λ l. l ++ (d ∷ [])) (entry-first root g groups e)))
          (Perm.append_right (values groups) (perm_append_singleton d g.1)))
    | inr e ↦ rw e (
        Perm.trans
          (under g.1
            (Perm-entry root d v groups (h ∙ ap (λ l. l ++ (d ∷ [])) (entry-rest root g groups e))))
          (perm_middle g.1 (values groups)))
  ]

  module _ (N : ℕ) (ds : List Document) where
    -- The documents of a group, with their paths to its root.
    abbrev pub Rooted : Dict String → String × List Document → Type 0
    Rooted parent group =
        All (λ d. In d ds × ((n : ℕ) × ((n ≤ N) × RootAt parent n d.id group.0))) group.1

    Rooted-Shortens :
        (q s : Dict String) (groups : Dict (List Document))
        → Shortens q s
        → All (Rooted q) groups
        → All (Rooted s) groups
    Rooted-Shortens q s groups shorter h =
        All-map (Rooted q) (Rooted s) groups
          (λ group members.
            All-map _ _ group.1
              (λ d known.
                let (here, (n, (le, path))) = known in
                let (m, (le', path')) = shorter n d.id group.0 path in
                (here, (m, (omega arith, path'))))
              members)
          h

    Rooted-entry :
        (q : Dict String) (root : String) (d : Document) (v : List Document)
        (groups : Dict (List Document)) (n : ℕ)
        → v ≡ entry p engine root groups ++ (d ∷ [])
        → n ≤ N
        → In d ds
        → RootAt q n d.id root
        → All (Rooted q) groups
        → All (Rooted q) (insert root v groups)
    unfolding insert lookup
    Rooted-entry q root d v [] n h le here path hs =
        (subst (λ l. Rooted q (root, l)) (sym h) ((here, (n, (le, path))), tt), tt)
    Rooted-entry q root d v (g ∷ groups) n h le here path hs = elim (Text-cases g.0 root) [
      | inl e ↦
          let first = (str_eq_iff g.0 root).1 e in
          let members : Rooted q (root, g.1) = subst (λ t. Rooted q (t, g.1)) e hs.0 in
          rw first (
            subst (λ l. Rooted q (root, l))
                (sym (h ∙ ap (λ l. l ++ (d ∷ [])) (entry-first root g groups first)))
                (All-append _ g.1 (d ∷ []) members ((here, (n, (le, path))), tt)),
            hs.1,
          )
      | inr e ↦ rw e (
        hs.0,
        Rooted-entry q root d v groups n (h ∙ ap (λ l. l ++ (d ∷ [])) (entry-rest root g groups e))
            le here path hs.1,
      )
    ]

    pub assign-Rooted :
        (fuel : ℕ) (sub : List Document) (q : Dict String) (members : Dict (List Document))
        (groups : Dict (List Document))
        → N < fuel
        → All (Placed p N record { parent = q; members = members }) ds
        → All (λ d. In d ds) sub
        → All (Rooted q) groups
        → (result : Dict (List Document)) × ((s : Dict String) × ((assign p engine fuel sub q groups
                ≡ some result)
              × (Shortens q s
                  × (All (Rooted s) result × Perm (values result) (sub ++ values groups)))))
    unfolding assign
    assign-Rooted fuel [] q members groups lt placed here h =
        (groups, (q, (refl, (Shortens-refl q, (h, Perm.refl _)))))
    assign-Rooted fuel (d ∷ rest) q members groups lt placed here h =
        let (n, (r, (ms, (le, (path, _))))) =
          In-All (Placed p N record { parent = q; members = members }) d ds placed here.0 in
        let (halved, (runs, shorter)) = find-RootAt fuel n d.id r q (omega arith) path in
        let (n', (le', path')) = shorter n d.id r path in
        let next = insert r (entry p engine r groups ++ (d ∷ [])) groups in
        let (result, (s, (goes, (shorter', (rooted, perm))))) =
          assign-Rooted fuel rest halved members next lt
            (All-map _ _ ds (λ e. Placed-Shortens p N q halved members e shorter) placed) here.1
            (Rooted-entry halved r d _ groups n' refl (omega arith) here.0 path'
              (Rooted-Shortens q halved groups shorter h)) in
        (
          result,
          (
            s,
            (
              rw runs goes,
              (
                Shortens-trans q halved s shorter shorter',
                (
                  rooted,
                  Perm.trans perm (
                      Perm.trans (under rest (Perm-entry r d _ groups refl))
                        (perm_middle rest (values groups))),
                ),
              ),
            ),
          ),
        )
