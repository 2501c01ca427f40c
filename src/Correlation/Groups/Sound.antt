-- ===== src/Correlation/Groups/Sound.antt =====
-- The groups of `_correlate_pairs` of correlation/engine.py.
use mathlib.Core.List.{Perm}
use mathlib.Core.List.Perm
use retail_print_guard.Base.{
  ℕ, suc, String, false, none, some, ◌≡◌, refl, sym, subst, ◌∙◌, str_eq, arith, List, [], All,
  All-map, In, length, map, concat, In-All, All-In, append-nil, All-image,
}
use retail_print_guard.Base.Dict.{Dict, lookup}
use retail_print_guard.Base.Sort.{sort_by, All-sort_by}
use retail_print_guard.Base.Sorted.{Perm-image-sort_by}
use retail_print_guard.Correlation.Types.{Platform, NormalizedDocument}
use retail_print_guard.Correlation.Conflicts.{identity_conflict, episode_boundary_conflict}
use retail_print_guard.Correlation.Score.{Engine}
use retail_print_guard.Correlation.Forest.{refuses}
use retail_print_guard.Correlation.Forest.Roots.{depth_unique}
use retail_print_guard.Correlation.Forest.Joined.{Placed, Placed-Shortens}
use retail_print_guard.Correlation.Groups.{start, by_root, groups_of, union_pairs, edges_of}
use retail_print_guard.Correlation.Groups.Apart.{refuses-conflicts}
use retail_print_guard.Correlation.Groups.Start.{
  Distinct, start-Placed, edges_of-Known, unite-Placed,
}
use retail_print_guard.Correlation.Groups.Assign.{values, Rooted, assign-Rooted}

some_injective : {A : Type 0} {a b : A} → some a ≡ some b → a ≡ b
some_injective h = cc h

module _ (p : Platform) where
  abbrev Document : Type 0
  Document = NormalizedDocument p

  -- No two documents of the group name different sales, tables or orders, and none of them opens an
  -- episode after another closed it.
  abbrev pub IsCompatible : List Document → Type 0
  IsCompatible group =
      (x y : Document)
      → In x group
      → In y group
      → str_eq x.id y.id ≡ false
      → (identity_conflict p x y ≡ none) × (episode_boundary_conflict p x y ≡ none)

  module _ (engine : Engine) (N : ℕ) (ds : List Document) where
    -- A document of a group stands in the component of the group's root.
    listed_at_root :
        (q : Dict String) (members : Dict (List Document)) (group : String × List Document)
        (x : Document)
        → All (Placed p N record { parent = q; members = members }) ds
        → Rooted p engine N ds q group
        → In x group.1
        → (ms : List Document) × ((lookup group.0 members ≡ some ms)
            × (In x ms × (refuses p ms ≡ false)))
    listed_at_root q members group x placed rooted inside =
        let (here, (m, (_, path))) = In-All _ x group.1 rooted inside in
        let (n, (r, (ms, (_, (path', (listed, (in_ms, clean))))))) = In-All _ x ds placed here in
        let root = (depth_unique q n m x.id r group.0 path' path).1 in
        (ms, (subst (λ t. lookup t members ≡ some ms) root listed, (in_ms, clean)))

    Rooted-IsCompatible :
        (q : Dict String) (members : Dict (List Document)) (group : String × List Document)
        → All (Placed p N record { parent = q; members = members }) ds
        → Rooted p engine N ds q group
        → IsCompatible group.1
    Rooted-IsCompatible q members group placed rooted x y in_x in_y other =
        let (ms, (listed, (here, clean))) = listed_at_root q members group x placed rooted in_x in
        let (ns, (listed', (there, _))) = listed_at_root q members group y placed rooted in_y in
        refuses-conflicts p x y ms clean here
          (subst (λ l. In y l) (some_injective (sym listed' ∙ listed)) there) other

  -- The groups return, are a permutation of the documents, and are compatible.
  pub groups_of_lem :
      (engine : Engine) (ordered : List Document) (candidates : List (String × String))
      → Distinct p ordered
      → (groups : List (List Document)) × ((groups_of p engine ordered candidates ≡ some groups)
          × (Perm (concat groups) ordered × All IsCompatible groups))
  unfolding groups_of
  groups_of_lem engine ordered candidates h =
      let pairs = union_pairs p engine (edges_of p engine ordered candidates) in
      let N = length pairs in
      let (f, (unites, placed)) =
        unite-Placed p engine (suc N) 0 pairs (start p engine ordered) ordered (omega arith)
          (edges_of-Known p engine ordered candidates) (start-Placed p engine ordered h) in
      let everywhere : All (Placed p N f) ordered =
        subst (λ n. All (Placed p n f) ordered) (omega arith) placed in
      let (result, (q, (assigns, (shorter, (rooted, perm))))) =
        assign-Rooted p engine N ordered (suc N) ordered f.parent f.members [] (omega arith)
          everywhere (All-In ordered) tt in
      let still =
        All-map _ _ ordered (λ d. Placed-Shortens p N f.parent q f.members d shorter) everywhere in
      (
        map (λ g. g.1) (sort_by (by_root p engine) result),
        (
          rw (unites, assigns) refl,
          (
            Perm.trans (Perm-image-sort_by (by_root p engine) (λ g. g.1) result)
                (subst (λ l. Perm (values result) l) (append-nil ordered) perm),
            All-image (Rooted p engine N ordered q) IsCompatible (λ g. g.1) _
                (λ g known. Rooted-IsCompatible engine N ordered q f.members g still known)
                (All-sort_by (by_root p engine) (Rooted p engine N ordered q) result rooted),
          ),
        ),
      )
