-- ===== src/Correlation/Forest/Placed.antt =====
-- What `union` of correlation/engine.py keeps: every document has a root within as many steps as
-- there were unions, its component lists it, and no component would be refused.
use retail_print_guard.Base.{
  ℕ, suc, ◌<◌, String, Bool, true, false, some, ◌≡◌, refl, inl, inr, Bool-cases, str_eq_iff, arith,
  List, ◌++◌, All, All-map, In, In-All,
}
use retail_print_guard.Base.Dict.{Dict, lookup}
use retail_print_guard.Base.Sort.{text_le}
use retail_print_guard.Correlation.Types.{Platform, NormalizedDocument}
use retail_print_guard.Correlation.Forest.{Forest, refuses, join_roots, union_roots, union}
use retail_print_guard.Correlation.Forest.Roots.{Shortens-trans, Text-cases, find-RootAt}
use retail_print_guard.Correlation.Forest.Joining.{root-IsRoot, turned}
use retail_print_guard.Correlation.Forest.Joined.{
  Placed, Placed-Shortens, join_roots-Placed, In-left, In-right,
}

module _ (p : Platform) where
  abbrev Document : Type 0
  Document = NormalizedDocument p

  module _ (k : ℕ) (parent : Dict String) (members : Dict (List Document)) where
    abbrev before : Forest p
    before = record { parent = parent; members = members }

    raise : (f : Forest p) (d : Document) → Placed p k f d → Placed p (suc k) f d
    raise f d h = let (n, (r, (ms, (le, rest)))) = h in (n, (r, (ms, (omega arith, rest))))

    union_roots-Placed :
        (left_root right_root : String) (left right : List Document)
        → lookup left_root parent ≡ some left_root
        → lookup right_root parent ≡ some right_root
        → lookup left_root members ≡ some left
        → lookup right_root members ≡ some right
        → (ds : List Document) → All (Placed p k record { parent = parent; members = members }) ds
        → (b : Bool) × ((f : Forest p) × ((union_roots p left_root right_root parent members
                ≡ some (b, f))
              × All (Placed p (suc k) f) ds))
    unfolding union_roots
    union_roots-Placed left_root right_root left right root root' here there ds h =
        elim (Text-cases left_root right_root) [
          | inl e ↦ (
            true,
            (
              before,
              (
                rw ((str_eq_iff left_root right_root).1 e) refl,
                All-map (Placed p k before) (Placed p (suc k) before) ds (raise before) h,
              ),
            ),
          )
          | inr two ↦ elim (Bool-cases (refuses p (left ++ right))) [
            | inl e ↦ (
              false,
              (
                before,
                (
                  rw (two, here, there, e) refl,
                  All-map (Placed p k before) (Placed p (suc k) before) ds (raise before) h,
                ),
              ),
            )
            | inr clean ↦ elim (Bool-cases (text_le left_root right_root)) [
              | inl e ↦
                  let after = join_roots p left_root right_root (left ++ right) parent members in
                  (
                    true,
                    (
                      after,
                      (
                        rw (two, here, there, clean, e) refl,
                        All-map (Placed p k before) (Placed p (suc k) after) ds
                            (join_roots-Placed p k parent members left_root right_root
                              (left ++ right) left right root root' two here there clean
                              (λ x. In-left x left right) (λ x. In-right x left right))
                            h,
                      ),
                    ),
                  )
              | inr e ↦
                  let after = join_roots p right_root left_root (left ++ right) parent members in
                  (
                    true,
                    (
                      after,
                      (
                        rw (two, here, there, clean, e) refl,
                        All-map (Placed p k before) (Placed p (suc k) after) ds
                            (join_roots-Placed p k parent members right_root left_root
                              (left ++ right) right left root' root
                              (turned parent left_root right_root root root' two) there here clean
                              (λ x. In-right x left right) (λ x. In-left x left right))
                            h,
                      ),
                    ),
                  )
            ]
          ]
        ]

  -- `union` of two known documents returns, and keeps every document placed.
  pub union-Placed :
      (fuel k : ℕ) (a b : Document) (f : Forest p) (ds : List Document)
      → k < fuel
      → In a ds
      → In b ds
      → All (Placed p k f) ds
      → (done : Bool) × ((g : Forest p) × ((union p fuel a.id b.id f ≡ some (done, g))
            × All (Placed p (suc k) g) ds))
  unfolding union
  union-Placed fuel k a b f ds lt in_a in_b h =
      let (n, (r, (ms, (le, (path, (listed, _)))))) = In-All (Placed p k f) a ds h in_a in
      let (m, (s, (ns, (le', (path', (listed', _)))))) = In-All (Placed p k f) b ds h in_b in
      let (q, (runs, shorter)) = find-RootAt fuel n a.id r f.parent (omega arith) path in
      let (m', (le'', path'')) = shorter m b.id s path' in
      let (q', (runs', shorter')) = find-RootAt fuel m' b.id s q (omega arith) path'' in
      let both = Shortens-trans f.parent q q' shorter shorter' in
      let (_, (_, left_path)) = both n a.id r path in
      let (_, (_, right_path)) = both m b.id s path' in
      let (done, (g, (joins, placed))) =
        union_roots-Placed k q' f.members r s ms ns (root-IsRoot q' _ a.id r left_path)
          (root-IsRoot q' _ b.id s right_path) listed listed' ds
          (All-map (Placed p k f) (Placed p k record { parent = q'; members = f.members }) ds
            (λ d. Placed-Shortens p k f.parent q' f.members d both) h) in
      (done, (g, (rw (runs, runs') joins, placed)))
