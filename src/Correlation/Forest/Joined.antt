-- ===== src/Correlation/Forest/Joined.antt =====
-- How a document is placed in the forest of correlation/engine.py, and that joining two roots keeps it.
use retail_print_guard.Base.{
  ℕ, suc, ◌≤◌, String, false, some, ◌≡◌, refl, sym, ◌∙◌, subst, inl, inr, str_eq, str_eq_refl,
  arith, List, [], ◌∷◌, ◌++◌, In,
}
use retail_print_guard.Base.Dict.{Dict, lookup, insert, erase, lookup-insert, lookup-erase}
use retail_print_guard.Correlation.Types.{Platform, NormalizedDocument}
use retail_print_guard.Correlation.Forest.{Forest, refuses, join_roots}
use retail_print_guard.Correlation.Forest.Roots.{RootAt, Shortens, Text-cases}
use retail_print_guard.Correlation.Forest.Joining.{moved, moved_here, moved_other, turned, joining}

pub In-left : {A : Type 0} (x : A) (xs ys : List A) → In x xs → In x (xs ++ ys)
In-left x [] ys h = elim h [ ]
In-left x (z ∷ zs) ys (inl e) = inl e
In-left x (z ∷ zs) ys (inr h) = inr (In-left x zs ys h)

pub In-right : {A : Type 0} (x : A) (xs ys : List A) → In x ys → In x (xs ++ ys)
In-right x [] ys h = h
In-right x (z ∷ zs) ys h = inr (In-right x zs ys h)

module _ (p : Platform) where
  abbrev Document : Type 0
  Document = NormalizedDocument p

  -- The document has a root within `k` steps, whose component lists it and is one that `union`
  -- would not refuse.
  abbrev pub Placed : ℕ → Forest p → Document → Type 0
  Placed k f d =
      (n : ℕ) × ((r : String) × ((ms : List Document) × ((n ≤ k)
            × (RootAt f.parent n d.id r
                × ((lookup r f.members ≡ some ms) × (In d ms × (refuses p ms ≡ false)))))))

  pub Placed-Shortens :
      (k : ℕ) (before after : Dict String) (members : Dict (List Document)) (d : Document)
      → Shortens before after
      → Placed k record { parent = before; members = members } d
      → Placed k record { parent = after; members = members } d
  Placed-Shortens k before after members d shorter h =
      let (n, (r, (ms, (le, (path, rest))))) = h in
      let (m, (le', path')) = shorter n d.id r path in (m, (r, (ms, (omega arith, (path', rest)))))

  module _ (k : ℕ) (parent : Dict String) (members : Dict (List Document)) where
    same_members :
        (r : String) (ms ns : List Document)
        → lookup r members ≡ some ms
        → lookup r members ≡ some ns
        → ms ≡ ns
    same_members r ms ns h g = cc (h, g)

    module _ (first second : String) (both one other : List Document)
        (root : lookup first parent ≡ some first) (gone : lookup second parent ≡ some second)
        (two : str_eq first second ≡ false) (here : lookup first members ≡ some one)
        (there : lookup second members ≡ some other) (clean : refuses p both ≡ false)
        (one-In : (x : Document) → In x one → In x both)
        (other-In : (x : Document) → In x other → In x both) where
      listed_first : lookup first (erase second (insert first both members)) ≡ some both
      listed_first =
          rw
            (
              lookup-erase second first (insert first both members),
              turned parent first second root gone two,
              lookup-insert first first both members,
              str_eq_refl first,
            )
            refl

      listed_other :
          (r : String)
          → str_eq second r ≡ false
          → str_eq first r ≡ false
          → lookup r (erase second (insert first both members)) ≡ lookup r members
      listed_other r h g =
          rw
            (
              lookup-erase second r (insert first both members),
              h,
              lookup-insert first r both members,
              g,
            )
            refl

      pub join_roots-Placed :
          (d : Document)
          → Placed k record { parent = parent; members = members } d
          → Placed (suc k) (join_roots p first second both parent members) d
      join_roots-Placed d h =
          let (n, (r, (ms, (le, (path, (listed, (in_ms, ok))))))) = h in
          let (m, (le', path')) = joining parent first second root gone two n d.id r path in
          let at : (t : String)
              → moved parent first second root gone two r ≡ t
              → RootAt (insert second first parent) m d.id t =
            λ t e. subst (λ u. RootAt (insert second first parent) m d.id u) e path' in
          elim (Text-cases second r) [
            | inl e ↦
                let inside =
                  subst (λ l. In d l)
                    (same_members r ms other listed
                      (subst (λ t. lookup t members ≡ some other) e there))
                    in_ms in
                (
                  m,
                  (
                    first,
                    (
                      both,
                      (
                        omega arith,
                        (
                          at first (moved_here parent first second root gone two r e),
                          (listed_first, (other-In d inside, clean)),
                        ),
                      ),
                    ),
                  ),
                )
            | inr apart ↦
                let stays = moved_other parent first second root gone two r apart in
                elim (Text-cases first r) [
                  | inl e ↦
                      let inside =
                        subst (λ l. In d l)
                          (same_members r ms one listed
                            (subst (λ t. lookup t members ≡ some one) e here))
                          in_ms in
                      (
                        m,
                        (
                          first,
                          (
                            both,
                            (
                              omega arith,
                              (at first (stays ∙ sym e), (listed_first, (one-In d inside, clean))),
                            ),
                          ),
                        ),
                      )
                  | inr unlike ↦ (
                    m,
                    (
                      r,
                      (
                        ms,
                        (
                          omega arith,
                          (at r stays, (listed_other r apart unlike ∙ listed, (in_ms, ok))),
                        ),
                      ),
                    ),
                  )
                ]
          ]
