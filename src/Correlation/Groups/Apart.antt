-- ===== src/Correlation/Groups/Apart.antt =====
-- The conflicts between documents of correlation/engine.py do not depend on the order of the two,
-- and one document makes a component that `union` accepts.
use retail_print_guard.Base.{
  String, Bool, true, false, Option, none, some, ◌≡◌, refl, sym, inl, inr, Bool-cases, str_eq,
  str_eq_iff, str_eq_refl, is_some, if◌then◌else◌, arith, List, [], ◌∷◌, ◌||◌, ◌&&◌, ◌∙◌, any_of,
  In, subst, ltb,
}
use retail_print_guard.Correlation.Types.{Platform, NormalizedDocument}
use retail_print_guard.Correlation.Lines.{normalise}
use retail_print_guard.Correlation.Conflicts.{
  differ, identity_conflict, episode_boundary_conflict, strong_reference, document_time, not_later,
  reopened, is_close, starts_episode,
}
use retail_print_guard.Correlation.Forest.{any_apart, are_apart, refuses}

pub str_eq_comm : (a b : String) → str_eq a b ≡ str_eq b a
str_eq_comm a b = ground (arith, str_eq_iff a b, str_eq_iff b a)

differ_comm : (a b : Option String) → differ a b ≡ differ b a
differ_comm none none = refl
differ_comm none (some b) = refl
differ_comm (some a) none = refl
differ_comm (some a) (some b) = rw (str_eq_comm a b) refl

none_of : (o : Option String) → is_some o ≡ false → o ≡ none
none_of none h = refl
none_of (some s) h = ground (arith, h)

or_left : (a b : Bool) → (a || b) ≡ false → a ≡ false
or_left true b h = h
or_left false b h = refl

or_right : (a b : Bool) → (a || b) ≡ false → b ≡ false
or_right true b h = ground (arith, h)
or_right false b h = h

same_branches : (b : Bool) (o : Option String) → (if b then o else o) ≡ o
same_branches true o = refl
same_branches false o = refl

never : (a b c : Bool) (s : String) → c ≡ false → (if a && b && c then some s else none) ≡ none
never a b c s h = ground (arith, h)

module _ (p : Platform) where
  abbrev Document : Type 0
  Document = NormalizedDocument p

  identity_conflict_comm : (x y : Document) → identity_conflict p x y ≡ identity_conflict p y x
  unfolding identity_conflict
  identity_conflict_comm x y =
      rw
        (
          differ_comm (normalise p x.order_code) (normalise p y.order_code),
          differ_comm (normalise p x.table_code) (normalise p y.table_code),
          differ_comm (strong_reference p x) (strong_reference p y),
        )
        refl

  behind_not_later :
      (x y : Document)
      → ltb (document_time p x) (document_time p y) ≡ true
      → not_later p y x ≡ false
  behind_not_later x y h = ground arith

  tie-reopened :
      (x y : Document) → ltb (document_time p x) (document_time p y) ≡ false → reopened p x y ≡ none
  tie-reopened x y h =
      never (is_close p x) (starts_episode p y.kind) (ltb (document_time p x) (document_time p y)) _
        h

  episode_boundary_conflict_comm :
      (x y : Document) → episode_boundary_conflict p x y ≡ episode_boundary_conflict p y x
  unfolding episode_boundary_conflict
  episode_boundary_conflict_comm x y =
      elim (Bool-cases (ltb (document_time p x) (document_time p y))) [
        | inl e ↦ rw (behind_not_later x y e, e) refl
        | inr e ↦ elim (Bool-cases (ltb (document_time p y) (document_time p x))) [
          | inl g ↦ rw (behind_not_later y x g, g) refl
          | inr g ↦
              rw (tie-reopened x y e, tie-reopened y x g)
                (same_branches (not_later p x y) none ∙ sym (same_branches (not_later p y x) none))
        ]
      ]

  pub singleton-refuses : (d : Document) → refuses p (d ∷ []) ≡ false
  unfolding refuses
  singleton-refuses d = ground arith

  are_apart_comm : (x y : Document) → are_apart p x y ≡ are_apart p y x
  are_apart_comm x y = rw (identity_conflict_comm x y, episode_boundary_conflict_comm x y) refl

  none_apart :
      (x y : Document) (ys : List Document)
      → any_of (are_apart p x) ys ≡ false
      → In y ys
      → are_apart p x y ≡ false
  none_apart x y [] h here = elim here [ ]
  none_apart x y (z ∷ zs) h (inl e) =
      subst (λ t. are_apart p x t ≡ false) (sym e) (or_left (are_apart p x z) _ h)
  none_apart x y (z ∷ zs) h (inr here) = none_apart x y zs (or_right (are_apart p x z) _ h) here

  any_apart_In :
      (x y : Document) (ms : List Document)
      → any_apart p ms ≡ false
      → In x ms
      → In y ms
      → str_eq x.id y.id ≡ false
      → are_apart p x y ≡ false
  unfolding any_apart
  any_apart_In x y [] h here there other = elim here [ ]
  any_apart_In x y (z ∷ zs) h (inl e) (inl f) other =
      cc (subst (λ t. str_eq x.id t.id ≡ false) (f ∙ sym e) other, str_eq_refl x.id)
  any_apart_In x y (z ∷ zs) h (inl e) (inr there) other =
      subst (λ t. are_apart p t y ≡ false) (sym e)
        (none_apart z y zs (or_left (any_of (are_apart p z) zs) _ h) there)
  any_apart_In x y (z ∷ zs) h (inr here) (inl f) other =
      are_apart_comm x y
      ∙ subst (λ t. are_apart p t x ≡ false) (sym f)
          (none_apart z x zs (or_left (any_of (are_apart p z) zs) _ h) here)
  any_apart_In x y (z ∷ zs) h (inr here) (inr there) other =
      any_apart_In x y zs (or_right (any_of (are_apart p z) zs) _ h) here there other

  -- Two documents of a component that `union` accepts do not conflict.
  pub refuses-conflicts :
      (x y : Document) (ms : List Document)
      → refuses p ms ≡ false
      → In x ms
      → In y ms
      → str_eq x.id y.id ≡ false
      → (identity_conflict p x y ≡ none) × (episode_boundary_conflict p x y ≡ none)
  unfolding refuses
  refuses-conflicts x y ms h here there other =
      let together =
        any_apart_In x y ms (or_left (any_apart p ms) _ (or_left _ _ h)) here there other in
      (
        none_of (identity_conflict p x y) (or_left (is_some (identity_conflict p x y)) _ together),
        none_of (episode_boundary_conflict p x y)
            (or_right (is_some (identity_conflict p x y)) _ together),
      )
