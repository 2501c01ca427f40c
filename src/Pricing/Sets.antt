-- ===== src/Pricing/Sets.antt =====
-- The sets of amounts that `_sources_agree` of pricing/service.py builds.
use retail_print_guard.Base.{
  ◌≤◌, Bool, true, not, Option, none, some, List, [], ◌∷◌, map, ◌≡◌, refl, sym, ap, subst, inl, inr,
  All, In, Bool-cases, keep, length, all_of, arith,
}
use retail_print_guard.Pricing.Match.{distinct, known}

pub In-known : {A : Type 0} (x : A) (xs : List (Option A)) → In (some x) xs → In x (known xs)
In-known x [] h = h
In-known x (none ∷ xs) (inl e) = ground (arith, e)
In-known x (none ∷ xs) (inr h) = In-known x xs h
In-known x (some y ∷ xs) (inl e) = inl (cc e)
In-known x (some y ∷ xs) (inr h) = inr (In-known x xs h)

pub In-map : {A B : Type 0} (f : A → B) (x : A) (xs : List A) → In x xs → In (f x) (map f xs)
In-map f x [] h = h
In-map f x (y ∷ xs) (inl e) = inl (ap f e)
In-map f x (y ∷ xs) (inr h) = inr (In-map f x xs h)

pub All-lookup : {A : Type 0} (P : A → Type 0) (x : A) (xs : List A) → All P xs → In x xs → P x
All-lookup P x [] h k = elim k [ ]
All-lookup P x (y ∷ xs) h (inl e) = subst P (sym e) h.0
All-lookup P x (y ∷ xs) h (inr there) = All-lookup P x xs h.1 there

-- What Python relies on for the members of a set.
pub record IsEquality {A : Type 0} (same : A → A → Bool) : Type 0 where
  pub reflexive : (x : A) → same x x ≡ true
  pub symmetric : (x y : A) → same x y ≡ true → same y x ≡ true
  pub transitive : (x y z : A) → same x y ≡ true → same y z ≡ true → same x z ≡ true

module _ {A : Type 0} (same : A → A → Bool) (laws : IsEquality same) where
  all_of-keep :
      (x y : A) (xs : List A)
      → same x y ≡ true
      → all_of (same x) (keep (λ z. not (same y z)) xs) ≡ true
      → all_of (same x) xs ≡ true
  all_of-keep x y [] e h = refl
  all_of-keep x y (z ∷ xs) e h = elim (Bool-cases (same y z)) [
    | inl s ↦ ground (arith, laws.transitive x y z e s, all_of-keep x y xs e (ground (arith, s, h)))
    | inr d ↦ ground (arith, d, h, all_of-keep x y xs e (ground (arith, d, h)))
  ]

  all_of-distinct :
      (x : A) (xs : List A)
      → all_of (same x) (distinct same xs) ≡ true
      → All (λ y. same x y ≡ true) xs
  all_of-distinct x [] h = tt
  all_of-distinct x (y ∷ xs) h =
      let first : same x y ≡ true = ground (arith, h) in
      (first, all_of-distinct x xs (all_of-keep x y (distinct same xs) first (ground (arith, h))))

  keep_nothing :
      (x : A) (xs : List A) → length (keep (λ z. not (same x z)) xs) ≤ 0 → all_of (same x) xs ≡ true
  keep_nothing x [] h = refl
  keep_nothing x (y ∷ xs) h = elim (Bool-cases (same x y)) [
    | inl s ↦ ground (arith, s, keep_nothing x xs (ground (arith, s, h)))
    | inr d ↦ ground (arith, d, h)
  ]

  -- Of a set with at most one member, any two elements are the same.
  pub same_of_few :
      (xs : List A) (x y : A) → length (distinct same xs) ≤ 1 → In x xs → In y xs → same x y ≡ true
  same_of_few [] x y few h k = elim h [ ]
  same_of_few (z ∷ xs) x y few h k =
      let others : All (λ w. same z w ≡ true) (z ∷ xs) = (
        laws.reflexive z,
        all_of-distinct z xs (keep_nothing z (distinct same xs) (omega (arith, few))),
      ) in
      let to_x = All-lookup _ x (z ∷ xs) others h in
      let to_y = All-lookup _ y (z ∷ xs) others k in
      laws.transitive x z y (laws.symmetric z x to_x) to_y
