-- ===== src/Pricing/Fingerprints.antt =====
-- The fingerprints of the rows that `add_missing` of Pricing/Persist adds.
use retail_print_guard.Base.{
  suc, String, true, false, ◌&&◌, ◌||◌, List, [], ◌∷◌, ◌++◌, ◌≡◌, refl, sym, ap, subst, inl, inr,
  All, All-map, Bool-cases, str_eq, str_eq_iff, str_eq_refl, keep, length, arith,
}
use retail_print_guard.Pricing.Types.{Platform, DerivedPriceAttribution}
use retail_print_guard.Pricing.Persist.{contains_text, add_missing, fingerprints}

pub contains_text-append :
    (s : String) (xs ys : List String)
    → contains_text s (xs ++ ys) ≡ (contains_text s xs || contains_text s ys)
contains_text-append s [] ys = refl
contains_text-append s (x ∷ xs) ys = ground (arith, contains_text-append s xs ys)

pub contains_text-keep :
    (s : String) (zs xs : List String)
    → contains_text s (keep (λ x. contains_text x zs) xs)
      ≡ (contains_text s xs && contains_text s zs)
contains_text-keep s zs [] = refl
contains_text-keep s zs (x ∷ xs) = elim (Bool-cases (str_eq s x)) [
  | inl e ↦
      ground
        (arith, e, ap (λ t. contains_text t zs) ((str_eq_iff s x).0 e), contains_text-keep s zs xs)
  | inr e ↦ ground (arith, e, contains_text-keep s zs xs)
]

-- No text stands twice.
abbrev pub Unique : List String → Type 0
Unique [] = Unit
Unique (x ∷ xs) = (contains_text x xs ≡ false) × Unique xs

other_than :
    (x : String) (ys : List String) → All (λ y. str_eq y x ≡ false) ys → contains_text x ys ≡ false
other_than x [] h = refl
other_than x (y ∷ ys) h = ground (arith, h.0, str_eq_iff x y, str_eq_iff y x, other_than x ys h.1)

pub Unique-append :
    (xs ys : List String)
    → Unique xs
    → Unique ys
    → All (λ y. contains_text y xs ≡ false) ys
    → Unique (xs ++ ys)
Unique-append [] ys hx hy h = hy
Unique-append (x ∷ xs) ys hx hy h = (
  ground (
    arith,
    contains_text-append x xs ys,
    hx.0,
    other_than x ys (All-map _ _ ys (λ y e. ground (arith, e)) h),
  ),
  Unique-append xs ys hx.1 hy (All-map _ _ ys (λ y e. ground (arith, e)) h),
)

module _ (p : Platform) where
  abbrev Row : Type 0
  Row = DerivedPriceAttribution p

  pub fingerprints-append :
      (xs ys : List Row) → fingerprints p (xs ++ ys) ≡ fingerprints p xs ++ fingerprints p ys
  fingerprints-append [] ys = refl
  fingerprints-append (x ∷ xs) ys =
      ap (λ t. x.attribution_fingerprint ∷ t) (fingerprints-append xs ys)

  pub add_missing-known :
      (items : List Row) (existing : List String)
      → All (λ i. contains_text i.attribution_fingerprint existing ≡ true) items
      → add_missing p items existing ≡ (0, [])
  unfolding add_missing
  add_missing-known [] existing h = refl
  add_missing-known (i ∷ items) existing h = rw h.0 (add_missing-known items existing h.1)

  pub length-add_missing :
      (items : List Row) (existing : List String)
      → length (add_missing p items existing).1 ≡ (add_missing p items existing).0
  unfolding add_missing
  length-add_missing [] existing = refl
  length-add_missing (i ∷ items) existing =
      elim (Bool-cases (contains_text i.attribution_fingerprint existing)) [
        | inl old ↦ rw old (length-add_missing items existing)
        | inr new ↦
            rw new (ap suc (length-add_missing items (i.attribution_fingerprint ∷ existing)))
      ]

  add_missing-old :
      (i : Row) (items : List Row) (existing : List String)
      → contains_text i.attribution_fingerprint existing ≡ true
      → add_missing p (i ∷ items) existing ≡ add_missing p items existing
  unfolding add_missing
  add_missing-old i items existing old = rw old refl

  add_missing-new :
      (i : Row) (items : List Row) (existing : List String)
      → contains_text i.attribution_fingerprint existing ≡ false
      → (add_missing p (i ∷ items) existing).1
        ≡ i ∷ (add_missing p items (i.attribution_fingerprint ∷ existing)).1
  unfolding add_missing
  add_missing-new i items existing new = rw new refl

  -- The item has its fingerprint among the old ones or among those of the added rows.
  abbrev pub IsCovered : List String → List Row → Row → Type 0
  IsCovered existing added i =
      (contains_text i.attribution_fingerprint existing
        || contains_text i.attribution_fingerprint (fingerprints p added))
      ≡ true

  pub IsCovered-add_missing :
      (items : List Row) (existing : List String)
      → All (IsCovered existing (add_missing p items existing).1) items
  IsCovered-add_missing [] existing = tt
  IsCovered-add_missing (i ∷ items) existing =
      let f = i.attribution_fingerprint in
      elim (Bool-cases (contains_text f existing)) [
        | inl old ↦
            subst (λ r. All (IsCovered existing r.1) (i ∷ items))
              (sym (add_missing-old i items existing old))
              (rw old refl, IsCovered-add_missing items existing)
        | inr new ↦
            subst (λ added. All (IsCovered existing added) (i ∷ items))
              (sym (add_missing-new i items existing new))
              (
                ground (arith, str_eq_refl f),
                All-map _ _ items (λ j e. ground (arith, e))
                    (IsCovered-add_missing items (f ∷ existing)),
              )
      ]

  -- What is added is new, and no two of it have one fingerprint.
  pub Unique-add_missing :
      (items : List Row) (existing : List String)
      → Unique (fingerprints p (add_missing p items existing).1)
        × All
            (λ f. contains_text f existing ≡ false)
            (fingerprints p (add_missing p items existing).1)
  unfolding add_missing
  Unique-add_missing [] existing = (tt, tt)
  Unique-add_missing (i ∷ items) existing =
      elim (Bool-cases (contains_text i.attribution_fingerprint existing)) [
        | inl old ↦ rw old (Unique-add_missing items existing)
        | inr new ↦
            let f = i.attribution_fingerprint in
            let (unique, absent) = Unique-add_missing items (f ∷ existing) in
            rw new (
              (other_than f _ (All-map _ _ _ (λ g e. ground (arith, e)) absent), unique),
              (new, All-map _ _ _ (λ g e. ground (arith, e)) absent),
            )
      ]

  -- What is added is among the items.
  pub among-add_missing :
      (items : List Row) (existing : List String)
      → All
          (λ f. contains_text f (fingerprints p items) ≡ true)
          (fingerprints p (add_missing p items existing).1)
  unfolding add_missing
  among-add_missing [] existing = tt
  among-add_missing (i ∷ items) existing =
      elim (Bool-cases (contains_text i.attribution_fingerprint existing)) [
        | inl old ↦
            rw old (All-map _ _ _ (λ g e. ground (arith, e)) (among-add_missing items existing))
        | inr new ↦
            let f = i.attribution_fingerprint in
            rw new (
              ground (arith, str_eq_refl f),
              All-map _ _ _ (λ g e. ground (arith, e)) (among-add_missing items (f ∷ existing)),
            )
      ]

  pub contains_text-fingerprints :
      (items : List Row)
      → All (λ i. contains_text i.attribution_fingerprint (fingerprints p items) ≡ true) items
  contains_text-fingerprints [] = tt
  contains_text-fingerprints (i ∷ items) = (
    ground (arith, str_eq_refl i.attribution_fingerprint),
    All-map _ _ items (λ j e. ground (arith, e)) (contains_text-fingerprints items),
  )
