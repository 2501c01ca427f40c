-- ===== src/Pricing/Idempotent.antt =====
-- What a run of `persist_transaction_price_attributions` does to the table of attributions.
use retail_print_guard.Base.{
  ℕ, String, ◌||◌, List, [], ◌++◌, ◌≡◌, refl, sym, ap, subst, ◌∙◌, inl, inr, All-zip, Bool-cases,
  length, arith, append-nil,
}
use retail_print_guard.Base.Dict.{Dict}
use retail_print_guard.Pricing.Types.{Platform, DerivedPriceAttribution}
use retail_print_guard.Pricing.Persist.{
  contains_text, NormalizedDocument, Tables, add_missing, fingerprints, derived, existing_among,
  store, nothing_to_price, persist_transaction_price_attributions,
}
use retail_print_guard.Pricing.Fingerprints.{
  contains_text-append, contains_text-keep, Unique, Unique-append, fingerprints-append,
  add_missing-known, length-add_missing, IsCovered-add_missing, Unique-add_missing,
  among-add_missing, contains_text-fingerprints,
}

module _ (p : Platform) where
  abbrev Row : Type 0
  Row = DerivedPriceAttribution p

  contains_text-append_rows :
      (f : String) (xs ys : List Row)
      → contains_text f (fingerprints p (xs ++ ys))
        ≡ (contains_text f (fingerprints p xs) || contains_text f (fingerprints p ys))
  contains_text-append_rows f xs ys =
      ap (contains_text f) (fingerprints-append p xs ys)
      ∙ contains_text-append f (fingerprints p xs) (fingerprints p ys)

  -- A second pass over the same items finds nothing to add.
  store-store :
      (items stored : List Row)
      → store p items (store p items stored).1 ≡ (0, (store p items stored).1)
  store-store items stored =
      let added : List Row = (add_missing p items (existing_among p items stored)).1 in
      let all_known = add_missing-known p items (existing_among p items (stored ++ added)) (
        All-zip _ _ _ items
          (λ i covered among.
            let f = i.attribution_fingerprint in
            ground (
              arith,
              covered,
              among,
              contains_text-keep f (fingerprints p items) (fingerprints p stored),
              contains_text-keep f (fingerprints p items) (fingerprints p (stored ++ added)),
              contains_text-append_rows f stored added,
            ))
          (IsCovered-add_missing p items (existing_among p items stored))
          (contains_text-fingerprints p items)) in
      ap (λ r. (r.0, (stored ++ added) ++ r.1)) all_known
      ∙ ap (λ rows. (0, rows)) (append-nil (stored ++ added))

  Unique-store :
      (items stored : List Row)
      → Unique (fingerprints p stored)
      → Unique (fingerprints p (store p items stored).1)
  Unique-store items stored h =
      let existing = existing_among p items stored in
      let added : List Row = (add_missing p items existing).1 in
      let (unique, absent) = Unique-add_missing p items existing in
      subst Unique (sym (fingerprints-append p stored added)) (
        Unique-append (fingerprints p stored) (fingerprints p added) h unique (
          All-zip _ _ _ (fingerprints p added)
            (λ f new among. ground (
              arith,
              new,
              among,
              contains_text-keep f (fingerprints p items) (fingerprints p stored),
            ))
            absent (among-add_missing p items existing)))

  module _ (correlation_id : String) (documents : List NormalizedDocument)
      (version_ids : Dict String) where
    abbrev run : Tables p → ℕ × Tables p
    run = persist_transaction_price_attributions p correlation_id documents version_ids

    -- A second run over the same sale adds no row and leaves the tables as the first has left them.
    pub persist_twice : (tables : Tables p) → run (run tables).1 ≡ (0, (run tables).1)
    unfolding persist_transaction_price_attributions
    persist_twice tables = elim (Bool-cases (nothing_to_price p documents version_ids)) [
      | inl nothing ↦ rw nothing refl
      | inr something ↦ rw something (
          ap (λ r. (r.0, record tables { attributions = r.1 }))
            (store-store (derived p correlation_id documents version_ids tables.lines)
              tables.attributions))
    ]

    -- What a run leaves of the table of attributions: the old rows, then as many new ones as it
    -- answers, and no two with one fingerprint.
    pub record Appends (tables : Tables p) : Type 0 where
      pub added : List Row
      pub rows : (run tables).1.attributions ≡ tables.attributions ++ added
      pub count : length added ≡ (run tables).0
      pub unique : Unique (fingerprints p (run tables).1.attributions)
      pub lines : (run tables).1.lines ≡ tables.lines

    -- If no two rows of the table of attributions have one fingerprint, a run keeps every row,
    -- appends as many as it answers, leaves the lines alone, and no two rows have one fingerprint
    -- afterwards.
    pub persist-Appends :
        (tables : Tables p) → Unique (fingerprints p tables.attributions) → Appends tables
    unfolding persist_transaction_price_attributions
    persist-Appends tables h =
        let items = derived p correlation_id documents version_ids tables.lines in
        let existing = existing_among p items tables.attributions in
        elim (Bool-cases (nothing_to_price p documents version_ids)) [
          | inl nothing ↦ record {
            added = [];
            rows = rw nothing (sym (append-nil tables.attributions));
            count = rw nothing refl;
            unique = rw nothing h;
            lines = rw nothing refl;
          }
          | inr something ↦ record {
            added = (add_missing p items existing).1;
            rows = rw something refl;
            count = rw something (length-add_missing p items existing);
            unique = rw something (Unique-store items tables.attributions h);
            lines = rw something refl;
          }
        ]
