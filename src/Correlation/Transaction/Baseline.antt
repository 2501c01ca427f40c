-- ===== src/Correlation/Transaction/Baseline.antt =====
-- The baseline that `_build_transaction` of correlation/engine.py compares a close with.
use retail_print_guard.Base.{
  ℕ, ◌≤◌, Bool, true, false, not, ◌&&◌, Option, none, some, ◌≡◌, refl, subst, inl, inr, ◌⊎◌, List,
  [], ◌∷◌, All, All-keep, All-In, In, keep, leb, is_some, is_empty, opt_eq, opt_eq_sound, arith,
  Bool-cases, Option-cases, String, sym, ap, ◌∙◌, ◌++◌,
}
use retail_print_guard.Domain.{is_pre_bill, is_management}
use retail_print_guard.Correlation.Types.{Platform, NormalizedDocument}
use retail_print_guard.Correlation.Lines.{normalise, shared_items}
use retail_print_guard.Correlation.Conflicts.{document_time, is_prebill_source}
use retail_print_guard.Correlation.Closing.{
  last_of, first_of, valid_fiscal, prebill_of, prebill_from, or_else, is_baseline_of,
  not_after_close,
}

cons_not_nil : {A : Type 0} {x : A} {xs : List A} → x ∷ xs ≡ [] → ⊥
cons_not_nil h = ground (arith, h)

some_injective : {A : Type 0} {a b : A} → some a ≡ some b → a ≡ b
some_injective h = cc h

last_of-All :
    {A : Type 0} (P : A → Type 0) (xs : List A) (a : A) → All P xs → last_of xs ≡ some a → P a
last_of-All P [] a h e = ground (arith, e)
last_of-All P (x ∷ []) a h e = subst P (cc e) h.0
last_of-All P (x ∷ y ∷ rest) a h e = last_of-All P (y ∷ rest) a h.1 e

and_left : (a b : Bool) → (a && b) ≡ true → a ≡ true
and_left true b h = refl
and_left false b h = h

and_right : (a b : Bool) → (a && b) ≡ true → b ≡ true
and_right true b h = h
and_right false b h = ground (arith, h)

or_else_cases :
    {A : Type 0} (a b : Option A) (d : A)
    → or_else a b ≡ some d
    → (a ≡ some d) ⊎ ((a ≡ none) × (b ≡ some d))
or_else_cases (some a) b d h = inl h
or_else_cases none b d h = inr (refl, h)

last_of-none : {A : Type 0} (xs : List A) → last_of xs ≡ none → xs ≡ []
last_of-none [] h = refl
last_of-none (x ∷ []) h = ground (arith, h)
last_of-none (x ∷ y ∷ rest) h = absurd (cons_not_nil (last_of-none (y ∷ rest) h))

none_kept :
    {A : Type 0} (test : A → Bool) (xs : List A) → keep test xs ≡ [] → All (λ x. test x ≡ false) xs
none_kept test [] h = tt
none_kept test (x ∷ xs) h = elim (Bool-cases (test x)) [
  | inl e ↦ absurd (cons_not_nil {x = x} {xs = keep test xs} (sym (rw e refl) ∙ h))
  | inr e ↦ (e, none_kept test xs (sym (rw e refl) ∙ h))
]

false_of_not : (a : Bool) → not a ≡ true → a ≡ false
false_of_not true h = ground (arith, h)
false_of_not false h = refl

last_of-cons :
    {A : Type 0} (x : A) (xs : List A) (a : A) → last_of xs ≡ some a → last_of (x ∷ xs) ≡ some a
last_of-cons x [] a h = ground (arith, h)
last_of-cons x (y ∷ ys) a h = h

-- What is kept last, with what stands behind it.
last_kept :
    {A : Type 0} (test : A → Bool) (xs : List A) (a : A)
    → last_of (keep test xs) ≡ some a
    → (before : List A) × ((after : List A) × ((xs ≡ before ++ a ∷ after)
          × All (λ x. test x ≡ false) after))
last_kept test [] a h = ground (arith, h)
last_kept test (x ∷ xs) a h = elim (Bool-cases (test x)) [
  | inr e ↦
      let (before, (after, (split, none_after))) = last_kept test xs a (sym (rw e refl) ∙ h) in
      (x ∷ before, (after, (ap (λ l. x ∷ l) split, none_after)))
  | inl e ↦
      let last : last_of (x ∷ keep test xs) ≡ some a = sym (rw e refl) ∙ h in
      elim (Option-cases (last_of (keep test xs))) [
        | inl empty ↦
            let nothing = last_of-none (keep test xs) empty in
            let first : some x ≡ some a = sym (rw nothing refl) ∙ last in
            ([], (xs, (ap (λ y. y ∷ xs) (some_injective first), none_kept test xs nothing)))
        | inr (b, found) ↦
            let same = some_injective (sym (last_of-cons x (keep test xs) b found) ∙ last) in
            let (before, (after, (split, none_after))) =
              last_kept test xs a (found ∙ ap some same) in
            (x ∷ before, (after, (ap (λ l. x ∷ l) split, none_after)))
      ]
]

module _ (p : Platform) where
  abbrev Document : Type 0
  Document = NormalizedDocument p

  -- Both documents name one table.
  abbrev pub SameTable : Document → Document → Type 0
  SameTable close d =
      (table : String) × ((normalise p d.table_code ≡ some table)
        × (normalise p close.table_code ≡ some table))

  -- No document is a pre-bill that is not later than the close.
  abbrev pub NoPreBill : Document → List Document → Type 0
  NoPreBill close documents =
      All (λ e. (is_pre_bill e.kind && leb (document_time p e) (document_time p close)) ≡ false)
        documents

  -- The document is followed by no pre-bill that is not later than the close.
  abbrev pub LastPreBill : Document → List Document → Document → Type 0
  LastPreBill close documents d =
      (before : List Document) × ((after : List Document) × ((documents ≡ before ++ d ∷ after)
          × NoPreBill close after))

  -- The last pre-bill up to the close, or, where there is none up to the close, a management document
  -- that is one in all but its type and names the table of the close and an item of it.
  abbrev pub IsBaselineOf : Document → List Document → Document → Type 0
  IsBaselineOf close documents d =
      ((is_pre_bill d.kind ≡ true) × LastPreBill close documents d)
      ⊎ (NoPreBill close documents
          × ((is_prebill_source p d ≡ true)
              × ((is_management d.kind ≡ true)
                  × (SameTable close d × (is_empty (shared_items p d.lines close.lines) ≡ false)))))

  leb_le : (a b : ℕ) → leb a b ≡ true → a ≤ b
  leb_le a b h = ground arith

  -- What a kept document says of the close.
  Justified : Document → List Document → Document → Type 0
  Justified close documents d =
      In d documents
      × ((document_time p d ≤ document_time p close) × IsBaselineOf close documents d)

  pre_bill-Justified :
      (close : Document) (documents : List Document) (d : Document)
      → last_of (keep (λ e. is_pre_bill e.kind && not_after_close p (some close) e) documents)
        ≡ some d
      → Justified close documents d
  unfolding Justified
  pre_bill-Justified close documents d h =
      let (here, test) =
        last_of-All _ _ d
          (All-keep (λ e. In e documents)
            (λ e. is_pre_bill e.kind && not_after_close p (some close) e) documents
            (All-In documents))
          h in
      (
        here,
        (
          leb_le _ _ (and_right (is_pre_bill d.kind) _ test),
          inl (and_left (is_pre_bill d.kind) _ test, last_kept _ documents d h),
        ),
      )

  -- What a kept management document says.
  management-kept :
      (close : Document) (documents : List Document) (d : Document)
      → last_of (keep (is_baseline_of p close) documents) ≡ some d
      → In d documents × (is_baseline_of p close d ≡ true)
  management-kept close documents d h =
      last_of-All _ _ d
        (All-keep (λ e. In e documents) (is_baseline_of p close) documents (All-In documents)) h

  table_of :
      (close d : Document)
      → is_some (normalise p close.table_code) ≡ true
      → opt_eq (normalise p d.table_code) (normalise p close.table_code) ≡ true
      → SameTable close d
  table_of close d named equal = elim (Option-cases (normalise p close.table_code)) [
    | inl e ↦ ground (arith, rw e at named)
    | inr (table, e) ↦ (table, (opt_eq_sound _ _ equal ∙ e, e))
  ]

  management-Justified :
      (close : Document) (documents : List Document) (d : Document)
      → NoPreBill close documents
      → last_of (keep (is_baseline_of p close) documents) ≡ some d
      → Justified close documents d
  unfolding Justified
  management-Justified close documents d alone h =
      let (here, test) = management-kept close documents d h in
      let items = and_right _ (not (is_empty (shared_items p d.lines close.lines))) test in
      let upto_table = and_left _ (not (is_empty (shared_items p d.lines close.lines))) test in
      let equal =
        and_right _ (opt_eq (normalise p d.table_code) (normalise p close.table_code)) upto_table in
      let upto_named =
        and_left _ (opt_eq (normalise p d.table_code) (normalise p close.table_code)) upto_table in
      let named = and_right _ (is_some (normalise p close.table_code)) upto_named in
      let upto_time = and_left _ (is_some (normalise p close.table_code)) upto_named in
      let time = and_right _ (not_after_close p (some close) d) upto_time in
      let kinds = and_left _ (not_after_close p (some close) d) upto_time in
      (
        here,
        (
          leb_le _ _ time,
          inr (
            alone,
            (
              and_left (is_prebill_source p d) (is_management d.kind) kinds,
              (
                and_right (is_prebill_source p d) (is_management d.kind) kinds,
                (table_of close d named equal, false_of_not _ items),
              ),
            ),
          ),
        ),
      )

  prebill_from-Justified :
      (close : Document) (documents : List Document) (d : Document)
      → prebill_from p (some close) documents ≡ some d
      → Justified close documents d
  prebill_from-Justified close documents d h = elim (or_else_cases _ _ d h) [
    | inl g ↦ pre_bill-Justified close documents d g
    | inr (empty, g) ↦
        management-Justified close documents d (none_kept _ documents (last_of-none _ empty)) g
  ]

  -- Where a valid commercial document closes the sale and there is a baseline, the baseline is a
  -- document of the sale that is not later than the first close. It is the last pre-bill up to the
  -- close; or no document up to the close is one, and it is a complete management document without an
  -- economic close of its own that names the same table as the close (both name one) and one of its
  -- items.
  pub prebill_of-IsBaseline :
      (documents : List Document) (close d : Document)
      → first_of (valid_fiscal p documents) ≡ some close
      → prebill_of p documents ≡ some d
      → In d documents
        × ((document_time p d ≤ document_time p close) × IsBaselineOf close documents d)
  unfolding prebill_of Justified
  prebill_of-IsBaseline documents close d closes chosen =
      prebill_from-Justified close documents d
        (subst (λ c. prebill_from p c documents ≡ some d) closes chosen)
