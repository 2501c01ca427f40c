-- ===== src/Correlation/OrderChange/Positive.antt =====
-- The quantities that `apply_order_change_lines` of correlation/engine.py leaves.
use retail_print_guard.Base.{
  ℕ, suc, String, true, false, ◌||◌, Option, none, some, List, [], ◌∷◌, ◌≡◌, subst, inl, inr, All,
  Bool-cases, Option-cases, str_eq, arith,
}
use retail_print_guard.Base.Dict.{Dict, lookup, insert, erase}
use retail_print_guard.Correlation.Types.{Platform, DocumentLine}
use retail_print_guard.Correlation.Lines.{line_key}
use retail_print_guard.Correlation.OrderChange.{
  quantity_or, Lines, merged, seed_line, seed_from, changed, explicitly_removed, delta_quantity,
  residual_of, apply_delta, apply_from, listed, apply_order_change_lines,
}

-- The value under every key has the property.
abbrev AllValues {ℓ} : {V : Type ℓ} → (V → Type 0) → Dict V → Type 0
AllValues P [] = Unit
AllValues P ((k, v) ∷ d) = P v × AllValues P d

module _ {ℓ} {V : Type ℓ} (P : V → Type 0) where
  AllValues-insert :
      (k : String) (v : V) (d : Dict V) → P v → AllValues P d → AllValues P (insert k v d)
  unfolding insert
  AllValues-insert k v [] h hs = (h, tt)
  AllValues-insert k v ((j, w) ∷ d) h hs = ground (arith, AllValues-insert k v d h hs.1)

  AllValues-erase : (k : String) (d : Dict V) → AllValues P d → AllValues P (erase k d)
  unfolding erase
  AllValues-erase k [] hs = tt
  AllValues-erase k ((j, w) ∷ d) hs = ground (arith, AllValues-erase k d hs.1)

  value_lem : (k : String) (v : V) (d : Dict V) → AllValues P d → lookup k d ≡ some v → P v
  unfolding lookup
  value_lem k v [] hs e = ground (arith, e)
  value_lem k v ((j, w) ∷ d) hs e = elim (Bool-cases (str_eq j k)) [
    | inl here ↦ subst P (cc (rw here at e)) hs.0
    | inr further ↦ value_lem k v d hs.1 (rw further at e)
  ]

module _ (p : Platform) where
  open p use {Amount, zero_amount, one_amount, plus, same, at_most}

  -- What is relied on of decimals.
  pub record IsOrdered : Type 0 where
    pub zero_at_most : at_most zero_amount zero_amount ≡ true
    pub one_positive : at_most one_amount zero_amount ≡ false
    pub plus_positive :
        (a b : Amount)
        → at_most a zero_amount ≡ false
        → at_most b zero_amount ≡ false
        → at_most (plus a b) zero_amount ≡ false

  -- The quantity that is there is above zero; a missing one, which counts as 1, may stay missing.
  abbrev pub IsAboveZero : Option Amount → Type 0
  IsAboveZero none = Unit
  IsAboveZero (some a) = at_most a zero_amount ≡ false

  abbrev pub IsPositive : DocumentLine p → Type 0
  IsPositive line = IsAboveZero line.quantity

  module _ (laws : IsOrdered) where
    counted :
        (q : Option Amount)
        → IsAboveZero q
        → at_most (quantity_or p q one_amount) zero_amount ≡ false
    counted none h = laws.one_positive
    counted (some a) h = ground (arith, h, laws.one_positive)

    IsPositive-merged :
        (line current : DocumentLine p)
        → IsPositive line
        → IsPositive current
        → IsPositive (merged p line current)
    IsPositive-merged line current h k =
        laws.plus_positive (quantity_or p current.quantity one_amount)
          (quantity_or p line.quantity one_amount) (counted current.quantity k)
          (counted line.quantity h)

    IsPositive-changed :
        (delta current : DocumentLine p)
        → at_most (residual_of p delta current) zero_amount ≡ false
        → IsPositive (changed p delta current (residual_of p delta current))
    IsPositive-changed delta current h = h

    named-IsAboveZero :
        (q : Option Amount)
        → at_most (quantity_or p q zero_amount) zero_amount ≡ false
        → IsAboveZero q
    named-IsAboveZero none h = tt
    named-IsAboveZero (some a) h = ground (arith, h, laws.zero_at_most)

    IsPositive-new :
        (delta : DocumentLine p)
        → at_most (delta_quantity p delta) zero_amount ≡ false
        → IsPositive delta
    IsPositive-new delta h = named-IsAboveZero delta.quantity h

    seed_from-keeps :
        (ordinal : ℕ) (lines : List (DocumentLine p)) (s : Lines p)
        → All IsPositive lines
        → AllValues IsPositive s.state
        → AllValues IsPositive (seed_from p ordinal lines s).state
    unfolding seed_from
    seed_from-keeps ordinal [] s h hs = hs
    seed_from-keeps ordinal (line ∷ lines) s h hs =
        seed_from-keeps (suc ordinal) lines (seed_line p line (line_key p line ordinal) s) h.1
          (one (line_key p line ordinal))
      where
        one : (key : String) → AllValues IsPositive (seed_line p line key s).state
        one key = elim (Option-cases (lookup key s.state)) [
          | inl e ↦ rw (e, seed_line) (AllValues-insert IsPositive key line s.state h.0 hs)
          | inr (current, e) ↦
              rw (e, seed_line)
                (AllValues-insert IsPositive key (merged p line current) s.state
                  (IsPositive-merged line current h.0
                    (value_lem IsPositive key current s.state hs e))
                  hs)
        ]

    apply_delta-keeps :
        (delta : DocumentLine p) (key : String) (s : Lines p)
        → AllValues IsPositive s.state
        → AllValues IsPositive (apply_delta p delta key s).state
    unfolding apply_delta
    apply_delta-keeps delta key s hs = elim (Option-cases (lookup key s.state)) [
      | inl e ↦
          elim (Bool-cases
            (explicitly_removed p delta || at_most (delta_quantity p delta) zero_amount)) [
              | inl skipped ↦ rw (e, apply_delta) (rw skipped hs)
              | inr taken ↦
                  rw (e, apply_delta)
                    (rw taken (
                      AllValues-insert IsPositive key delta s.state
                        (IsPositive-new delta (ground (arith, taken))) hs))
            ]
      | inr (current, e) ↦
          elim (Bool-cases
            (explicitly_removed p delta || at_most (residual_of p delta current) zero_amount)) [
              | inl gone ↦ rw (e, apply_delta) (rw gone (AllValues-erase IsPositive key s.state hs))
              | inr stays ↦
                  rw (e, apply_delta)
                    (rw stays (
                      AllValues-insert IsPositive key
                        (changed p delta current (residual_of p delta current)) s.state
                        (IsPositive-changed delta current (ground (arith, stays))) hs))
            ]
    ]

    apply_from-keeps :
        (ordinal : ℕ) (deltas : List (DocumentLine p)) (s : Lines p)
        → AllValues IsPositive s.state
        → AllValues IsPositive (apply_from p ordinal deltas s).state
    unfolding apply_from
    apply_from-keeps ordinal [] s hs = hs
    apply_from-keeps ordinal (delta ∷ deltas) s hs =
        apply_from-keeps (suc ordinal) deltas (apply_delta p delta (line_key p delta ordinal) s)
          (apply_delta-keeps delta (line_key p delta ordinal) s hs)

    listed-keeps :
        (state : Dict (DocumentLine p)) (order : List String)
        → AllValues IsPositive state
        → All IsPositive (listed p state order)
    unfolding listed
    listed-keeps state [] hs = tt
    listed-keeps state (key ∷ order) hs = elim (Option-cases (lookup key state)) [
      | inl e ↦ rw (e, listed) (listed-keeps state order hs)
      | inr (line, e) ↦
          rw (e, listed) (value_lem IsPositive key line state hs e, listed-keeps state order hs)
    ]

  -- If every quantity that the lines before name is above zero, so is every quantity that the lines of
  -- the order name after any changes: a line whose quantity reaches zero or less is gone, and none is
  -- added with such a quantity. (A missing quantity counts as 1.)
  pub apply_order_change_lines-IsPositive :
      (before deltas : List (DocumentLine p))
      → IsOrdered
      → All IsPositive before
      → All IsPositive (apply_order_change_lines p before deltas)
  unfolding apply_order_change_lines
  apply_order_change_lines-IsPositive before deltas laws h =
      let start : Lines p = record { state = []; order = [] } in
      let seeded = seed_from p 0 before start in
      let end = apply_from p 0 deltas seeded in
      listed-keeps laws end.state end.order
        (apply_from-keeps laws 0 deltas seeded (seed_from-keeps laws 0 before start h tt))
