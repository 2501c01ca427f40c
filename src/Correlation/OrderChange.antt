-- ===== src/Correlation/OrderChange.antt =====
-- `apply_order_change_lines` of correlation/engine.py: the lines of an order after change tickets.
pub mod Positive
use retail_print_guard.Base.{
  ℕ, suc, ◌+◌, String, Bool, true, false, not, ◌&&◌, ◌||◌, Option, none, some, List, [], ◌∷◌, ◌++◌,
  if◌then◌else◌, str_eq, is_some, map,
}
use retail_print_guard.Base.Dict.{Dict, lookup, insert, erase}
use retail_print_guard.Correlation.Types.{Platform, DocumentLine}
use retail_print_guard.Correlation.Lines.{line_key, unit_price_of, or_text, remove_text}

module _ (p : Platform) where
  open p use {Amount, zero_amount, one_amount, plus, times, same, at_most}

  abbrev Line : Type 0
  Line = DocumentLine p

  -- `quantity or other`: a missing and a zero quantity count as none.
  abbrev pub quantity_or : Option Amount → Amount → Amount
  quantity_or none other = other
  quantity_or (some a) other = if same a zero_amount then other else a

  -- `state` and `order`
  pub record Lines : Type 0 where
    pub state : Dict Line
    pub order : List String

  abbrev merged : Line → Line → Line
  merged line current = record current {
    quantity =
        some
          (plus (quantity_or current.quantity one_amount) (quantity_or line.quantity one_amount));
  }

  abbrev seed_line : Line → String → Lines → Lines
  seed_line line key s = elim (lookup key s.state) [
    | none ↦ record { state = insert key line s.state; order = s.order ++ key ∷ [] }
    | some current ↦ record s { state = insert key (merged line current) s.state }
  ]

  -- The loop over the lines before.
  unfoldable pub seed_from : ℕ → List Line → Lines → Lines
  unfolding lookup insert line_key
  seed_from ordinal [] s = s
  seed_from ordinal (line ∷ lines) s =
      seed_from (suc ordinal) lines (seed_line line (line_key p line ordinal) s)

  abbrev changed : Line → Line → Amount → Line
  changed delta current residual = record current {
    quantity = some residual;
    line_total = elim (unit_price_of p current) [
      | none ↦ current.line_total
      | some price ↦ some (times price residual)
    ];
    state = some "CHANGED";
    raw_text = or_text delta.raw_text current.raw_text;
    source = elim delta.source [ none ↦ current.source | some span ↦ some span ];
  }

  abbrev explicitly_removed : Line → Bool
  explicitly_removed delta = delta.removed || delta.cancelled

  abbrev delta_quantity : Line → Amount
  delta_quantity delta = quantity_or delta.quantity zero_amount

  abbrev residual_of : Line → Line → Amount
  residual_of delta current = plus (quantity_or current.quantity one_amount) (delta_quantity delta)

  -- One round of the loop over the changes.
  unfoldable pub apply_delta : Line → String → Lines → Lines
  unfolding lookup insert erase
  apply_delta delta key s = elim (lookup key s.state) [
    | none ↦
        if explicitly_removed delta || at_most (delta_quantity delta) zero_amount
        then s
        else record { state = insert key delta s.state; order = s.order ++ key ∷ [] }
    | some current ↦
        if explicitly_removed delta || at_most (residual_of delta current) zero_amount
        then record { state = erase key s.state; order = remove_text key s.order }
        else record s {
          state = insert key (changed delta current (residual_of delta current)) s.state;
        }
  ]

  unfoldable pub apply_from : ℕ → List Line → Lines → Lines
  unfolding apply_delta line_key
  apply_from ordinal [] s = s
  apply_from ordinal (delta ∷ deltas) s =
      apply_from (suc ordinal) deltas (apply_delta delta (line_key p delta ordinal) s)

  -- `state[key] for key in order if key in state`
  unfoldable pub listed : Dict Line → List String → List Line
  unfolding lookup
  listed state [] = []
  listed state (key ∷ order) =
      let rest = listed state order in
      elim (lookup key state) [ none ↦ rest | some line ↦ line ∷ rest ]

  -- `apply_order_change_lines`
  unfoldable pub apply_order_change_lines : List Line → List Line → List Line
  unfolding seed_from apply_from listed
  apply_order_change_lines before deltas =
      let end = apply_from 0 deltas (seed_from 0 before (record { state = []; order = [] })) in
      listed end.state end.order
