-- ===== src/Correlation/Lines.antt =====
-- The lines of documents in correlation/engine.py: their keys, their sums by key, the difference of
-- two collections, and the effect of a change ticket.
use Prim.Native.String.{◌++◌ as ◌+++◌}
use retail_print_guard.Base.{
  ℕ, suc, String, Bool, true, false, not, ◌||◌, Option, none, some, List, [], ◌∷◌, ◌++◌,
  if◌then◌else◌, str_eq, map, length, is_empty,
}
use retail_print_guard.Base.Dict.{Dict, lookup, insert}
use retail_print_guard.Base.Sort.{nub, common, sorted_set}
use retail_print_guard.Correlation.Types.{
  Platform, DocumentLine, NormalizedDocument, LineChange, LineChangeType,
}

-- `text or None`
abbrev or_none : String → Option String
or_none s = if str_eq s "" then none else some s

-- `a or b`, where an empty text counts as none.
abbrev pub or_text : Option String → Option String → Option String
or_text none b = b
or_text (some a) b = if str_eq a "" then b else some a

abbrev pub keys {ℓ} : {V : Type ℓ} → Dict V → List String
keys [] = []
keys ((k, v) ∷ d) = k ∷ keys d

-- `list.remove`, the first occurrence.
abbrev pub remove_text : String → List String → List String
remove_text k [] = []
remove_text k (x ∷ xs) = let rest = remove_text k xs in if str_eq k x then xs else x ∷ rest

module _ (p : Platform) where
  open p use {Amount, zero_amount, one_amount, plus, times, same, at_most, weight, fold, digits}

  abbrev Line : Type 0
  Line = DocumentLine p

  -- `_normalise`
  abbrev pub normalise : Option String → Option String
  normalise none = none
  normalise (some value) = or_none (fold value)

  -- `_line_key`
  unfoldable pub line_key : Line → ℕ → String
  line_key line ordinal = elim (normalise line.item_code) [
    | some code ↦ "CODE:" +++ code
    | none ↦ elim (normalise line.description) [
      | some description ↦ "DESC:" +++ description
      | none ↦ "POSITION:" +++ digits ordinal
    ]
  ]

  -- `_effective_unit_price`
  abbrev pub unit_price_of : Line → Option Amount
  unit_price_of line = elim line.modified_unit_price [ none ↦ line.unit_price | some a ↦ some a ]

  -- An entry of the dictionary of `_aggregate_lines`.
  pub record Aggregate : Type 0 where
    pub description : Option String
    pub quantity : Amount
    pub unit_price : Option Amount
    pub discount : Option Amount
    pub total : Option Amount
    pub source : Option String

  abbrev or_amount : Option Amount → Amount → Amount
  or_amount none b = b
  or_amount (some a) b = a

  -- `==` of two values that may be None.
  abbrev pub same_option : Option Amount → Option Amount → Bool
  same_option none none = true
  same_option none (some b) = false
  same_option (some a) none = false
  same_option (some a) (some b) = same a b

  abbrev add_total : Option Amount → Option Amount → Option Amount
  add_total (some a) (some b) = some (plus a b)
  add_total none (some b) = some b
  add_total a none = a

  abbrev first_entry : Line → Aggregate
  first_entry line = record {
    description = line.description;
    quantity = or_amount line.quantity one_amount;
    unit_price = unit_price_of line;
    discount = line.discount;
    total = line.line_total;
    source = line.source;
  }

  abbrev next_entry : Line → Aggregate → Aggregate
  next_entry line existing = record existing {
    quantity = plus existing.quantity (or_amount line.quantity one_amount);
    total = add_total existing.total line.line_total;
    unit_price =
        if same_option existing.unit_price (unit_price_of line)
        then existing.unit_price
        else unit_price_of line;
  }

  abbrev entry_for : Line → Option Aggregate → Aggregate
  entry_for line none = first_entry line
  entry_for line (some existing) = next_entry line existing

  -- The loop of `_aggregate_lines`, from a line's ordinal on.
  unfoldable pub aggregate_from : ℕ → List Line → Dict Aggregate → Dict Aggregate
  unfolding lookup insert line_key
  aggregate_from ordinal [] d = d
  aggregate_from ordinal (line ∷ lines) d =
      let key = line_key line ordinal in
      aggregate_from (suc ordinal) lines (insert key (entry_for line (lookup key d)) d)

  -- `_aggregate_lines`
  abbrev pub aggregate_lines : List Line → Dict Aggregate
  aggregate_lines lines = aggregate_from 0 lines []

  -- `set(_aggregate_lines(lines))`
  abbrev pub line_keys : List Line → List String
  line_keys lines = keys (aggregate_lines lines)

  -- `set(_aggregate_lines(a)) & set(_aggregate_lines(b))`
  abbrev pub shared_items : List Line → List Line → List String
  shared_items a b = common (line_keys a) (line_keys b)

  abbrev change_type_of : Option Aggregate → Option Aggregate → LineChangeType
  change_type_of none new = LineChangeType.added
  change_type_of (some old) none = LineChangeType.removed
  change_type_of (some old) (some new) =
      if not (same old.quantity new.quantity)
      then LineChangeType.quantity_changed
      else if not (same_option old.unit_price new.unit_price)
      then LineChangeType.price_changed
      else if not (same_option old.discount new.discount)
      then LineChangeType.discount_changed
      else LineChangeType.unchanged

  -- A field of an entry that may be missing.
  abbrev field_of {ℓ} : {A : Type ℓ} → (Aggregate → Option A) → Option Aggregate → Option A
  field_of f none = none
  field_of f (some a) = f a

  -- `(new or old)["description"]`
  abbrev described : Option Aggregate → Option Aggregate → Option String
  described old (some new) = new.description
  described old none = field_of (λ a. a.description) old

  abbrev pub change_of : String → Option Aggregate → Option Aggregate → LineChange p
  change_of key old new = record {
    item_key = key;
    description = described old new;
    change_type = change_type_of old new;
    before_quantity = field_of (λ a. some a.quantity) old;
    after_quantity = field_of (λ a. some a.quantity) new;
    before_unit_price = field_of (λ a. a.unit_price) old;
    after_unit_price = field_of (λ a. a.unit_price) new;
    before_discount = field_of (λ a. a.discount) old;
    after_discount = field_of (λ a. a.discount) new;
    before_total = field_of (λ a. a.total) old;
    after_total = field_of (λ a. a.total) new;
    before_source = field_of (λ a. a.source) old;
    after_source = field_of (λ a. a.source) new;
  }

  -- `compare_document_lines`
  unfoldable pub compare_document_lines : List Line → List Line → List (LineChange p)
  unfolding aggregate_from lookup
  compare_document_lines before after =
      let left = aggregate_lines before in
      let right = aggregate_lines after in
      map (λ key. change_of key (lookup key left) (lookup key right))
        (sorted_set (keys left ++ keys right))

  -- `_line_similarity`, as the numbers of common and of all keys.
  unfoldable pub line_similarity : NormalizedDocument p → NormalizedDocument p → Option (ℕ × ℕ)
  unfolding aggregate_from
  line_similarity left right =
      let a = line_keys left.lines in
      let b = line_keys right.lines in
      if is_empty a || is_empty b then none else some (length (common a b), length (nub (a ++ b)))
