-- ===== src/Correlation/Conflicts.antt =====
-- What correlation/engine.py reads off one document, and the conflicts that keep two documents
-- apart.
use retail_print_guard.Base.{
  ℕ, ◌-◌, ◌+◌, ◌*◌, String, Bool, true, false, not, ◌&&◌, ◌||◌, Option, none, some, List, [], ◌∷◌,
  ◌++◌, if◌then◌else◌, str_eq, opt_eq, is_some, all_of, leb, ltb, ◌==◌, length, map,
}
use retail_print_guard.Base.Sort.{nub, text_le}
use retail_print_guard.Domain.{
  DocumentType, is_management, is_commercial, is_pre_bill, is_device_response,
}
use retail_print_guard.Correlation.Types.{Platform, NormalizedDocument, PairScore, Detail}
use retail_print_guard.Correlation.Lines.{normalise}

abbrev pub seconds : ℕ → ℕ
seconds n = n * 1000000

-- `abs((b - a).total_seconds())`, in microseconds
abbrev pub gap : ℕ → ℕ → ℕ
gap a b = (b - a) + (a - b)

-- The sets of types at the top of the module.
abbrev pub is_source_type : DocumentType → Bool
is_source_type DocumentType.order = true
is_source_type DocumentType.order_change = true
is_source_type DocumentType.kitchen_order = true
is_source_type DocumentType.pre_bill = true
is_source_type DocumentType.management_document = true
is_source_type _ = false

abbrev pub is_followup_type : DocumentType → Bool
is_followup_type DocumentType.commercial_document = true
is_followup_type DocumentType.refund = true
is_followup_type DocumentType.payment = true
is_followup_type DocumentType.cancellation = true
is_followup_type _ = false

abbrev pub is_fiscal_sibling_type : DocumentType → Bool
is_fiscal_sibling_type DocumentType.commercial_document = true
is_fiscal_sibling_type DocumentType.refund = true
is_fiscal_sibling_type DocumentType.payment = true
is_fiscal_sibling_type _ = false

abbrev pub is_auxiliary_type : DocumentType → Bool
is_auxiliary_type DocumentType.conforming_copy = true
is_auxiliary_type DocumentType.reprint = true
is_auxiliary_type DocumentType.device_response = true
is_auxiliary_type DocumentType.refund = true
is_auxiliary_type DocumentType.shift_end_report = true
is_auxiliary_type DocumentType.invoice = true
is_auxiliary_type _ = false

abbrev is_copy : DocumentType → Bool
is_copy DocumentType.conforming_copy = true
is_copy DocumentType.reprint = true
is_copy _ = false

-- `_progressive_namespace`, as the text it answers
abbrev pub progressive_namespace : DocumentType → Option String
progressive_namespace DocumentType.pre_bill = some "MANAGEMENT"
progressive_namespace DocumentType.management_document = some "MANAGEMENT"
progressive_namespace DocumentType.commercial_document = some "COMMERCIAL"
progressive_namespace DocumentType.refund = some "COMMERCIAL"
progressive_namespace _ = none

-- Both are there, and they differ.
abbrev pub differ : Option String → Option String → Bool
differ none b = false
differ (some a) none = false
differ (some a) (some b) = not (str_eq a b)

-- Both are there, and they are equal.
abbrev pub agree : Option String → Option String → Bool
agree none b = false
agree (some a) none = false
agree (some a) (some b) = str_eq a b

module _ (p : Platform) where
  open p use {counter}

  abbrev Document : Type 0
  Document = NormalizedDocument p

  -- `_document_time`
  abbrev pub document_time : Document → ℕ
  document_time d = elim d.document_timestamp [ none ↦ d.captured_at | some t ↦ t ]

  -- `_total`
  abbrev pub total_of : Document → Option p.Amount
  total_of d = elim d.gross_total [ none ↦ d.net_total | some a ↦ some a ]

  abbrev known_text : Option String → List String
  known_text none = []
  known_text (some s) = s ∷ []

  -- `_metadata_references`
  abbrev pub metadata_references : Document → List String
  metadata_references d =
      known_text (normalise p d.raw_metadata.reference)
      ++ (known_text (normalise p d.raw_metadata.order_reference)
          ++ (known_text (normalise p d.raw_metadata.document_reference)
              ++ known_text (normalise p d.raw_metadata.transaction_reference)))

  -- `_printed_counter_suffix`
  abbrev pub printed_counter_suffix : Option String → Option String
  printed_counter_suffix value = elim (normalise p value) [ none ↦ none | some s ↦ counter s ]

  -- The economic close that a management document may be.
  abbrev pub closes : Document → Bool
  closes d =
      d.raw_metadata.economic_close || opt_eq d.raw_metadata.settlement_kind (some "ROOM_CHARGE")

  -- `_is_auxiliary`
  abbrev pub is_auxiliary : Document → Bool
  is_auxiliary d =
      is_auxiliary_type d.kind
      || is_management d.kind && is_some d.commercial_reference_code && not (closes d)

  -- `_is_prebill_source`
  abbrev pub is_prebill_source : Document → Bool
  is_prebill_source d =
      is_pre_bill d.kind
      || is_management d.kind
        && d.complete
        && is_some (total_of d)
        && not (is_some d.commercial_reference_code)
        && not (closes d)

  -- `_compatible`
  unfoldable pub compatible : Document → Document → Bool
  compatible left right =
      if is_device_response left.kind || is_device_response right.kind
      then false
      else if is_copy left.kind || is_copy right.kind
      then is_commercial left.kind || is_commercial right.kind
      else if is_commercial left.kind && is_commercial right.kind
      then false
      else is_source_type left.kind && is_source_type right.kind
        || is_source_type left.kind && is_followup_type right.kind
        || is_source_type right.kind && is_followup_type left.kind

  -- `_strong_reference`
  abbrev pub strong_reference : Document → Option String
  strong_reference d = elim (normalise p d.raw_metadata.order_reference) [
    | some s ↦ some s
    | none ↦ normalise p d.raw_metadata.transaction_reference
  ]

  abbrev known : List (Option String) → List String
  known [] = []
  known (none ∷ vs) = known vs
  known (some v ∷ vs) = v ∷ known vs

  -- `all(values) and len(set(values)) == 1`
  abbrev all_one : List (Option String) → Bool
  all_one values = all_of is_some values && length (nub (known values)) == 1

  -- `_shared_strong_sale_identity`
  unfoldable pub shared_strong_sale_identity : List Document → Bool
  shared_strong_sale_identity items =
      leb 2 (length items)
      && (all_one (map (λ d. normalise p d.order_code) items)
          || all_one (map strong_reference items))

  -- `_identity_conflict`: the reason, where there is one.
  unfoldable pub identity_conflict : Document → Document → Option String
  identity_conflict left right =
      if differ (normalise p left.order_code) (normalise p right.order_code)
      then some "order_code in conflitto"
      else if differ (normalise p left.table_code) (normalise p right.table_code)
      then some "table_code in conflitto"
      else if differ (strong_reference left) (strong_reference right)
      then some "riferimento ordine in conflitto"
      else none

  -- The key `(_document_time(item), str(item.id))`: the first document is not behind the second.
  abbrev pub not_later : Document → Document → Bool
  not_later a b =
      ltb (document_time a) (document_time b)
      || document_time a == document_time b && text_le a.id b.id

  abbrev pub is_close : Document → Bool
  is_close d = is_commercial d.kind || is_management d.kind && closes d

  abbrev pub starts_episode : DocumentType → Bool
  starts_episode DocumentType.order = true
  starts_episode DocumentType.kitchen_order = true
  starts_episode DocumentType.pre_bill = true
  starts_episode _ = false

  abbrev pub reopened : Document → Document → Option String
  reopened earlier later =
      if is_close earlier
        && starts_episode later.kind
        && ltb (document_time earlier) (document_time later)
      then some "nuovo episodio osservato dopo una chiusura economica"
      else none

  -- `_episode_boundary_conflict`
  unfoldable pub episode_boundary_conflict : Document → Document → Option String
  episode_boundary_conflict left right =
      if not_later left right then reopened left right else reopened right left

  -- `_rejected_pair`
  unfoldable pub rejected_pair : Document → Document → String → PairScore
  rejected_pair left right reason = record {
    left_id = left.id;
    right_id = right.id;
    score = 0;
    criteria =
        record {
          name = "identity_compatibility";
          weight = 100;
          matched = false;
          detail = Detail.says reason;
        }
        ∷ [];
  }
