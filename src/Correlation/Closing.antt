-- ===== src/Correlation/Closing.antt =====
-- The closes and the baseline of one group in `_build_transaction` of correlation/engine.py, and
-- `_authoritative_payments`.
use retail_print_guard.Base.{
  Bool, true, not, ◌&&◌, Option, none, some, List, [], ◌∷◌, if◌then◌else◌, str_eq, opt_eq, leb,
  keep, map, is_some, is_empty, concat,
}
use retail_print_guard.Domain.{is_commercial, is_pre_bill, is_management, is_payment}
use retail_print_guard.Correlation.Types.{Platform, NormalizedDocument}
use retail_print_guard.Correlation.Lines.{normalise, shared_items}
use retail_print_guard.Correlation.Conflicts.{document_time, total_of, is_prebill_source, closes}

abbrev pub last_of {ℓ} : {A : Type ℓ} → List A → Option A
last_of [] = none
last_of (x ∷ []) = some x
last_of (x ∷ y ∷ rest) = last_of (y ∷ rest)

abbrev pub first_of {ℓ} : {A : Type ℓ} → List A → Option A
first_of [] = none
first_of (x ∷ rest) = some x

abbrev pub or_else {ℓ} : {A : Type ℓ} → Option A → Option A → Option A
or_else (some a) b = some a
or_else none b = b

module _ (p : Platform) where
  open p use {
    Amount, zero_amount, hundred, plus, minus, times, over, quantize, same, at_most, uuid5, format,
  }

  abbrev Document : Type 0
  Document = NormalizedDocument p

  abbrev pub sum : List Amount → Amount
  sum [] = zero_amount
  sum (a ∷ amounts) = plus a (sum amounts)

  -- `_total(document) or ZERO`
  abbrev pub total_or_zero : Document → Amount
  total_or_zero d = elim (total_of p d) [
    | none ↦ zero_amount
    | some a ↦ if same a zero_amount then zero_amount else a
  ]

  abbrev payments_of : List Document → List Amount
  payments_of ds = concat (map (λ d. d.payments) ds)

  -- `_authoritative_payments`
  unfoldable pub authoritative_payments : List Document → List Document → List Amount
  authoritative_payments documents fiscal_documents =
      let fiscal = payments_of fiscal_documents in
      let explicit = payments_of (keep (λ d. is_payment d.kind) documents) in
      if not (is_empty fiscal)
      then fiscal
      else if not (is_empty explicit)
      then explicit
      else payments_of documents

  abbrev pub valid_fiscal : List Document → List Document
  valid_fiscal = keep (λ d. is_commercial d.kind && d.complete && is_some (total_of p d))

  abbrev pub not_after_close : Option Document → Document → Bool
  not_after_close none d = true
  not_after_close (some close) d = leb (document_time p d) (document_time p close)

  abbrev pub is_baseline_of : Document → Document → Bool
  is_baseline_of close d =
      is_prebill_source p d
      && is_management d.kind
      && not_after_close (some close) d
      && is_some (normalise p close.table_code)
      && opt_eq (normalise p d.table_code) (normalise p close.table_code)
      && not (is_empty (shared_items p d.lines close.lines))

  abbrev pub management_baseline : Option Document → List Document → Option Document
  management_baseline none documents = none
  management_baseline (some fiscal) documents = last_of (keep (is_baseline_of fiscal) documents)

  -- The document that the first close is compared with.
  abbrev pub prebill_from : Option Document → List Document → Option Document
  prebill_from close documents =
      or_else (last_of (keep (λ d. is_pre_bill d.kind && not_after_close close d) documents))
        (management_baseline close documents)

  unfoldable pub prebill_of : List Document → Option Document
  prebill_of documents = prebill_from (first_of (valid_fiscal documents)) documents

  -- `document is not prebill`, by the ids, which are distinct.
  abbrev is_other : Option Document → Document → Bool
  is_other none d = true
  is_other (some prebill) d = not (str_eq d.id prebill.id)

  abbrev management_closures : Option Document → List Document → List Document
  management_closures prebill =
      keep (λ d. is_management d.kind && is_other prebill d && is_some (total_of p d) && closes p d)

  unfoldable pub economic_closures : List Document → List Document
  unfolding prebill_of
  economic_closures documents =
      let fiscal = valid_fiscal documents in
      if is_empty fiscal then management_closures (prebill_of documents) documents else fiscal
