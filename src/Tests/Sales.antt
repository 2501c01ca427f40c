-- ===== src/Tests/Sales.antt =====
-- The documents of two tables: an order with its change, a management pre-bill and the receipt of table
-- 7, and an order of table 9.
use mathlib.Core.List.{Perm}
use retail_print_guard.Base.{
  ℕ, ◌+◌, ◌-◌, ◌*◌, ◌/◌, ◌≤◌, ◌==◌, leb, String, true, false, Option, none, some, List, [], ◌∷◌,
  ◌≡◌, refl, All, arith, map, concat, In,
}
use retail_print_guard.Base.Int.{ℤ, pos, negsuc, pos_part, ◌+ℤ◌, ◌-ℤ◌, eqb_ℤ, leb_ℤ}
use retail_print_guard.Domain.{DocumentType}
use retail_print_guard.Correlation.Types.{
  Platform, DocumentLine, Metadata, NormalizedDocument, CorrelatedTransaction, CorrelationResult,
}
use retail_print_guard.Correlation.Lines.{aggregate_from}
use retail_print_guard.Correlation.OrderChange.{apply_order_change_lines}
use retail_print_guard.Correlation.OrderChange.Positive.{
  IsOrdered, apply_order_change_lines-IsPositive, IsPositive,
}
use retail_print_guard.Correlation.Conflicts.{
  seconds, document_time, identity_conflict, episode_boundary_conflict,
}
use retail_print_guard.Correlation.Score.{Engine, score_pair}
use retail_print_guard.Correlation.Pairs.{score_candidate_pair, score_linked_pair}
use retail_print_guard.Correlation.Links.{
  device_response_pair, commercial_reference_pair, table_sale_sequence_pair,
  kitchen_management_baseline_pair, fiscal_siblings, same_table_change_pair,
  cross_department_dispatch_pair,
}
use retail_print_guard.Correlation.Evidence.{correlation_of}
use retail_print_guard.Correlation.Transaction.Baseline.{prebill_of-IsBaseline, IsBaselineOf}
use retail_print_guard.Correlation.Transaction.Weakest.{
  Reaches, NoneAbove, correlation_of-IsWeakest,
}
use retail_print_guard.Correlation.Groups.{Edge, known_pairs}
use retail_print_guard.Correlation.Groups.Sound.{IsCompatible}
use retail_print_guard.Correlation.Closing.{prebill_of}
use retail_print_guard.Correlation.Transaction.{correlate_candidates}
use retail_print_guard.Correlation.Transaction.Sound.{
  documents_of, correlate_candidates-IsPartition, correlate_candidates-IsCompatible,
}

-- Amounts in cents, with one whole at 100.
abbrev till : Platform
till = record {
  Amount = ℕ;
  zero_amount = 0;
  one_amount = 100;
  hundred = 10000;
  plus = λ a b. a + b;
  minus = λ a b. a - b;
  times = λ a b. (a * b) / 100;
  over = λ a b. (a * 100) / b;
  quantize = λ a. a;
  same = λ a b. a == b;
  at_most = λ a b. leb a b;
  weight = λ a b. (a * 12) / b;
  fold = λ s. s;
  counter = λ s. none;
  date = λ t. 0;
  digits = λ n. "0";
  uuid5 = λ s. s;
  format = λ d. "detail";
}

abbrev engine : Engine
engine = record { minimum_score = 60; time_window_seconds = 3600 }

abbrev item : String → ℕ → ℕ → DocumentLine till
item code quantity price = record {
  item_code = some code;
  description = none;
  quantity = some quantity;
  unit_price = some price;
  modified_unit_price = none;
  discount = none;
  line_total = none;
  state = none;
  cancelled = false;
  removed = false;
  raw_text = none;
  source = none;
}

abbrev plain : Metadata till
plain = record {
  reference = none;
  order_reference = none;
  document_reference = none;
  transaction_reference = none;
  economic_close = false;
  settlement_kind = none;
  suffix_evidence = none;
}

abbrev document : String → DocumentType → String → ℕ → Option ℕ → NormalizedDocument till
document id kind table at total = record {
  id = id;
  source_device_id = "till";
  source_session_id = none;
  source_job_id = id;
  kind = kind;
  external_document_code = none;
  external_document_code_suffix = none;
  commercial_reference_code = none;
  order_code = some table;
  table_code = some table;
  operator_code = none;
  terminal_code = none;
  document_timestamp = some at;
  captured_at = at;
  gross_total = total;
  net_total = none;
  complete = true;
  lines = item "17" 100 500 ∷ [];
  payments = [];
  raw_metadata = plain;
}

abbrev order7 : NormalizedDocument till
order7 = document "a" DocumentType.order "7" 0 none

abbrev bill7 : NormalizedDocument till
bill7 = document "b" DocumentType.management_document "7" (seconds 60) (some 500)

abbrev receipt7 : NormalizedDocument till
receipt7 = document "c" DocumentType.commercial_document "7" (seconds 120) (some 500)

abbrev order9 : NormalizedDocument till
order9 = document "d" DocumentType.order "9" (seconds 90) none

abbrev sales : List (NormalizedDocument till)
sales = receipt7 ∷ order9 ∷ order7 ∷ bill7 ∷ []

abbrev pairs : List (String × String)
pairs = ("a", "b") ∷ ("c", "b") ∷ ("d", "c") ∷ ("a", "d") ∷ ("x", "a") ∷ []

abbrev ids_of : Option (List (CorrelatedTransaction till)) → List (List String)
ids_of none = []
ids_of (some transactions) = map (λ t. map (λ d. d.id) t.documents) transactions

sales_lem :
    ids_of (correlate_candidates till engine sales pairs) ≡ ("a" ∷ "b" ∷ "c" ∷ []) ∷ ("d" ∷ []) ∷ []
unfolding correlate_candidates known_pairs score_candidate_pair device_response_pair
    episode_boundary_conflict identity_conflict score_linked_pair commercial_reference_pair
    table_sale_sequence_pair kitchen_management_baseline_pair fiscal_siblings same_table_change_pair
    cross_department_dispatch_pair score_pair
sales_lem = refl

correlate_candidates-IsPartition_example :
    (transactions : List (CorrelatedTransaction till)) × ((correlate_candidates till engine sales
          pairs
        ≡ some transactions)
      × Perm (concat (documents_of till engine transactions)) sales)
correlate_candidates-IsPartition_example =
    correlate_candidates-IsPartition till engine sales pairs
      ((refl, (refl, (refl, tt))), ((refl, (refl, tt)), ((refl, tt), (tt, tt))))

correlate_candidates-IsCompatible_example :
    (transactions : List (CorrelatedTransaction till)) × ((correlate_candidates till engine sales
          pairs
        ≡ some transactions)
      × All (λ t. IsCompatible till t.documents) transactions)
correlate_candidates-IsCompatible_example =
    correlate_candidates-IsCompatible till engine sales pairs
      ((refl, (refl, (refl, tt))), ((refl, (refl, tt)), ((refl, tt), (tt, tt))))

abbrev table7 : List (NormalizedDocument till)
table7 = order7 ∷ bill7 ∷ receipt7 ∷ []

prebill_of-IsBaseline_example :
    In bill7 table7
    × ((document_time till bill7 ≤ document_time till receipt7)
        × IsBaselineOf till receipt7 table7 bill7)
unfolding prebill_of aggregate_from
prebill_of-IsBaseline_example = prebill_of-IsBaseline till table7 receipt7 bill7 refl refl

abbrev edge : NormalizedDocument till → NormalizedDocument till → ℕ → Edge till engine
edge left right score = record {
  ends = (left, right);
  score = score;
  delta = 0;
  pair_score = record { left_id = left.id; right_id = right.id; score = score; criteria = [] };
}

abbrev edges7 : List (Edge till engine)
edges7 = edge order7 bill7 70 ∷ edge bill7 receipt7 90 ∷ edge order7 receipt7 20 ∷ []

abbrev result7 : CorrelationResult
result7 = record {
  transaction_id = "t";
  document_ids = "a" ∷ "b" ∷ "c" ∷ [];
  score = 70;
  algorithm_version = "rpg-correlation-1.5.0";
  matched_criteria = [];
  unmatched_criteria = [];
  explanation = "0 documenti collegati con punteggio minimo 0; criteri: ; evidenze: ";
}

correlation_of-IsWeakest_example :
    (result7.document_ids ≡ map (λ d. d.id) table7)
    × (All (Reaches till engine result7.score table7 edges7) table7
        × ((d : NormalizedDocument till) × (In d table7
              × NoneAbove till engine result7.score table7 edges7 d)))
unfolding correlation_of
correlation_of-IsWeakest_example =
    correlation_of-IsWeakest till engine "t" table7 edges7 result7 (refl, (refl, (refl, tt))) refl

-- Signed amounts, for changes that take away.
abbrev signed : Platform
signed = record {
  Amount = ℤ;
  zero_amount = pos 0;
  one_amount = pos 1;
  hundred = pos 100;
  plus = λ a b. a +ℤ b;
  minus = λ a b. a -ℤ b;
  times = λ a b. pos (pos_part a * pos_part b);
  over = λ a b. pos (pos_part a / pos_part b);
  quantize = λ a. a;
  same = λ a b. eqb_ℤ a b;
  at_most = λ a b. leb_ℤ a b;
  weight = λ a b. (a * 12) / b;
  fold = λ s. s;
  counter = λ s. none;
  date = λ t. 0;
  digits = λ n. "0";
  uuid5 = λ s. s;
  format = λ d. "detail";
}

signed_IsOrdered : IsOrdered signed
unfolding ◌+ℤ◌
signed_IsOrdered = record {
  zero_at_most = refl;
  one_positive = refl;
  plus_positive = λ a b h k. ground (arith, h, k);
}

abbrev counted_item : String → ℤ → DocumentLine signed
counted_item code quantity = record {
  item_code = some code;
  description = none;
  quantity = some quantity;
  unit_price = none;
  modified_unit_price = none;
  discount = none;
  line_total = none;
  state = none;
  cancelled = false;
  removed = false;
  raw_text = none;
  source = none;
}

abbrev two_items : List (DocumentLine signed)
two_items = counted_item "17" (pos 1) ∷ counted_item "9" (pos 3) ∷ []

-- One item is taken back altogether, of the other one of three.
abbrev take_back : List (DocumentLine signed)
take_back = counted_item "17" (negsuc 0) ∷ counted_item "9" (negsuc 0) ∷ []

take_back_quantities :
    map (λ l. l.quantity) (apply_order_change_lines signed two_items take_back) ≡ some (pos 2) ∷ []
unfolding apply_order_change_lines ◌+ℤ◌
take_back_quantities = refl

apply_order_change_lines-IsPositive_example :
    All (IsPositive signed) (apply_order_change_lines signed two_items take_back)
apply_order_change_lines-IsPositive_example =
    apply_order_change_lines-IsPositive signed two_items take_back signed_IsOrdered
      (refl, (refl, tt))
