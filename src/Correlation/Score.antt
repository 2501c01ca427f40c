-- ===== src/Correlation/Score.antt =====
-- The weighted score of a pair of documents, `score_pair` of correlation/engine.py.
use retail_print_guard.Base.{
  ℕ, ◌+◌, ◌/◌, min, String, Bool, true, false, not, ◌&&◌, ◌||◌, Option, none, some, List, [], ◌∷◌,
  if◌then◌else◌, str_eq, is_empty, leb, ltb, ◌==◌, length,
}
use retail_print_guard.Base.Sort.{common, nub}
use retail_print_guard.Correlation.Types.{
  Platform, NormalizedDocument, PairScore, Criterion, Detail,
}
use retail_print_guard.Correlation.Lines.{normalise, line_similarity}
use retail_print_guard.Correlation.Conflicts.{
  seconds, gap, document_time, total_of, metadata_references, progressive_namespace, compatible,
  agree,
}

-- The settings of a CorrelationEngine.
pub record Engine : Type 0 where
  pub minimum_score : ℕ
  pub time_window_seconds : ℕ

-- `sum(item.weight for item in criteria if item.matched)`
abbrev pub weights : List Criterion → ℕ
weights [] = 0
weights (c ∷ cs) = (if c.matched then c.weight else 0) + weights cs

-- `a or b` of two results that may be None.
abbrev pub or_pair : Option PairScore → Option PairScore → Option PairScore
or_pair (some s) b = some s
or_pair none b = b

abbrev pub passed : String → ℕ → Detail → Criterion
passed name weight detail = record { name = name; weight = weight; matched = true; detail = detail }

-- `int(delta_seconds)` of a time in microseconds
abbrev pub whole_seconds : ℕ → ℕ
whole_seconds n = n / 1000000

abbrev pub time_passed : ℕ → ℕ → Criterion
time_passed weight delta =
    passed "time_proximity" weight (Detail.says_count "distanza {} secondi" (whole_seconds delta))

abbrev pub items_passed : ℕ → List String → Criterion
items_passed weight items = passed "line_identity_overlap" weight (
    Detail.says_count "{} articolo/i comuni per codice o descrizione normalizzata"
      (length (nub items)))

abbrev pub text_or_empty : Option String → String
text_or_empty none = ""
text_or_empty (some s) = s

module _ (p : Platform) (engine : Engine) where
  open p use {Amount, zero_amount, same, at_most, weight, date}

  abbrev pub Document : Type 0
  Document = NormalizedDocument p

  abbrev pub window : ℕ
  window = seconds engine.time_window_seconds

  abbrev pub pair : Document → Document → ℕ → List Criterion → PairScore
  pair left right score criteria = record {
    left_id = left.id;
    right_id = right.id;
    score = score;
    criteria = criteria;
  }

  -- The local function `exact` of `score_pair`.
  abbrev exact : String → ℕ → Option String → Option String → Criterion
  exact name weight first second =
      let matched = agree (normalise p first) (normalise p second) in
      record {
        name = name;
        weight = weight;
        matched = matched;
        detail = Detail.says (if matched then "valore esatto" else "assente o differente");
      }

  abbrev same_progressive : Document → Document → Bool
  same_progressive left right =
      agree (progressive_namespace left.kind) (progressive_namespace right.kind)
      && agree (normalise p left.external_document_code) (normalise p right.external_document_code)

  abbrev progressive_criterion : Document → Document → Criterion
  progressive_criterion left right = record {
    name = "own_progressive_same_namespace";
    weight = 15;
    matched = same_progressive left right;
    detail =
        if same_progressive left right
        then Detail.says_of "progressivo proprio coincidente nel namespace {}"
            (text_or_empty (progressive_namespace left.kind))
        else Detail.says "progressivi propri assenti, differenti o di namespace distinti";
  }

  abbrev reference_criterion : Document → Document → Criterion
  reference_criterion left right =
      let matched =
        not (is_empty (common (metadata_references p left) (metadata_references p right))) in
      record {
        name = "embedded_reference";
        weight = 20;
        matched = matched;
        detail =
            Detail.says (if matched then "riferimento comune" else "nessun riferimento comune");
      }

  abbrev pub delta_of : Document → Document → ℕ
  delta_of left right = gap (document_time p left) (document_time p right)

  abbrev pub within_window : Document → Document → Bool
  within_window left right = leb (delta_of left right) window

  abbrev time_criterion : Document → Document → Criterion
  time_criterion left right =
      let delta = delta_of left right in
      record {
        name = "time_proximity";
        weight =
            if leb delta (seconds 120)
            then 12
            else if leb delta (seconds 900)
            then 8
            else if leb delta window
            then 4
            else 0;
        matched = leb delta window;
        detail = Detail.says_count "distanza {} secondi" (whole_seconds delta);
      }

  abbrev date_criterion : Document → Document → Criterion
  date_criterion left right =
      let matched = date (document_time p left) == date (document_time p right) in
      record {
        name = "business_date";
        weight = 3;
        matched = matched;
        detail = Detail.says (if matched then "stessa data" else "data differente");
      }

  -- `min(a, b) >= 0 and max(a, b) > 0 and min(a, b) < max(a, b)`
  abbrev is_partial : Amount → Amount → Bool
  is_partial a b =
      at_most zero_amount a
      && at_most zero_amount b
      && (not (at_most a zero_amount) || not (at_most b zero_amount))
      && not (same a b)

  abbrev totals_equal : Option Amount → Option Amount → Bool
  totals_equal none b = false
  totals_equal (some a) none = false
  totals_equal (some a) (some b) = same a b

  abbrev plausible_partial : Option Amount → Option Amount → Bool
  plausible_partial none b = false
  plausible_partial (some a) none = false
  plausible_partial (some a) (some b) = is_partial a b

  abbrev amount_criterion : Document → Document → Criterion
  amount_criterion left right =
      let equal = totals_equal (total_of p left) (total_of p right) in
      let partial = plausible_partial (total_of p left) (total_of p right) in
      record {
        name = "amount_relationship";
        weight = if equal then 8 else if partial then 3 else 0;
        matched = equal || partial;
        detail = Detail.says (
            if equal
            then "totali uguali"
            else if partial
            then "importo parziale plausibile"
            else "totali non confrontabili");
      }

  abbrev similarity_of : Option (ℕ × ℕ) → Criterion
  similarity_of none = record {
    name = "line_similarity";
    weight = 0;
    matched = false;
    detail = Detail.says "righe non disponibili";
  }
  similarity_of (some (shared, all)) = record {
    name = "line_similarity";
    weight = weight shared all;
    matched = ltb 0 shared;
    detail = Detail.says_ratio shared all;
  }

  abbrev sequence_criterion : Document → Document → Criterion
  sequence_criterion left right = record {
    name = "document_sequence";
    weight = 8;
    matched = compatible p left right;
    detail =
        Detail.says
          (if compatible p left right then "tipi compatibili" else "tipi non collegabili");
  }

  abbrev device_criterion : Document → Document → Criterion
  device_criterion left right =
      let matched = str_eq left.source_device_id right.source_device_id in
      record {
        name = "device_context";
        weight = 2;
        matched = matched;
        detail = Detail.says (if matched then "stesso dispositivo" else "dispositivi differenti");
      }

  unfoldable pub pair_criteria : Document → Document → List Criterion
  unfolding line_similarity compatible
  pair_criteria left right =
      exact "order_code" 35 left.order_code right.order_code
      ∷ progressive_criterion left right
      ∷ exact "table_code" 12 left.table_code right.table_code
      ∷ exact "operator_code" 5 left.operator_code right.operator_code
      ∷ exact "terminal_code" 4 left.terminal_code right.terminal_code
      ∷ exact "source_session" 0 left.source_session_id right.source_session_id
      ∷ reference_criterion left right
      ∷ time_criterion left right
      ∷ date_criterion left right
      ∷ amount_criterion left right
      ∷ similarity_of (line_similarity p left right)
      ∷ sequence_criterion left right
      ∷ device_criterion left right
      ∷ []

  -- `score_pair`
  unfoldable pub score_pair : Document → Document → PairScore
  unfolding pair_criteria
  score_pair left right =
      let criteria = pair_criteria left right in
      let score = min 100 (weights criteria) in
      pair left right
        (if not (compatible p left right) || not (within_window left right) then 0 else score)
        criteria
