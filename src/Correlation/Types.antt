-- ===== src/Correlation/Types.antt =====
-- The documents of common/domain.py as correlation/engine.py reads them, its results, and what it
-- takes from Python's decimal, unicodedata, re and uuid modules.
use retail_print_guard.Base.{ℕ, String, Bool, Option, List}
use retail_print_guard.Domain.{DocumentType}

pub data LineChangeType : Type 0 where
  added removed quantity_changed price_changed discount_changed unchanged : LineChangeType

-- The text of a criterion: as it is, or with a text, a number or two numbers formatted into it.
pub data Detail : Type 0 where
  says : String → Detail
  says_of : String → String → Detail
  says_count : String → ℕ → Detail
  says_ratio : (common all : ℕ) → Detail

-- `Amount` is Decimal; `weight` is `int((Decimal(a) / Decimal(b) * 12).to_integral_value())`;
-- `fold` is NFKD without combining characters, upper case and single spaces; `counter` is the
-- search for a printed counter at the end of a text; times count microseconds, and `date` is the
-- calendar date of one; `uuid5` names a text; `format` is the f-string of a detail.
pub record Platform : Type 1 where
  pub Amount : Type 0
  pub zero_amount : Amount
  pub one_amount : Amount
  pub hundred : Amount
  pub plus : Amount → Amount → Amount
  pub minus : Amount → Amount → Amount
  pub times : Amount → Amount → Amount
  pub over : Amount → Amount → Amount
  pub quantize : Amount → Amount
  pub same : Amount → Amount → Bool
  pub at_most : Amount → Amount → Bool
  pub weight : ℕ → ℕ → ℕ
  pub fold : String → String
  pub counter : String → Option String
  pub date : ℕ → ℕ
  pub digits : ℕ → String
  pub uuid5 : String → String
  pub format : Detail → String

module _ (p : Platform) where
  open p use {Amount}

  -- `source` stands for the dumped span.
  pub record DocumentLine : Type 0 where
    pub item_code : Option String
    pub description : Option String
    pub quantity : Option Amount
    pub unit_price : Option Amount
    pub modified_unit_price : Option Amount
    pub discount : Option Amount
    pub line_total : Option Amount
    pub state : Option String
    pub cancelled : Bool
    pub removed : Bool
    pub raw_text : Option String
    pub source : Option String

  -- The keys of `raw_metadata` that are read, as texts, or as the truth of a value.
  pub record Metadata : Type 0 where
    pub reference : Option String
    pub order_reference : Option String
    pub document_reference : Option String
    pub transaction_reference : Option String
    pub economic_close : Bool
    pub settlement_kind : Option String
    pub suffix_evidence : Option String

  pub record NormalizedDocument : Type 0 where
    pub id : String
    pub source_device_id : String
    pub source_session_id : Option String
    pub source_job_id : String
    pub kind : DocumentType
    pub external_document_code : Option String
    pub external_document_code_suffix : Option String
    pub commercial_reference_code : Option String
    pub order_code : Option String
    pub table_code : Option String
    pub operator_code : Option String
    pub terminal_code : Option String
    pub document_timestamp : Option ℕ
    pub captured_at : ℕ
    pub gross_total : Option Amount
    pub net_total : Option Amount
    pub complete : Bool
    pub lines : List DocumentLine
    pub payments : List Amount
    pub raw_metadata : Metadata

  pub record LineChange : Type 0 where
    pub item_key : String
    pub description : Option String
    pub change_type : LineChangeType
    pub before_quantity : Option Amount
    pub after_quantity : Option Amount
    pub before_unit_price : Option Amount
    pub after_unit_price : Option Amount
    pub before_discount : Option Amount
    pub after_discount : Option Amount
    pub before_total : Option Amount
    pub after_total : Option Amount
    pub before_source : Option String
    pub after_source : Option String

  pub record TimelineEntry : Type 0 where
    pub document_id : String
    pub document_type : DocumentType
    pub occurred_at : ℕ
    pub gross_total : Option Amount
    pub source_device_id : String
    pub source_job_id : String

pub record Criterion : Type 0 where
  pub name : String
  pub weight : ℕ
  pub matched : Bool
  pub detail : Detail

pub record PairScore : Type 0 where
  pub left_id : String
  pub right_id : String
  pub score : ℕ
  pub criteria : List Criterion

pub record CorrelationResult : Type 0 where
  pub transaction_id : String
  pub document_ids : List String
  pub score : ℕ
  pub algorithm_version : String
  pub matched_criteria : List String
  pub unmatched_criteria : List String
  pub explanation : String

module _ (p : Platform) where
  open p use {Amount}

  pub record CorrelatedTransaction : Type 0 where
    pub transaction_id : String
    pub correlation : Option CorrelationResult
    pub documents : List (NormalizedDocument p)
    pub prebill_total : Option Amount
    pub fiscal_total : Amount
    pub observed_final_total : Amount
    pub payment_total : Amount
    pub difference_amount : Option Amount
    pub difference_percent : Option Amount
    pub split_payment : Bool
    pub line_changes : List (LineChange p)
    pub timeline : List (TimelineEntry p)
