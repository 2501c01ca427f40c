-- ===== src/Tests/Prices.antt =====
-- One sale: an order without prices and a pre-bill that names the price of its line twice.
use retail_print_guard.Base.{
  ℕ, ◌*◌, ◌/◌, ◌==◌, ==_iff, String, true, false, Option, none, some, List, [], ◌∷◌, ◌≡◌, refl, inl,
  inr, arith,
}
use retail_print_guard.Domain.{DocumentType}
use retail_print_guard.Base.Dict.{Dict, lookup}
use retail_print_guard.Pricing.Types.{
  Platform, PriceLineEvidence, DerivedPriceAttribution, Fingerprinted, SourceKind, MatchBasis,
}
use retail_print_guard.Pricing.Match.{candidates, sources_agree}
use retail_print_guard.Pricing.Attribution.{
  Request, rows, row, derive_document_attributions, price_attribution_algorithm,
}
use retail_print_guard.Pricing.Sets.{IsEquality}
use retail_print_guard.Pricing.Agreement.{agreed_rows_agree, same_known}
use retail_print_guard.Pricing.Persist.{
  NormalizedDocument, DocumentLine, Tables, persist_transaction_price_attributions, derive_targets,
  derive_sources, derive_lines, add_missing, nothing_to_price,
}
use retail_print_guard.Pricing.Idempotent.{persist_twice, Appends, persist-Appends}

-- Amounts in ten-thousandths.
abbrev till_platform : Platform
till_platform = record {
  Amount = ℕ;
  quantize = λ a. a;
  quotient = λ a b. (a * 10000) / b;
  is_zero = λ a. a == 0;
  same = λ a b. a == b;
  same_abs = λ a b. a == b;
  strip = λ s. s;
  fold = λ s. s;
  fingerprint =
      λ f. elim f [ Fingerprinted.identity a c t s ↦ s | Fingerprinted.ambiguity a c t v ids ↦ v ];
  uuid5 = λ s. s;
}

till_amounts : IsEquality till_platform.same
till_amounts = record {
  reflexive = λ x. (==_iff x x).1 refl;
  symmetric = λ x y h. ground (arith, h);
  transitive = λ x y z h k. ground (arith, h, k);
}

abbrev line : String → String → Option ℕ → PriceLineEvidence till_platform
line id version price = record {
  line_id = id;
  document_id = "document";
  document_version_id = version;
  sequence = 1;
  item_code = some "17";
  description = some "spritz";
  quantity = some 20000;
  unit_price = price;
  line_total = none;
  observed_at = 0;
}

abbrev asked : Request till_platform
asked = record {
  correlation_id = "sale";
  target = line "ordered" "v1" none;
  source_kind = SourceKind.prebill;
  source_document_id = "document";
  source_document_version_id = "v2";
  algorithm_version = price_attribution_algorithm;
}

abbrev billed : List (PriceLineEvidence till_platform)
billed = line "first" "v2" (some 45000) ∷ line "second" "v2" (some 45000) ∷ []

abbrev answer : String → DerivedPriceAttribution till_platform
answer id = row till_platform asked MatchBasis.item_code_exact billed (line id "v2" (some 45000))

agreed_rows_agree_example :
    (same_known till_platform (some 45000) (some 45000) ≡ true)
    × (same_known till_platform none none ≡ true)
unfolding derive_document_attributions candidates sources_agree rows
agreed_rows_agree_example =
    agreed_rows_agree till_platform asked billed (answer "first") (answer "second") till_amounts
      (inl refl) (inr (inl refl)) refl

abbrev stored : String → String → Option ℕ → DocumentLine till_platform
stored id version price = record {
  id = id;
  document_version_id = version;
  sequence = 1;
  item_code = some "17";
  description = some "spritz";
  quantity = some 20000;
  unit_price = price;
  line_total = none;
  cancelled = false;
  removed = false;
}

abbrev document : String → DocumentType → NormalizedDocument
document id kind = record {
  id = id;
  kind = kind;
  complete = true;
  document_timestamp = none;
  captured_at = 0;
}

abbrev sale : List NormalizedDocument
sale = document "order" DocumentType.order ∷ document "bill" DocumentType.pre_bill ∷ []

abbrev versions : Dict String
versions = ("order", "v1") ∷ ("bill", "v2") ∷ []

abbrev tables : Tables till_platform
tables = record {
  lines =
      stored "ordered" "v1" none
      ∷ stored "first" "v2" (some 45000)
      ∷ stored "second" "v2" (some 45000)
      ∷ [];
  attributions = [];
}

two_rows_are_added :
    (persist_transaction_price_attributions till_platform "sale" sale versions tables).0 ≡ 2
unfolding persist_transaction_price_attributions nothing_to_price derive_targets derive_sources
    derive_lines derive_document_attributions candidates sources_agree rows add_missing lookup
two_rows_are_added = refl

persist_twice_example :
    persist_transaction_price_attributions till_platform "sale" sale versions
      (persist_transaction_price_attributions till_platform "sale" sale versions tables).1
    ≡ (0, (persist_transaction_price_attributions till_platform "sale" sale versions tables).1)
persist_twice_example = persist_twice till_platform "sale" sale versions tables

persist-Appends_example : Appends till_platform "sale" sale versions tables
persist-Appends_example = persist-Appends till_platform "sale" sale versions tables tt
