-- ===== src/Domain.antt =====
-- The types of documents of common/domain.py, which the parts of the control plane share.
use retail_print_guard.Base.{Bool, true, false}

pub data DocumentType : Type 0 where
  order order_change kitchen_order pre_bill : DocumentType
  management_document commercial_document shift_end_report invoice : DocumentType
  conforming_copy cancellation refund reprint payment : DocumentType
  device_response unknown : DocumentType

-- `document.type is DocumentType.…`
abbrev pub is_kitchen_order : DocumentType → Bool
is_kitchen_order DocumentType.kitchen_order = true
is_kitchen_order _ = false

abbrev pub is_order_change : DocumentType → Bool
is_order_change DocumentType.order_change = true
is_order_change _ = false

abbrev pub is_pre_bill : DocumentType → Bool
is_pre_bill DocumentType.pre_bill = true
is_pre_bill _ = false

abbrev pub is_management : DocumentType → Bool
is_management DocumentType.management_document = true
is_management _ = false

abbrev pub is_commercial : DocumentType → Bool
is_commercial DocumentType.commercial_document = true
is_commercial _ = false

abbrev pub is_payment : DocumentType → Bool
is_payment DocumentType.payment = true
is_payment _ = false

abbrev pub is_device_response : DocumentType → Bool
is_device_response DocumentType.device_response = true
is_device_response _ = false
