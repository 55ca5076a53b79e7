-- ===== src/Tests/Receipts.antt =====
-- The theorems on receipts at a concrete one, and those on Python's base64 and dates at the toy platform.
use pact_passport.Base.{◌≡◌, ◌↔◌, refl, true, false, none, some, [], ◌∷◌, string_eq}
use pact_passport.Json.{Dict, str, end, field, get, set, without}
use pact_passport.Platform.{Bytes}
use pact_passport.Receipt.{create_receipt, verify_receipt}
use pact_passport.Receipt.Laws.{create_receipt-verify_receipt}
use pact_passport.Receipt.Bilateral.{verify_receipt-make_bilateral_receipt}
use pact_passport.Audit.Receipts.{audit_receipt, make_bilateral_receipt}
use pact_passport.Audit.Receipts.Laws.{
  Acknowledged, audit_receipt-passed, audit_receipt-make_bilateral_receipt,
}
use pact_passport.Tests.Toy.{toy, toy-IsLawful, toy-IsBinding}

abbrev receiver_key : Bytes
receiver_key = 1 ∷ []

abbrev initiator_key : Bytes
initiator_key = 2 ∷ []

abbrev receipt : Dict
receipt =
    create_receipt toy 7 receiver_key "bob" "m1" ("m1" ∷ "m2" ∷ []) "completed"
      (some (field "agent" (str "eve") end))

abbrev plain : Dict
plain = create_receipt toy 7 receiver_key "bob" "m1" ("m1" ∷ []) "completed" none

abbrev bilateral : Dict
bilateral = make_bilateral_receipt toy receipt initiator_key

lacks : get (field "agent" (str "eve") end) "signature" ≡ none
unfolding get
lacks = refl

create_receipt-verify_receipt_example : verify_receipt toy receipt receiver_key ≡ true
create_receipt-verify_receipt_example =
    create_receipt-verify_receipt toy toy-IsLawful 7 receiver_key "bob" "m1" ("m1" ∷ "m2" ∷ [])
      "completed" (some (field "agent" (str "eve") end)) lacks

unacknowledged : get receipt "initiator_ack_signature" ≡ none
unfolding create_receipt get set
unacknowledged = refl

audit_receipt-make_bilateral_receipt_example :
    (audit_receipt toy bilateral receiver_key (some initiator_key)).passed ≡ true
audit_receipt-make_bilateral_receipt_example =
    audit_receipt-make_bilateral_receipt toy toy-IsLawful receipt receiver_key initiator_key
      create_receipt-verify_receipt_example unacknowledged

audit_receipt-passed_example :
    ((audit_receipt toy bilateral receiver_key (some initiator_key)).passed ≡ true) ↔ (
      (verify_receipt toy (without bilateral "initiator_ack_signature") receiver_key ≡ true)
      × Acknowledged toy bilateral initiator_key)
audit_receipt-passed_example = audit_receipt-passed toy bilateral receiver_key initiator_key

verify_receipt-make_bilateral_receipt_example :
    verify_receipt toy (make_bilateral_receipt toy plain initiator_key) receiver_key ≡ false
verify_receipt-make_bilateral_receipt_example =
    verify_receipt-make_bilateral_receipt toy toy-IsLawful toy-IsBinding 7 receiver_key "bob" "m1"
      "completed" ("m1" ∷ []) initiator_key
