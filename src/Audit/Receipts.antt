-- ===== src/Audit/Receipts.antt =====
-- audit_receipt, sign_initiator_ack and make_bilateral_receipt of audit.py.
pub mod Laws
use pact_passport.Base.{if◌then◌else◌, Bool, true, false, String, Option, none, some, List, []}
use pact_passport.Json.{Value, Dict, null, str, end, get, is_falsy, set, without}
use pact_passport.Json.Canonical.{canonical_json}
use pact_passport.Errors.Faults.{
  pact_token_missing, pact_signature_invalid, pact_receipt_not_bilateral,
}
use pact_passport.Platform.{Platform, Bytes}
use pact_passport.Receipt.{verify_value}
use pact_passport.Audit.{AuditResult, add_error, note, expect}

-- receipt.get("receipt_id") or receipt.get("id")
abbrev or_null : Option Value → Value
or_null none = null
or_null (some v) = v

abbrev receipt_id : Option Value → Option Value → Value
receipt_id none other = or_null other
receipt_id (some v) other = if is_falsy v then or_null other else v

abbrev pub receipt_start : Dict → AuditResult
receipt_start receipt =
    note "receipt_id" (receipt_id (get receipt "receipt_id") (get receipt "id")) (
      note "audit_kind" (str "receipt")
        (record { passed = true; errors = []; warnings = []; metadata = end }))

abbrev pub conclude : AuditResult → AuditResult
conclude r = if r.passed then note "bilateral_signature_status" (str "verified") r else r

module _ (p : Platform) where
  abbrev pub audit_receiver_value : Bytes → Option Value → Bytes → AuditResult → AuditResult
  audit_receiver_value payload none key r = add_error pact_token_missing r
  audit_receiver_value payload (some sig) key r =
      if is_falsy sig
      then add_error pact_token_missing r
      else expect (verify_value p payload sig key) pact_signature_invalid r

  unfoldable pub audit_receiver : Dict → Bytes → AuditResult → AuditResult
  unfolding add_error
  audit_receiver receipt key r =
      audit_receiver_value
        (canonical_json (without (without receipt "signature") "initiator_ack_signature"))
        (get receipt "signature") key r

  abbrev pub audit_ack_value : Bytes → Option Value → Option Bytes → AuditResult → AuditResult
  audit_ack_value payload none key r = add_error pact_receipt_not_bilateral r
  audit_ack_value payload (some null) key r = add_error pact_receipt_not_bilateral r
  audit_ack_value payload (some sig) none r = r
  audit_ack_value payload (some sig) (some key) r =
      expect (verify_value p payload sig key) pact_signature_invalid r

  unfoldable pub audit_ack : Dict → Option Bytes → AuditResult → AuditResult
  unfolding add_error
  audit_ack receipt key r =
      audit_ack_value (canonical_json (without receipt "initiator_ack_signature"))
        (get receipt "initiator_ack_signature") key r

  unfoldable pub audit_receipt : Dict → Bytes → Option Bytes → AuditResult
  unfolding audit_receiver audit_ack
  audit_receipt receipt receiver_key initiator_key = conclude (
      audit_ack receipt initiator_key (audit_receiver receipt receiver_key (receipt_start receipt)))

  unfoldable pub sign_initiator_ack : Dict → Bytes → String
  sign_initiator_ack receipt key =
      p.b64encode (p.sign (canonical_json (without receipt "initiator_ack_signature")) key)

  unfoldable pub make_bilateral_receipt : Dict → Bytes → Dict
  unfolding sign_initiator_ack
  make_bilateral_receipt receipt key =
      set receipt "initiator_ack_signature" (str (sign_initiator_ack receipt key))
