-- ===== src/Receipt.antt =====
-- receipt.py: the unilateral receipts.
pub mod Laws
pub mod Bilateral
use pact_passport.Base.{ℕ, Bool, true, false, not, String, Option, none, some, List, if◌then◌else◌}
use pact_passport.Json.{Value, Dict, str, arr, end, field, get, has, is_falsy, set, without}
use pact_passport.Json.Canonical.{canonical_json}
use pact_passport.Platform.{Platform, Bytes}
use pact_passport.Capability.{alg_name}
use pact_passport.Message.Dicts.{text_items}
use pact_passport.Message.Check.{verify_text}

unfoldable pub receipt_fields : String → String → String → List String → String → Dict
receipt_fields timestamp agent_id task_ref refs outcome = field "type" (str "receipt") (
    field "agent" (str agent_id) (
      field "task_ref" (str task_ref) (
        field "refs" (arr (text_items refs)) (
          field "outcome" (str outcome)
            (field "timestamp" (str timestamp) (field "alg" (str alg_name) end))))))

-- `for k, v in extra.items(): if k not in receipt: receipt[k] = v`
unfoldable pub add_extra : Dict → Dict → Dict
add_extra receipt end = receipt
add_extra receipt (field k v extra) =
    let next = (if has receipt k then receipt else set receipt k v) in add_extra next extra

-- `if extra`
abbrev pub extended : Dict → Option Dict → Dict
extended receipt none = receipt
extended receipt (some extra) = add_extra receipt extra

module _ (p : Platform) where
  abbrev pub sign_receipt : Bytes → Dict → Dict
  sign_receipt key receipt =
      set receipt "signature" (str (p.b64encode (p.sign (canonical_json receipt) key)))

  unfoldable pub create_receipt :
      ℕ → Bytes → String → String → List String → String → Option Dict → Dict
  unfolding receipt_fields add_extra
  create_receipt now key agent_id task_ref refs outcome extra =
      sign_receipt key
        (extended (receipt_fields (p.isoformat now) agent_id task_ref refs outcome) extra)

  -- A text is decoded; b64decode raises TypeError on any other value, which counts as a failure.
  abbrev pub verify_value : Bytes → Value → Bytes → Bool
  verify_value payload (str s) key = verify_text p payload (p.b64decode s) key
  verify_value payload v key = false

  abbrev pub verify_found : Dict → Option Value → Bytes → Bool
  verify_found receipt none key = false
  verify_found receipt (some sig) key =
      if is_falsy sig
      then false
      else verify_value (canonical_json (without receipt "signature")) sig key

  unfoldable pub verify_receipt : Dict → Bytes → Bool
  verify_receipt receipt key = verify_found receipt (get receipt "signature") key
