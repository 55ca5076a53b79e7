-- ===== src/Audit/Requests.antt =====
-- audit_req of audit.py. The audit context of a message is a dict here, so that the branch for a context
-- of another type is left out.
pub mod Laws
use pact_passport.Base.{
  ℕ, ltb, Bool, true, false, not, ◌&&◌, ◌||◌, String, Option, none, some, List, [], ◌∷◌, ◌==◌,
  string_eq, contains, if◌then◌else◌, is_blank,
}
use pact_passport.Json.{Value, Dict, str, end, field, get, has}
use pact_passport.Errors.Faults.{
  pact_token_malformed, pact_audience_mismatch, pact_token_expired, pact_token_missing,
  pact_signature_invalid, pact_holder_proof_invalid,
}
use pact_passport.Platform.{Platform, Bytes, Datetime, aware, naive}
use pact_passport.Wire.{truthy}
use pact_passport.Message.{PactMessage}
use pact_passport.Message.Build.{equals_text}
use pact_passport.Message.Check.{verify_message, verify_holder_proof}
use pact_passport.Audit.{AuditResult, add_error, add_warning, expect}

abbrev pub required_audit_context_keys : List String
required_audit_context_keys = "purpose" ∷ "request_id" ∷ "audience_hint" ∷ "expires_at" ∷ []

abbrev pub recommended_audit_purposes : List String
recommended_audit_purposes =
    "task" ∷ "delegation-step" ∷ "tool-call" ∷ "audit-export" ∷ "revocation-broadcast"
    ∷ "research-subtask" ∷ "system" ∷ []

-- `not REQUIRED_AUDIT_CONTEXT_KEYS - set(ctx)`
unfoldable pub has_all : Dict → List String → Bool
has_all ctx [] = true
has_all ctx (k ∷ ks) = let rest = has_all ctx ks in has ctx k && rest

-- The value of one of the keys that are there.
abbrev pub is_well_formed : String → Value → Bool
is_well_formed key (str s) = key == "audience_hint" || not (is_blank s)
is_well_formed key v = false

abbrev pub check_key : String → Option Value → AuditResult → AuditResult
check_key key none r = r
check_key key (some v) r = expect (is_well_formed key v) pact_token_malformed r

-- Each of these errors has the same code, so that the order of the set does not matter.
unfoldable pub check_keys : Dict → List String → AuditResult → AuditResult
check_keys ctx [] r = r
check_keys ctx (k ∷ ks) r = check_keys ctx ks (check_key k (get ctx k) r)

abbrev pub check_purpose : Option Value → AuditResult → AuditResult
check_purpose (some (str s)) r =
    if contains recommended_audit_purposes s then r else add_warning "uncommon_purpose" r
check_purpose v r = r

module _ (p : Platform) where
  -- `expires < datetime.now(UTC)`: the TypeError on a naive moment is caught.
  abbrev pub check_moment : ℕ → Option Datetime → AuditResult → AuditResult
  check_moment now none r = add_error pact_token_malformed r
  check_moment now (some (naive t)) r = add_error pact_token_malformed r
  check_moment now (some (aware t)) r = expect (not (ltb t now)) pact_token_expired r

  abbrev pub check_expires_at : ℕ → Option Value → AuditResult → AuditResult
  check_expires_at now (some (str s)) r = check_moment now (p.fromisoformat s) r
  check_expires_at now v r = r

  unfoldable pub audit_context : ℕ → String → Option Dict → AuditResult → AuditResult
  unfolding check_keys has_all
  audit_context now to_agent none r = add_error pact_token_malformed r
  audit_context now to_agent (some ctx) r = check_expires_at now (get ctx "expires_at") (
      expect (equals_text (get ctx "audience_hint") to_agent) pact_audience_mismatch (
        check_purpose (get ctx "purpose") (
          check_keys ctx required_audit_context_keys
            (expect (has_all ctx required_audit_context_keys) pact_token_malformed r))))

  unfoldable pub audit_sender : PactMessage → Option Bytes → AuditResult → AuditResult
  audit_sender m none r = r
  audit_sender m (some key) r =
      if m.signature == ""
      then add_error pact_token_missing r
      else expect (verify_message p m key) pact_signature_invalid r

  abbrev pub audit_proof : PactMessage → Option String → Bytes → AuditResult → AuditResult
  audit_proof m none key r = r
  audit_proof m (some text) key r =
      expect (verify_holder_proof p m key true) pact_holder_proof_invalid r

  unfoldable pub audit_holder : PactMessage → Option Bytes → AuditResult → AuditResult
  audit_holder m none r = r
  audit_holder m (some key) r = audit_proof m (truthy m.holder_proof) key r

  abbrev pub req_start : PactMessage → AuditResult
  req_start m = record {
    passed = true;
    errors = [];
    warnings = if m.type == "REQ" then [] else "non_req" ∷ [];
    metadata =
        field "audit_kind" (str "req")
          (field "msg_id" (str m.id) (field "msg_type" (str m.type) end));
  }

  unfoldable pub audit_req : ℕ → PactMessage → Option Bytes → Option Bytes → AuditResult
  unfolding audit_context audit_sender audit_holder
  audit_req now m sender_key holder_key =
      audit_holder m holder_key
        (audit_sender m sender_key (audit_context now m.to_agent m.audit_context (req_start m)))
