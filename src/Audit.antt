-- ===== src/Audit.antt =====
-- audit.py: the audits of requests and of receipts. A result keeps the fault codes and the labels; the
-- texts of the details are left out.
pub mod Requests
pub mod Receipts
use pact_passport.Base.{Bool, true, false, String, List, [], ◌∷◌, ◌++◌}
use pact_passport.Json.{Value, Dict, set}

pub record AuditResult : Type 0 where
  pub passed : Bool
  pub errors : List String
  pub warnings : List String
  pub metadata : Dict

unfoldable pub add_error : String → AuditResult → AuditResult
add_error code r = record r { errors = r.errors ++ (code ∷ []); passed = false }

unfoldable pub add_warning : String → AuditResult → AuditResult
add_warning label r = record r { warnings = r.warnings ++ (label ∷ []) }

abbrev pub note : String → Value → AuditResult → AuditResult
note k v r = record r { metadata = set r.metadata k v }

-- `if not test: result.add_error(code, ...)`
abbrev pub expect : Bool → String → AuditResult → AuditResult
expect true code r = r
expect false code r = add_error code r
