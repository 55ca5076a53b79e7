-- ===== src/Message.antt =====
-- message.py: the message record and the two domain-separated payloads of a holder proof.
pub mod Dicts
pub mod Payloads
pub mod Build
pub mod Check
use pact_passport.Base.{ℕ, ℤ, Bool, String, Option, none, some, List}
use pact_passport.Json.{Dict, str, end, field}
use pact_passport.Json.Canonical.{canonical_json}
use pact_passport.Platform.{Bytes}

abbrev pub holder_proof_domain_v1 : String
holder_proof_domain_v1 = "pact/hp/v1"

abbrev pub visa_use_domain_v1 : String
visa_use_domain_v1 = "pact/visa/v1"

-- `cap_id if cap_id is not None else ""`
abbrev pub or_empty : Option String → String
or_empty none = ""
or_empty (some s) = s

unfoldable pub holder_proof_payload : String → Option String → String → Bytes
holder_proof_payload req_id cap_id to_agent = canonical_json (
    field "domain" (str holder_proof_domain_v1) (
      field "req_id" (str req_id)
        (field "cap_id" (str (or_empty cap_id)) (field "to_agent" (str to_agent) end))))

unfoldable pub visa_use_payload : String → Bytes
visa_use_payload nonce =
    canonical_json (field "domain" (str visa_use_domain_v1) (field "nonce" (str nonce) end))

pub record PactMessage : Type 0 where
  pub id : String
  pub type : String
  pub from_agent : String
  pub to_agent : String
  pub refs : List String
  pub intent : String
  pub cap_id : Option String
  pub holder_proof : Option String
  pub deadline : Option String
  pub idempotency_key : Option String
  pub payload : Dict
  pub status : Option String
  pub fault : Option Dict
  pub stream : Option Bool
  pub chunk_seq : Option ℤ
  pub chunk_final : Option Bool
  pub identity_doc : Option Dict
  pub cap_envelope : Option Dict
  pub audit_context : Option Dict
  pub alg : String
  pub signature : String
