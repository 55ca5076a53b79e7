-- ===== src/Capability.antt =====
-- capability.py: the three dataclasses, and their dict forms.
pub mod Dicts
pub mod Keys
pub mod Issue
pub mod Verify
use pact_passport.Base.{Bool, String, Option, List}
use pact_passport.Json.{Value}

pub record Caveat : Type 0 where
  pub restrict : String
  pub value : Value
  pub terminal : Bool

pub record DelegationLink : Type 0 where
  pub from_agent : String
  pub sig : String
  pub parent_cap_id : Option String
  pub action_at_step : Option String
  pub caveats_at_step : Option (List Caveat)

pub record CapabilityToken : Type 0 where
  pub cap_id : String
  pub issuer : String
  pub holder : String
  pub action : String
  pub caveats : List Caveat
  pub parent : Option String
  pub delegation_chain : List DelegationLink
  pub revoked : Bool
  pub visa : Bool
  pub nonce : Option String
  pub ephemeral_key_fingerprint : Option String
  pub alg : String
  pub signature : String

-- crypto.ALG
abbrev pub alg_name : String
alg_name = "Ed25519"
