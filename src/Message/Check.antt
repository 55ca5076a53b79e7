-- ===== src/Message/Check.antt =====
-- verify_message, verify_holder_proof and is_deadline_exceeded of message.py.
pub mod Binding
use pact_passport.Base.{
  ℕ, ltb, Bool, true, false, ◌&&◌, ◌||◌, String, Option, none, some, List, encode, string_eq, ◌==◌,
  if◌then◌else◌,
}
use pact_passport.Json.Canonical.{canonical_json}
use pact_passport.Errors.{Result, ok, raise, value_error, type_error}
use pact_passport.Platform.{Platform, Bytes, Datetime, aware, naive}
use pact_passport.Wire.{truthy}
use pact_passport.Message.{PactMessage, holder_proof_payload}
use pact_passport.Message.Dicts.{message_signable_dict}

module _ (p : Platform) where
  -- A signature in base64; one that does not decode does not verify.
  abbrev pub verify_text : Bytes → Option Bytes → Bytes → Bool
  verify_text payload none key = false
  verify_text payload (some sig) key = p.verify payload sig key

  unfoldable pub verify_message : PactMessage → Bytes → Bool
  verify_message m key =
      verify_text (canonical_json (message_signable_dict m)) (p.b64decode m.signature) key

  abbrev pub proof_matches : PactMessage → Option Bytes → Bytes → Bool → Bool
  proof_matches m none key allow_legacy_v07 = false
  proof_matches m (some proof) key allow_legacy_v07 =
      p.verify (holder_proof_payload m.id m.cap_id m.to_agent) proof key
      || (allow_legacy_v07 && p.verify (encode m.id) proof key)

  abbrev pub check_proof : PactMessage → Option String → Bytes → Bool → Bool
  check_proof m none key allow_legacy_v07 = false
  check_proof m (some text) key allow_legacy_v07 =
      proof_matches m (p.b64decode text) key allow_legacy_v07

  unfoldable pub verify_holder_proof : PactMessage → Bytes → Bool → Bool
  verify_holder_proof m key allow_legacy_v07 =
      check_proof m (truthy m.holder_proof) key allow_legacy_v07

  -- datetime.now(UTC) > deadline
  abbrev pub is_past : ℕ → Option Datetime → Result Bool
  is_past now none = raise value_error
  is_past now (some (aware t)) = ok (ltb t now)
  is_past now (some (naive t)) = raise type_error

  abbrev pub past_deadline : ℕ → Option String → Result Bool
  past_deadline now none = ok false
  past_deadline now (some text) = is_past now (p.fromisoformat text)

  unfoldable pub is_deadline_exceeded : ℕ → PactMessage → Result Bool
  is_deadline_exceeded now m = past_deadline now (truthy m.deadline)
