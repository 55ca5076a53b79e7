-- ===== src/Message/Check/Binding.antt =====
-- What an accepted holder proof says, where a signature binds its message.
use pact_passport.Base.{◌≡◌, true, false, String, Option, some, arith, eq_iff, string_eq}
use pact_passport.Platform.{Platform, Bytes, IsLawful, IsBinding}
use pact_passport.Message.{PactMessage, holder_proof_payload, or_empty}
use pact_passport.Message.Payloads.{holder_proof_payload_injective}
use pact_passport.Message.Check.{verify_holder_proof}

module _ (p : Platform) (law : IsLawful p) (binding : IsBinding p) where
  -- A message that carries the holder proof made with a key for one request, capability and recipient
  -- is accepted under that key, with the v0.7 form refused, only if it is that request with that
  -- capability to that recipient: a proof is of no use in another message.
  pub verify_holder_proof-bound :
      (m : PactMessage) (key : Bytes) (req_id to_agent : String) (cap_id : Option String)
      → m.holder_proof
        ≡ some (p.b64encode (p.sign (holder_proof_payload req_id cap_id to_agent) key))
      → verify_holder_proof p m (p.public_key key) false ≡ true
      → (m.id ≡ req_id) × (or_empty m.cap_id ≡ or_empty cap_id) × (m.to_agent ≡ to_agent)
  unfolding verify_holder_proof
  verify_holder_proof-bound m key req_id to_agent cap_id carried h =
      let sig = p.sign (holder_proof_payload req_id cap_id to_agent) key in
      let verified : p.verify (holder_proof_payload m.id m.cap_id m.to_agent) sig (p.public_key key)
          ≡ true =
        ground (
          arith,
          carried,
          law.b64decode-b64encode sig,
          h,
          eq_iff (p.b64encode sig) "",
          law.b64encode-sign (holder_proof_payload req_id cap_id to_agent) key,
        ) in
      holder_proof_payload_injective m.id req_id m.to_agent to_agent m.cap_id cap_id
        (binding.binds _ _ key verified)
