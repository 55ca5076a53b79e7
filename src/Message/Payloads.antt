-- ===== src/Message/Payloads.antt =====
-- What the bytes of a holder proof determine.
use pact_passport.Base.{eq_iff, ◌≡◌, ◌≢◌, refl, sym, ◌∙◌, String, Option, arith, lex_le}
use pact_passport.Json.{str, obj, field, end}
use pact_passport.Json.Canonical.{canonical_json, print}
use pact_passport.Json.Members.{members_injective, first_members_injective}
use pact_passport.Message.{holder_proof_payload, visa_use_payload, or_empty}

proof_bytes :
    (r a : String) (c : Option String)
    → holder_proof_payload r c a
      ≡ print (
          obj (
            field "cap_id" (str (or_empty c)) (
              field "domain"
                (str "pact/hp/v1")
                (field "req_id" (str r) (field "to_agent" (str a) end)))))
unfolding holder_proof_payload canonical_json lex_le
proof_bytes r a c = refl

visa_bytes :
    (n : String)
    → visa_use_payload n
      ≡ print (obj (field "domain" (str "pact/visa/v1") (field "nonce" (str n) end)))
unfolding visa_use_payload canonical_json lex_le
visa_bytes n = refl

-- Two holder proofs that sign the same bytes are about the same request, the same recipient, and the
-- same capability, where no capability and one with the empty identifier count as the same.
pub holder_proof_payload_injective :
    (r s a b : String) (c d : Option String)
    → holder_proof_payload r c a ≡ holder_proof_payload s d b
    → (r ≡ s) × (or_empty c ≡ or_empty d) × (a ≡ b)
holder_proof_payload_injective r s a b c d h =
    let (_, caps, h1) =
      first_members_injective _ _ _ _ _ _ (sym (proof_bytes r a c) ∙ h ∙ proof_bytes s b d) in
    let (_, _, h2) = members_injective _ _ _ _ _ _ _ _ h1 in
    let (_, ids, h3) = members_injective _ _ _ _ _ _ _ _ h2 in
    let (_, agents, _) = members_injective _ _ _ _ _ _ _ _ h3 in (ids, caps, agents)

-- No holder proof signs the bytes that the use of a visa signs.
holder_proof_payload-visa_use_payload :
    (r a n : String) (c : Option String) → holder_proof_payload r c a ≢ visa_use_payload n
holder_proof_payload-visa_use_payload r a n c h =
    let (keys, _, _) =
      first_members_injective _ _ _ _ _ _ (sym (proof_bytes r a c) ∙ h ∙ visa_bytes n) in
    ground (arith, eq_iff "cap_id" "domain", keys)
