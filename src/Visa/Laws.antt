-- ===== src/Visa/Laws.antt =====
-- A visa that the default policy grants is accepted and cannot be passed on, and its proof of use is
-- accepted for its nonce only.
use pact_passport.Base.{
  ℕ, ◌↔◌, ◌+◌, ◌≤◌, ◌≡◌, ◌≢◌, refl, sym, subst, ◌∙◌, true, false, String, Option, List, ◌==◌,
  string_eq, arith, eq_iff, lex_le,
}
use pact_passport.Json.{str, obj, field, end}
use pact_passport.Json.Canonical.{canonical_json, print}
use pact_passport.Json.Members.{first_members_injective, members_injective}
use pact_passport.Errors.{ok, raise, attenuation_violation}
use pact_passport.Platform.{Platform, Bytes, IsLawful, IsBinding}
use pact_passport.Capability.{Caveat}
use pact_passport.Capability.Issue.{attenuate, validate_caveats, sign_token}
use pact_passport.Capability.Verify.{Keys, verify_capability}
use pact_passport.Capability.Verify.Steps.{accepted, Unexpired}
use pact_passport.Capability.Verify.Delegation.{signed_root}
use pact_passport.Message.{visa_use_payload}
use pact_passport.Receipt.Laws.{encoded_not_empty}
use pact_passport.Visa.{
  issue_visa, visa_token, visa_caveats, default_visa_expiry, sign_visa_holder_proof,
  verify_visa_holder_proof,
}

nonce_bytes :
    (n : String)
    → visa_use_payload n
      ≡ print (obj (field "domain" (str "pact/visa/v1") (field "nonce" (str n) end)))
unfolding visa_use_payload canonical_json lex_le
nonce_bytes n = refl

visa_use_payload_injective : (n m : String) → visa_use_payload n ≡ visa_use_payload m → n ≡ m
visa_use_payload_injective n m h =
    let (_, _, h1) =
      first_members_injective _ _ _ _ _ _ (sym (nonce_bytes n) ∙ h ∙ nonce_bytes m) in
    let (_, same, _) = members_injective _ _ _ _ _ _ _ _ h1 in same

module _ (p : Platform) (law : IsLawful p) where
  barred :
      (cap_id nonce : String) (key : Bytes) (issuer holder action : String)
      (fingerprint : Option String) (expires : String) (holder_key : Bytes)
      (new_holder child_id : String) (additional : List Caveat)
      → validate_caveats p additional ≡ ok tt
      → attenuate p
          (issue_visa p cap_id nonce key issuer holder action (visa_caveats expires) fingerprint)
          holder_key
          holder
          new_holder
          additional
          child_id
        ≡ raise attenuation_violation
  unfolding attenuate issue_visa sign_token
  barred cap_id nonce key issuer holder action fingerprint expires holder_key new_holder child_id
        additional valid =
      simp valid

  -- A visa that is issued with the caveats of the default policy is accepted from its holder, under the
  -- gatekeeper's key, until thirty seconds after the decision; and its holder cannot attenuate it:
  -- with additional caveats that are well formed, attenuate raises AttenuationViolation.
  pub issue_visa-accepted :
      (cap_id nonce : String) (key : Bytes) (issuer holder action : String)
      (fingerprint : Option String) (sent now : ℕ) (known : Keys) (holder_key : Bytes)
      (new_holder child_id : String) (additional : List Caveat)
      → now ≤ sent + default_visa_expiry
      → validate_caveats p additional ≡ ok tt
      → let t =
          issue_visa p cap_id nonce key issuer holder action
            (visa_caveats (p.isoformat (sent + default_visa_expiry)))
            fingerprint in
        (verify_capability p false now t holder (p.public_key key) known ≡ accepted)
        × (attenuate p t holder_key holder new_holder additional child_id
            ≡ raise attenuation_violation)
  unfolding issue_visa
  issue_visa-accepted cap_id nonce key issuer holder action fingerprint sent now known holder_key
        new_holder child_id additional timely valid =
      let cs = visa_caveats (p.isoformat (sent + default_visa_expiry)) in
      let t = visa_token p cap_id nonce issuer holder action cs fingerprint in
      let fresh : Unexpired p now cs = (
        (λ _. (
          p.isoformat (sent + default_visa_expiry),
          sent + default_visa_expiry,
          refl,
          law.fromisoformat-isoformat (sent + default_visa_expiry),
          timely,
        )),
        (
          (λ same. absurd (ground (arith, same, eq_iff "max_invocations" "expires"))),
          ((λ same. absurd (ground (arith, same, eq_iff "no_further_delegation" "expires"))), tt),
        ),
      ) in
      (
        signed_root p law now key t holder known refl refl refl fresh,
        barred cap_id nonce key issuer holder action fingerprint
            (p.isoformat (sent + default_visa_expiry)) holder_key new_holder child_id additional
            valid,
      )

  -- The proof of use that is made for a visa's nonce, where a signature binds its message and the v0.7
  -- form is refused, is accepted for a nonce that is not empty exactly if it is the same one.
  pub verify_visa_holder_proof-bound :
      IsBinding p
      → (nonce other : String) (key : Bytes) → other ≢ ""
      → (verify_visa_holder_proof p
            (sign_visa_holder_proof p nonce key)
            other
            (p.public_key key)
            false
          ≡ true)
        ↔ (other ≡ nonce)
  unfolding verify_visa_holder_proof sign_visa_holder_proof
  verify_visa_holder_proof-bound binding nonce other key present =
      let sig = p.sign (visa_use_payload nonce) key in
      let given : (other == "") ≡ false = ground (arith, present, eq_iff other "") in
      (
        λ h.
            let verified : p.verify (visa_use_payload other) sig (p.public_key key) ≡ true =
              ground (
                arith,
                h,
                given,
                encoded_not_empty p law (visa_use_payload nonce) key,
                law.b64decode-b64encode sig,
              ) in
            visa_use_payload_injective other nonce
              (binding.binds (visa_use_payload other) (visa_use_payload nonce) key verified),
        λ same.
            let verified : p.verify (visa_use_payload other) sig (p.public_key key) ≡ true =
              subst (λ n. p.verify (visa_use_payload n) sig (p.public_key key) ≡ true) (sym same)
                (law.verify-sign _ key) in
            ground (
              arith,
              verified,
              given,
              encoded_not_empty p law (visa_use_payload nonce) key,
              law.b64decode-b64encode sig,
            ),
      )
