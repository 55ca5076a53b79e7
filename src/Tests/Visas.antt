-- ===== src/Tests/Visas.antt =====
-- The theorems on visas at concrete requests.
use pact_passport.Base.{
  length, contains, ◌+◌, ◌≤◌, ◌≡◌, ◌↔◌, refl, String, none, List, [], ◌∷◌, arith, eq_iff, string_eq,
  false, true,
}
use pact_passport.Errors.{ok, raise, attenuation_violation}
use pact_passport.Platform.{Bytes}
use pact_passport.Capability.{Caveat, CapabilityToken}
use pact_passport.Capability.Issue.{attenuate, validate_caveats}
use pact_passport.Capability.Verify.{verify_capability}
use pact_passport.Capability.Verify.Steps.{accepted}
use pact_passport.Visa.{
  default_visa_policy, request_visa, tracker_start, visa_caveats, issue_visa, default_visa_expiry,
  default_visa_rate_window, default_visa_rate_limit, sign_visa_holder_proof,
  verify_visa_holder_proof, Tracker,
}
use pact_passport.Visa.Rate.{step, noted, within, start, asked, rate_ceiling}
use pact_passport.Visa.Laws.{issue_visa-accepted, verify_visa_holder_proof-bound}
use pact_passport.Tests.Toy.{toy, toy-IsLawful, toy-IsBinding}

abbrev gate_key : Bytes
gate_key = 1 ∷ []

abbrev guest_key : Bytes
guest_key = 2 ∷ []

abbrev visa : List Caveat → CapabilityToken
visa cs = issue_visa toy "v1" "n1" gate_key "gate" "guest" "ping" cs none

abbrev eligible : List String
eligible = "ping" ∷ []

abbrev after : Tracker
after = (step toy eligible [] 7 visa "ping" "h" 7 "v4:192.0.2.0/24" tracker_start).1

abbrev history : Tracker
history =
    noted (step toy eligible [] 7 visa "ping" "h" 7 "v4:192.0.2.0/24" tracker_start).0 7
      "v4:192.0.2.0/24" tracker_start

-- One visa was granted.
one_granted : history "v4:192.0.2.0/24" ≡ 7 ∷ []
unfolding request_visa default_visa_policy contains length
one_granted = refl

rate_ceiling_example :
    within default_visa_rate_window 8 (history "v4:192.0.2.0/24") ≤ default_visa_rate_limit
rate_ceiling_example =
    rate_ceiling toy eligible [] after history 7 8 "v4:192.0.2.0/24"
      (asked 7 visa "ping" "h" 7 "v4:192.0.2.0/24" start (ground arith)) (ground arith)

none_valid : validate_caveats toy [] ≡ ok tt
unfolding validate_caveats
none_valid = refl

abbrev granted : CapabilityToken
granted = visa (visa_caveats (toy.isoformat (5 + default_visa_expiry)))

issue_visa-accepted_example :
    (verify_capability toy false 9 granted "guest" gate_key [] ≡ accepted)
    × (attenuate toy granted guest_key "guest" "other" [] "v2" ≡ raise attenuation_violation)
issue_visa-accepted_example =
    issue_visa-accepted toy toy-IsLawful "v1" "n1" gate_key "gate" "guest" "ping" none 5 9 []
      guest_key "other" "v2" [] (ground arith) none_valid

verify_visa_holder_proof-bound_example :
    (verify_visa_holder_proof toy (sign_visa_holder_proof toy "n1" guest_key) "n2" guest_key false
      ≡ true)
    ↔ ◌≡◌ {A = String} "n2" "n1"
verify_visa_holder_proof-bound_example =
    verify_visa_holder_proof-bound toy toy-IsLawful toy-IsBinding "n1" "n2" guest_key
      (λ h. ground (arith, h, eq_iff "n2" ""))
