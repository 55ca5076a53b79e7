-- ===== src/Errors/Faults.antt =====
-- The fault codes of errors.py and their HTTP statuses.
use pact_passport.Base.{
  ℕ, ◌≡◌, ◌⊎◌, inl, inr, refl, true, false, String, List, [], ◌∷◌, ◌==◌, string_eq, if◌then◌else◌,
}

abbrev pub pact_token_missing : String
pact_token_missing = "pact_token_missing"

abbrev pub pact_token_malformed : String
pact_token_malformed = "pact_token_malformed"

abbrev pub pact_signature_invalid : String
pact_signature_invalid = "pact_signature_invalid"

abbrev pub pact_holder_proof_invalid : String
pact_holder_proof_invalid = "pact_holder_proof_invalid"

abbrev pub pact_identity_unresolvable : String
pact_identity_unresolvable = "pact_identity_unresolvable"

abbrev pub pact_token_expired : String
pact_token_expired = "pact_token_expired"

abbrev pub pact_key_revoked : String
pact_key_revoked = "pact_key_revoked"

abbrev pub pact_scope_insufficient : String
pact_scope_insufficient = "pact_scope_insufficient"

abbrev pub pact_budget_exceeded : String
pact_budget_exceeded = "pact_budget_exceeded"

abbrev pub pact_depth_exceeded : String
pact_depth_exceeded = "pact_depth_exceeded"

abbrev pub pact_audience_mismatch : String
pact_audience_mismatch = "pact_audience_mismatch"

abbrev pub pact_receipt_not_bilateral : String
pact_receipt_not_bilateral = "pact_receipt_not_bilateral"

abbrev pub pact_revocation_observed : String
pact_revocation_observed = "pact_revocation_observed"

abbrev pub fault_http_status : List (String × ℕ)
fault_http_status =
    (pact_token_missing, 401)
    ∷ (pact_token_malformed, 401)
    ∷ (pact_signature_invalid, 401)
    ∷ (pact_holder_proof_invalid, 401)
    ∷ (pact_identity_unresolvable, 401)
    ∷ (pact_token_expired, 401)
    ∷ (pact_key_revoked, 401)
    ∷ (pact_scope_insufficient, 403)
    ∷ (pact_budget_exceeded, 403)
    ∷ (pact_depth_exceeded, 403)
    ∷ (pact_audience_mismatch, 403)
    ∷ (pact_receipt_not_bilateral, 403)
    ∷ (pact_revocation_observed, 410)
    ∷ []

unfoldable find_status : List (String × ℕ) → String → ℕ
find_status [] code = 500
find_status ((c, n) ∷ rest) code =
    let later = find_status rest code in if c == code then n else later

unfoldable http_status_for_fault : String → ℕ
unfolding find_status
http_status_for_fault code = find_status fault_http_status code

abbrev IsFaultStatus : ℕ → Type 0
IsFaultStatus n = (n ≡ 401) ⊎ ((n ≡ 403) ⊎ ((n ≡ 410) ⊎ (n ≡ 500)))

abbrev AllFaultStatus : List (String × ℕ) → Type 0
AllFaultStatus [] = Unit {0}
AllFaultStatus ((c, n) ∷ rest) = IsFaultStatus n × AllFaultStatus rest

find_status-IsFaultStatus :
    (table : List (String × ℕ)) (code : String)
    → AllFaultStatus table
    → IsFaultStatus (find_status table code)
unfolding find_status
find_status-IsFaultStatus [] code h = inr (inr (inr refl))
find_status-IsFaultStatus ((c, n) ∷ rest) code h =
    elim (c == code) as (λ b. IsFaultStatus (if b then n else find_status rest code)) [
      | true ↦ h.0
      | false ↦ find_status-IsFaultStatus rest code h.1
    ]

auth : IsFaultStatus 401
auth = inl refl

deny : IsFaultStatus 403
deny = inr (inl refl)

-- The status of every code, in the taxonomy or not, is 401, 403, 410 or 500: no code has 400 or 429.
http_status_for_fault-IsFaultStatus : (code : String) → IsFaultStatus (http_status_for_fault code)
unfolding http_status_for_fault
http_status_for_fault-IsFaultStatus code = find_status-IsFaultStatus fault_http_status code (
  auth,
  (
    auth,
    (
      auth,
      (
        auth,
        (auth, (auth, (auth, (deny, (deny, (deny, (deny, (deny, (inr (inr (inl refl)), tt))))))))),
      ),
    ),
  ),
)
