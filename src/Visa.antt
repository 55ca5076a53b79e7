-- ===== src/Visa.antt =====
-- visa.py: the rate window of issuances, the default policy, the visa itself and the proof of its use,
-- and the issuing step of agent.py. Times are microseconds; the peer's network is a text.
pub mod Rate
pub mod Laws
use pact_passport.Base.{
  ℕ, ltb, leb, ◌+◌, pos, ℤ, leb_ℤ, Bool, true, false, not, ◌&&◌, ◌||◌, String, Option, none, some,
  List, [], ◌∷◌, ◌++◌, ◌==◌, string_eq, if◌then◌else◌, contains, length, encode,
}
use pact_passport.Json.{Value, str, int, bool}
use pact_passport.Json.Canonical.{canonical_json}
use pact_passport.Platform.{Platform, Bytes}
use pact_passport.Capability.{Caveat, CapabilityToken, alg_name}
use pact_passport.Capability.Issue.{sign_token}
use pact_passport.Message.{visa_use_payload}

abbrev pub default_max_payload_bytes : ℤ
default_max_payload_bytes = pos 4096

abbrev pub default_max_compute_ms : ℤ
default_max_compute_ms = pos 100

abbrev pub default_visa_rate_limit : ℕ
default_visa_rate_limit = 5

-- 60 seconds
abbrev pub default_visa_rate_window : ℕ
default_visa_rate_window = 60000000

-- 30 seconds
abbrev pub default_visa_expiry : ℕ
default_visa_expiry = 30000000

-- The times of issuance, by network, in the order of their recording. The locks are left out: a step
-- is taken whole.
abbrev pub Tracker : Type 0
Tracker = String → List ℕ

abbrev pub tracker_start : Tracker
tracker_start peer = []

abbrev pub put : Tracker → String → List ℕ → Tracker
put tr peer ts other = if other == peer then ts else tr other

-- `while q and q[0] < cutoff: q.popleft()`, with the cutoff now - window.
unfoldable pub drop_expired : ℕ → ℕ → List ℕ → List ℕ
drop_expired window now [] = []
drop_expired window now (t ∷ ts) =
    let rest = drop_expired window now ts in if ltb (t + window) now then rest else t ∷ ts

-- The count, and the tracker after the expired entries are gone.
unfoldable pub recent_count : ℕ → ℕ → String → Tracker → ℕ × Tracker
unfolding drop_expired length
recent_count window now peer tr =
    (length (drop_expired window now (tr peer)), put tr peer (drop_expired window now (tr peer)))

unfoldable pub record_issuance : ℕ → String → Tracker → Tracker
record_issuance now peer tr = put tr peer (tr peer ++ (now ∷ []))

pub record HandlerCost : Type 0 where
  pub payload_bytes : ℤ
  pub compute_ms : ℤ
  pub idempotent : Bool

abbrev pub default_cost : HandlerCost
default_cost = record {
  payload_bytes = default_max_payload_bytes;
  compute_ms = default_max_compute_ms;
  idempotent = true;
}

pub record VisaContext : Type 0 where
  pub action : String
  pub payload_hash : String
  pub peer_network_id : String
  pub recent_visa_count_window : ℕ

-- The reason of a refusal is for the gatekeeper's own audit.
pub data RefuseReason : Type 0 where
  unobservable not_eligible not_idempotent payload_ceiling compute_ceiling rate_ceiling :
      RefuseReason

pub data VisaDecision : Type 0 where
  visa_grant : List Caveat → VisaDecision
  visa_refuse : RefuseReason → VisaDecision

-- costs.get(action, HandlerCost())
unfoldable pub find_cost : List (String × HandlerCost) → String → HandlerCost
find_cost [] action = default_cost
find_cost ((a, c) ∷ cs) action = let rest = find_cost cs action in if a == action then c else rest

abbrev pub unless : Bool → RefuseReason → VisaDecision → VisaDecision
unless test reason rest = if test then rest else visa_refuse reason

abbrev pub visa_caveats : String → List Caveat
visa_caveats expires =
    (record { restrict = "expires"; value = str expires; terminal = false })
    ∷ (record { restrict = "max_invocations"; value = int (pos 1); terminal = false })
    ∷ (record { restrict = "no_further_delegation"; value = bool true; terminal = true })
    ∷ []

module _ (p : Platform) where
  -- The policy that make_default_visa_policy builds.
  unfoldable pub default_visa_policy :
      List String → List (String × HandlerCost) → ℕ → VisaContext → VisaDecision
  unfolding find_cost
  default_visa_policy eligible costs now c =
      let cost = find_cost costs c.action in
      unless (not (c.peer_network_id == "unknown")) unobservable (
        unless (contains eligible c.action) not_eligible (
          unless cost.idempotent not_idempotent (
            unless (leb_ℤ cost.payload_bytes default_max_payload_bytes) payload_ceiling (
              unless (leb_ℤ cost.compute_ms default_max_compute_ms) compute_ceiling (
                unless (ltb c.recent_visa_count_window default_visa_rate_limit) rate_ceiling
                  (visa_grant (visa_caveats (p.isoformat (now + default_visa_expiry)))))))))

  abbrev pub visa_token :
      String → String → String → String → String → List Caveat → Option String → CapabilityToken
  visa_token cap_id nonce issuer holder action caveats fingerprint = record {
    cap_id = cap_id;
    issuer = issuer;
    holder = holder;
    action = action;
    caveats = caveats;
    parent = none;
    delegation_chain = [];
    revoked = false;
    visa = true;
    nonce = some nonce;
    ephemeral_key_fingerprint = fingerprint;
    alg = alg_name;
    signature = "";
  }

  -- The identifier and the nonce are fresh.
  unfoldable pub issue_visa :
      String
      → String
      → Bytes
      → String
      → String
      → String
      → List Caveat
      → Option String
      → CapabilityToken
  issue_visa cap_id nonce key issuer holder action caveats fingerprint =
      sign_token p key (visa_token cap_id nonce issuer holder action caveats fingerprint)

  unfoldable pub sign_visa_holder_proof : String → Bytes → String
  sign_visa_holder_proof nonce key = p.b64encode (p.sign (visa_use_payload nonce) key)

  abbrev pub visa_proof_matches : Option Bytes → String → Bytes → Bool → Bool
  visa_proof_matches none nonce key allow_legacy_v07 = false
  visa_proof_matches (some sig) nonce key allow_legacy_v07 =
      p.verify (visa_use_payload nonce) sig key
      || (allow_legacy_v07 && p.verify (encode nonce) sig key)

  unfoldable pub verify_visa_holder_proof : String → String → Bytes → Bool → Bool
  verify_visa_holder_proof proof nonce key allow_legacy_v07 =
      if proof == "" || nonce == ""
      then false
      else visa_proof_matches (p.b64decode proof) nonce key allow_legacy_v07

-- The part of the step that the peer's lock guards: count, decide, issue and record. `clock` is the
-- monotonic clock. `abl_rate` is the experimental flag ABL_RATE, off by default. That the visa is saved
-- is left out.
abbrev pub decided :
    VisaDecision
    → (List Caveat → CapabilityToken)
    → ℕ
    → String
    → Tracker
    → Option CapabilityToken × Tracker
decided (visa_refuse reason) issue clock peer tr = (none, tr)
decided (visa_grant caveats) issue clock peer tr =
    (some (issue caveats), record_issuance clock peer tr)

unfoldable pub request_visa :
    Bool
    → (VisaContext → VisaDecision)
    → (List Caveat → CapabilityToken)
    → String
    → String
    → ℕ
    → String
    → Tracker
    → Option CapabilityToken × Tracker
unfolding recent_count record_issuance
request_visa abl_rate policy issue action payload_hash clock peer tr =
    let (count, counted) = recent_count default_visa_rate_window clock peer tr in
    decided
      (policy (record {
        action = action;
        payload_hash = payload_hash;
        peer_network_id = peer;
        recent_visa_count_window = if abl_rate then 0 else count;
      }))
      issue clock peer counted
