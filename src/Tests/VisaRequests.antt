-- ===== src/Tests/VisaRequests.antt =====
-- The theorems on visa requests at a stranger's request.
use pact_passport.Base.{find, none, some, [], ◌∷◌, false, ◌≡◌, refl}
use pact_passport.Store.{load_peer}
use pact_passport.Message.Check.{verify_message}
use pact_passport.Agent.Peers.{resolve_sender_key, tofu_register}
use pact_passport.Agent.Task.{step_audit_req}
use pact_passport.Json.{str, end, field, get}
use pact_passport.Message.{PactMessage}
use pact_passport.Visa.{
  tracker_start, visa_refuse, RefuseReason, not_eligible, default_visa_policy, unobservable,
}
use pact_passport.Agent.State.{AgentState, next}
use pact_passport.Agent.Visas.{Gatekeeper, VisaRequest, visa_request_checks, handle_visa_request}
use pact_passport.Agent.Visas.Opaque.{
  Agrees, abstract_step, handle_visa_request-request_visa, handle_visa_request-opaque,
}
use pact_passport.Tests.Agents.{light, bob, env, loaded, request_of_alice}

abbrev stranger : PactMessage
stranger = record request_of_alice {
  from_agent = "digest";
  intent = "request_visa";
  cap_id = none;
  holder_proof = none;
  idempotency_key = none;
  payload = field "action" (str "sum") end;
  identity_doc = some (field "agent_id" (str "digest") (field "public_key" (str "kkkkk") end));
  signature = "kkkkk";
}

-- The default policy with one action, and a policy that refuses everything.
abbrev pub gate : Gatekeeper
gate = record {
  policy = λ now c. (default_visa_policy light ("sum" ∷ []) [] now c, none);
  custom = false;
  advertise_protocol = none;
  rationale = λ c reason. "refused";
  abl_rate = false;
}

abbrev closed : RefuseReason → Gatekeeper
closed reason = record gate { policy = λ now c. (visa_refuse reason, none) }

abbrev asked : VisaRequest
asked = record { sender_pub = 1 ∷ 1 ∷ 1 ∷ 1 ∷ 1 ∷ []; action = "sum" }

abbrev met : AgentState
met = (visa_request_checks light bob env gate stranger loaded).1

checked : visa_request_checks light bob env gate stranger loaded ≡ (next asked, met)
unfolding visa_request_checks resolve_sender_key load_peer find tofu_register get verify_message
    step_audit_req
checked = refl

checked_by :
    (reason : RefuseReason)
    → visa_request_checks light bob env (closed reason) stranger loaded ≡ (next asked, met)
unfolding visa_request_checks resolve_sender_key load_peer find tofu_register get verify_message
    step_audit_req
checked_by reason = refl

handle_visa_request-request_visa_example :
    Agrees light bob env gate stranger "net" asked
      (handle_visa_request light bob env gate stranger "net" 7 tracker_start loaded)
      (abstract_step light bob env gate stranger "net" asked 7 tracker_start)
      met
handle_visa_request-request_visa_example =
    handle_visa_request-request_visa light bob env gate stranger "net" asked 7 tracker_start loaded
      met checked

handle_visa_request-opaque_example :
    (handle_visa_request light bob env
      (closed not_eligible)
      stranger
      "net"
      7
      tracker_start
      loaded).0.0
    ≡ (handle_visa_request light bob env
        (closed unobservable)
        stranger
        "unknown"
        9
        tracker_start
        loaded).0.0
handle_visa_request-opaque_example =
    handle_visa_request-opaque light bob env stranger (closed not_eligible) (closed unobservable)
      "net" "unknown" asked asked 7 9 tracker_start tracker_start loaded loaded met met not_eligible
      unobservable none refl (checked_by not_eligible) (checked_by unobservable) refl refl
