-- ===== src/Tests/Messages.antt =====
-- The theorems on messages at concrete ones.
use pact_passport.Base.{
  ◌↔◌, ◌≡◌, refl, true, false, none, some, [], ◌∷◌, pos, arith, string_eq, is_blank,
}
use pact_passport.Json.{Dict, str, end, field}
use pact_passport.Errors.{Error, raise, ok, overflow_error}
use pact_passport.Platform.{Bytes}
use pact_passport.Message.{PactMessage, holder_proof_payload, or_empty}
use pact_passport.Wire.{truthy}
use pact_passport.Agent.{step_check_deadline}
use pact_passport.Agent.Deadline.{Unreadable, step_check_deadline-Unreadable}
use pact_passport.Message.Dicts.{message_to_dict, message_from_dict}
use pact_passport.Message.Dicts.RoundTrip.{message_round_trip}
use pact_passport.Message.Build.{ReqOptions, build_req, sign_message, make_proof}
use pact_passport.Message.Build.Laws.{BuiltReq, build_req-BuiltReq, built}
use pact_passport.Message.Check.{verify_holder_proof}
use pact_passport.Message.Check.Binding.{verify_holder_proof-bound}
use pact_passport.Audit.Requests.{audit_req}
use pact_passport.Audit.Requests.Laws.{audit_req-build_req}
use pact_passport.Tests.Toy.{toy, toy-IsLawful, toy-IsBinding}

abbrev key : Bytes
key = 1 ∷ []

abbrev holder_key : Bytes
holder_key = 2 ∷ []

abbrev options : ReqOptions
options = record {
  payload = some (field "task" (str "sum") end);
  cap_id = some "cap";
  holder_proof_key = some holder_key;
  deadline_seconds = pos 0;
  refs = none;
  identity_doc = none;
  cap_envelope = none;
  stream = false;
  audit_context = none;
  audit_purpose = "task";
}

abbrev context : Dict
context = field "purpose" (str "task") (
    field "request_id" (str "m1")
      (field "audience_hint" (str "bob") (field "expires_at" (str (toy.isoformat 5)) end)))

abbrev req : PactMessage
req = built toy toy-IsLawful 5 "m1" "i1" key "alice" "bob" "task" options (some "cap") context

req_built : build_req toy 5 "m1" "i1" key "alice" "bob" "task" options ≡ ok req
unfolding build_req
req_built = refl

-- A deadline beyond the year 9999.
deadline_overflows :
    build_req toy 5 "m1" "i1" key "alice" "bob" "task"
      (record options { deadline_seconds = pos 315537897600 })
    ≡ raise overflow_error
unfolding build_req
deadline_overflows = refl

build_req-BuiltReq_example : BuiltReq toy 5 key "alice" "bob" options req
build_req-BuiltReq_example =
    build_req-BuiltReq toy toy-IsLawful 5 "m1" "i1" key "alice" "bob" "task" options req req_built

message_round_trip_example : message_from_dict (message_to_dict req) ≡ ok req
message_round_trip_example = message_round_trip req

task-not_blank : is_blank "task" ≡ false
unfolding is_blank
task-not_blank = refl

m1-not_blank : is_blank "m1" ≡ false
unfolding is_blank
m1-not_blank = refl

audit_req-build_req_example :
    ((audit_req toy 5 req (some key) (some holder_key)).passed ≡ true)
    × ((audit_req toy 5 req (some key) (some holder_key)).errors ≡ [])
audit_req-build_req_example =
    audit_req-build_req toy toy-IsLawful 5 5 "m1" "i1" key "alice" "bob" "task" options req
      req_built refl task-not_blank m1-not_blank (ground arith)

req-proof :
    req.holder_proof
    ≡ some (toy.b64encode (toy.sign (holder_proof_payload "m1" (some "cap") "bob") holder_key))
unfolding sign_message make_proof
req-proof = refl

req-verified : verify_holder_proof toy req holder_key false ≡ true
req-verified = build_req-BuiltReq_example.holder false

verify_holder_proof-bound_example :
    (req.id ≡ "m1") × (or_empty req.cap_id ≡ "cap") × (req.to_agent ≡ "bob")
verify_holder_proof-bound_example =
    verify_holder_proof-bound toy toy-IsLawful toy-IsBinding req holder_key "m1" "bob" (some "cap")
      req-proof req-verified

step_check_deadline-Unreadable_example :
    ((e : Error) × (step_check_deadline toy 60 5 req ≡ raise e))
    ↔ Unreadable toy 60 5 (truthy req.deadline)
step_check_deadline-Unreadable_example = step_check_deadline-Unreadable toy 60 5 req
