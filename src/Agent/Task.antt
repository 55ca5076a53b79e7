-- ===== src/Agent/Task.antt =====
-- _handle_task of agent.py: the steps that a task request goes through, in their order, and the run of the
-- handler. The lock of the tasks is held meanwhile; the clock is read once.
use pact_passport.Base.{
  ℕ, ltb, Bool, true, false, String, Option, none, some, List, [], ◌∷◌, string_eq, if◌then◌else◌,
  find, remove,
}
use pact_passport.Json.{Value, Dict, str, arr, obj, end, field, get}
use pact_passport.Errors.{Result, ok, raise, type_error}
use pact_passport.Platform.{Platform, Bytes}
use pact_passport.Wire.{truthy}
use pact_passport.Capability.{CapabilityToken}
use pact_passport.Message.Check.{verify_message}
use pact_passport.Audit.Requests.{audit_req}
use pact_passport.Store.{Store}
use pact_passport.Agent.{StepFault, deadline_exceeded, deadline_too_far, step_check_deadline}
use pact_passport.Agent.State.{
  Agent, Env, Context, HandlerResult, Reply, one, replay, Step, answer, or_fail, pure, fail, ◌>>=◌,
}
use pact_passport.Agent.Peers.{sender_key, resolve_sender_key, maybe_refresh_peer_after_rotation}
use pact_passport.Agent.Answers.{dispatch_err}

abbrev pub fault_code : StepFault → String
fault_code deadline_exceeded = "deadline_exceeded"
fault_code deadline_too_far = "deadline_too_far"

-- `cache[key]` while it lasts; an expired entry is deleted.
abbrev pub replayed : Value → Reply
replayed (arr xs) = replay xs
replayed v = one v

-- msg.payload.get("action", ""); a value that is no text names no handler, and a list or a dict as a
-- key raises TypeError.
abbrev pub action_of : Option Value → Result (Option String)
action_of none = ok (some "")
action_of (some (str s)) = ok (some s)
action_of (some (arr xs)) = raise type_error
action_of (some (obj d)) = raise type_error
action_of (some v) = ok none

-- `result if isinstance(result, dict) else {"result": result}`
abbrev pub as_payload : Value → Dict
as_payload (obj d) = d
as_payload v = field "result" v end

module _ (p : Platform) (a : Agent) (e : Env) where
  abbrev pub checked_deadline : Context → Result (Option StepFault) → Step (Unit {0})
  checked_deadline ctx (raise err) s = (fail err, s)
  checked_deadline ctx (ok none) s = pure tt s
  checked_deadline ctx (ok (some f)) s = dispatch_err p a e ctx (fault_code f) s

  unfoldable pub check_deadline : Context → Step (Unit {0})
  check_deadline ctx =
      checked_deadline ctx (step_check_deadline p a.max_deadline_seconds e.now ctx.msg)

  abbrev pub looked_up : String → Option (Value × ℕ) → Step (Unit {0})
  looked_up key none s = pure tt s
  looked_up key (some (response, exp)) s =
      if ltb e.now exp
      then answer (replayed response) s
      else pure tt (record s { cache = remove s.cache key })

  abbrev pub lookup_under : Option String → Step (Unit {0})
  lookup_under none s = pure tt s
  lookup_under (some key) s = looked_up key (find s.cache key) s

  unfoldable pub step_idempotency_lookup : Context → Step (Unit {0})
  step_idempotency_lookup ctx = lookup_under (truthy ctx.msg.idempotency_key)

  -- The key under which the message verifies, or a refusal.
  abbrev pub refreshed_sender : Context → Option Bytes × Store → Step Context
  refreshed_sender ctx (none, t) s =
      dispatch_err p a e ctx "invalid_signature" (record s { store = t })
  refreshed_sender ctx (some key, t) s =
      if verify_message p ctx.msg key
      then pure (record ctx { sender_pub = some key }) (record s { store = t })
      else dispatch_err p a e ctx "invalid_signature" (record s { store = t })

  abbrev pub verified_sender : Context → Option Bytes × Store → Step Context
  verified_sender ctx (none, t) s = dispatch_err p a e ctx "unknown_peer" (record s { store = t })
  verified_sender ctx (some key, t) s =
      if verify_message p ctx.msg key
      then pure (record ctx { sender_pub = some key }) (record s { store = t })
      else refreshed_sender ctx (maybe_refresh_peer_after_rotation p ctx.msg t)
          (record s { store = t })

  unfoldable pub step_verify_sender : Context → Step Context
  step_verify_sender ctx s =
      verified_sender ctx
        (sender_key p ctx.msg (resolve_sender_key p ctx.msg.from_agent s.store) s.store) s

  -- `if not result.passed and result.errors`
  abbrev pub audited : Context → Bool → List String → Step (Unit {0})
  audited ctx true errors s = pure tt s
  audited ctx false [] s = pure tt s
  audited ctx false (code ∷ errors) s = dispatch_err p a e ctx code s

  abbrev pub audit_with : Context → Option Dict → Step (Unit {0})
  audit_with ctx none s =
      if a.audit_context_strict then dispatch_err p a e ctx "pact_token_malformed" s else pure tt s
  audit_with ctx (some c) s =
      let r = audit_req p e.now ctx.msg none none in audited ctx r.passed r.errors s

  unfoldable pub step_audit_req : Context → Step (Unit {0})
  step_audit_req ctx = audit_with ctx ctx.msg.audit_context

  abbrev pub served : Context → Option (Dict → HandlerResult) → Step (Dict → HandlerResult)
  served ctx none = dispatch_err p a e ctx "no_handler"
  served ctx (some handler) = pure handler

  abbrev pub handler_for : Context → Option String → Step (Dict → HandlerResult)
  handler_for ctx none = dispatch_err p a e ctx "no_handler"
  handler_for ctx (some action) = served ctx (a.handlers action)

  abbrev pub action_in : Context → Option CapabilityToken → Result (Option String)
  action_in ctx (some t) = ok (some t.action)
  action_in ctx none = action_of (get ctx.msg.payload "action")

  unfoldable pub step_resolve_action : Context → Step (Dict → HandlerResult)
  step_resolve_action ctx = or_fail (action_in ctx ctx.cap_token) >>= handler_for ctx
