-- ===== src/Agent/Dispatch.antt =====
-- _dispatch of agent.py: a message goes to its handler by its type and its intent. The identity document is an
-- argument; the rest of the state is that of the agent and the tracker of visas.
pub mod Open
use pact_passport.Base.{
  ℕ, String, Option, none, some, List, [], ◌∷◌, ◌==◌, string_eq, if◌then◌else◌,
}
use pact_passport.Json.{Value, Dict, arr, str, obj, end, field}
use pact_passport.Errors.{Result, ok, raise}
use pact_passport.Platform.{Platform}
use pact_passport.Message.{PactMessage}
use pact_passport.Message.Dicts.{message_from_dict, message_to_dict, text_items}
use pact_passport.Message.Build.{build_res}
use pact_passport.Visa.{Tracker}
use pact_passport.Agent.State.{Agent, AgentState, Env, Control, next, reply, fail, one}
use pact_passport.Agent.Answers.{fault_dict}
use pact_passport.Agent.Ack.{handle_initiator_ack}
use pact_passport.Agent.Run.{handle_task}
use pact_passport.Agent.Visas.{Gatekeeper, handle_visa_request}

-- What a dispatch leaves: the answer, the agent's state and the tracker.
abbrev pub Dispatched : Type 0
Dispatched = (Control (Unit {0}) × AgentState) × Tracker

module _ (p : Platform) (a : Agent) (e : Env) (g : Gatekeeper) (identity_document : Dict)
    (peer : String) (clock : ℕ) where
  abbrev pub ok_res : PactMessage → Dict → PactMessage
  ok_res m payload = build_res p (e.fresh 0) a.key a.agent_id m (some payload) "ok" none

  -- The fault names the intent in its detail.
  abbrev pub unknown_res : PactMessage → PactMessage
  unknown_res m =
      build_res p (e.fresh 0) a.key a.agent_id m none "error"
        (some (fault_dict p a e "unknown_intent"))

  abbrev pub answered : PactMessage → Tracker → AgentState → Dispatched
  answered res tr s = ((reply (one (obj (message_to_dict res))), s), tr)

  unfoldable pub dispatch_intent : PactMessage → Tracker → AgentState → Dispatched
  dispatch_intent m tr s =
      if m.intent == "identity"
      then answered (ok_res m identity_document) tr s
      else if m.intent == "discover"
      then answered (ok_res m (field "capabilities" (arr (text_items a.capabilities)) end)) tr s
      else if m.intent == "request_visa"
      then handle_visa_request p a e g m peer clock tr s
      else if m.intent == "task"
      then (handle_task p a e m s, tr)
      else answered (unknown_res m) tr s

  abbrev pub dispatch_message : PactMessage → Tracker → AgentState → Dispatched
  dispatch_message m tr s =
      if m.type == "INITIATOR_ACK"
      then (handle_initiator_ack p a e m s, tr)
      else dispatch_intent m tr s

  abbrev pub dispatch_read : Result PactMessage → Tracker → AgentState → Dispatched
  dispatch_read (raise err) tr s = ((fail err, s), tr)
  dispatch_read (ok m) tr s = dispatch_message m tr s

  unfoldable pub dispatch : Dict → Tracker → AgentState → Dispatched
  unfolding dispatch_intent message_from_dict
  dispatch body tr s = dispatch_read (message_from_dict body) tr s
