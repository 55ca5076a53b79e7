-- ===== src/Agent/Visas.antt =====
-- _handle_visa_request and _build_visa_refusal of agent.py, with the tracker of issuances beside the agent's
-- state. The peer's network and the moment of the monotonic clock are arguments: the first is what
-- derive_peer_network_id makes of the address of the connection.
pub mod Writes
pub mod Opaque
use pact_passport.Base.{ℕ, Bool, String, Option, none, some, List, [], ◌∷◌, if◌then◌else◌}
use pact_passport.Json.{Dict, str, obj, end, field, get}
use pact_passport.Json.Canonical.{canonical_json}
use pact_passport.Platform.{Platform, Bytes}
use pact_passport.Message.{PactMessage}
use pact_passport.Message.Dicts.{message_to_dict}
use pact_passport.Message.Build.{build_res}
use pact_passport.Message.Check.{verify_message}
use pact_passport.Capability.{Caveat, CapabilityToken}
use pact_passport.Capability.Dicts.{token_to_dict}
use pact_passport.Receipt.{create_receipt}
use pact_passport.Store.{Store, save_message, save_capability}
use pact_passport.Visa.{
  Tracker, VisaContext, VisaDecision, visa_grant, visa_refuse, RefuseReason, recent_count,
  record_issuance, issue_visa, default_visa_rate_window,
}
use pact_passport.Agent.State.{
  Agent, AgentState, Env, Context, context_start, Control, next, reply, fail, Step, one, answer,
  pure, save, ◌>>=◌, ◌>>◌,
}
use pact_passport.Agent.Peers.{filled, sender_key, resolve_sender_key}
use pact_passport.Agent.Answers.{dispatch_err, persist_receipt, text_or_null}
use pact_passport.Agent.Task.{step_audit_req}
use pact_passport.Agent.Ack.{filled_text}

-- How the agent decides on visas: its policy at a moment, with the advertisement that a decision carries;
-- whether the policy is its own; the advertisement that it has anyway; the text of a refusal's reason;
-- and the experimental flag ABL_RATE.
pub record Gatekeeper : Type 0 where
  pub policy : ℕ → VisaContext → VisaDecision × Option Dict
  pub custom : Bool
  pub advertise_protocol : Option Dict
  pub rationale : VisaContext → RefuseReason → String
  pub abl_rate : Bool

-- What the checks leave: the sender's key and the action.
pub record VisaRequest : Type 0 where
  pub sender_pub : Bytes
  pub action : String

-- `policy_result.protocol_advertisement or self.advertise_protocol`, as the field of the payload
abbrev pub first_of : Option Dict → Option Dict → Option Dict
first_of (some d) other = some d
first_of none other = other

abbrev pub advertised : Option Dict → Dict
advertised none = end
advertised (some d) = field "protocol_advertisement" (obj d) end

abbrev pub advertised_only : Option Dict → Option Dict
advertised_only none = none
advertised_only (some d) = some (advertised (some d))

module _ (p : Platform) (a : Agent) (e : Env) (g : Gatekeeper) (msg : PactMessage) where
  abbrev pub visa_ctx : Context
  visa_ctx = context_start msg

  abbrev pub identified : Option Dict → Step (Unit {0})
  identified none = dispatch_err p a e visa_ctx "visa_no_identity"
  identified (some doc) = pure tt

  abbrev pub bound : Option Bytes × Store → Step Bytes
  bound (none, t) s = dispatch_err p a e visa_ctx "visa_invalid_identity" (record s { store = t })
  bound (some key, t) s =
      if verify_message p msg key
      then pure key (record s { store = t })
      else dispatch_err p a e visa_ctx "visa_invalid_signature" (record s { store = t })

  -- The key under which the request verifies.
  unfoldable pub visa_sender : Step Bytes
  visa_sender s = bound (sender_key p msg (resolve_sender_key p msg.from_agent s.store) s.store) s

  abbrev pub acting : Bytes → Option String → Step VisaRequest
  acting key none = dispatch_err p a e visa_ctx "visa_no_action"
  acting key (some action) = pure (record { sender_pub = key; action = action })

  abbrev pub with_key : Bytes → Step VisaRequest
  with_key key = do
    step_audit_req p a e (record visa_ctx { sender_pub = some key })
    acting key (filled_text (get msg.payload "action"))

  -- The checks before the decision.
  unfoldable pub visa_request_checks : Step VisaRequest
  unfolding visa_sender
  visa_request_checks = do identified (filled msg.identity_doc); visa_sender >>= with_key

  -- The decision, from the peer's network and the count in the window.
  module _ (peer : String) (r : VisaRequest) where
    abbrev pub fingerprint : String
    fingerprint = p.sha256_digest r.sender_pub

    abbrev pub visa_context : ℕ → VisaContext
    visa_context count = record {
      action = r.action;
      payload_hash = p.sha256_digest (canonical_json msg.payload);
      peer_network_id = peer;
      recent_visa_count_window = if g.abl_rate then 0 else count;
    }

    abbrev pub policy_id : Dict
    policy_id = field "policy_id" (str (if g.custom then "custom" else "default_v0_6")) end

    -- The response to a refusal: the fault is the same for every reason.
    unfoldable pub refusal_res : Option Dict → PactMessage
    refusal_res override =
        build_res p (e.fresh 0) a.key a.agent_id msg
          (advertised_only (first_of override g.advertise_protocol)) "error"
          (some (field "code" (str "denied") (field "detail" (str "denied") end)))

    abbrev pub refusal_receipt : String → Dict
    refusal_receipt reason =
        create_receipt p e.now a.key a.agent_id msg.id (msg.id ∷ e.fresh 0 ∷ []) "failed" (
          some (
            field "event_type" (str "visa_refused") (
              field "ephemeral_key_fingerprint" (str fingerprint) (
                field "action" (str r.action) (
                  field "peer_network_id" (str peer) (field "rationale" (str reason) policy_id))))))

    unfoldable pub build_visa_refusal : String → Option Dict → Step (Unit {0})
    build_visa_refusal reason override = do
      save (save_message (message_to_dict msg))
      save (save_message (message_to_dict (refusal_res override)))
      persist_receipt p a e (refusal_receipt reason)
      answer (one (obj (message_to_dict (refusal_res override))))

    -- The visa, with a fresh identifier and a fresh nonce.
    abbrev pub visa : List Caveat → CapabilityToken
    visa caveats =
        issue_visa p (e.fresh 1) (e.fresh 2) a.key a.agent_id msg.from_agent r.action caveats
          (some fingerprint)

    unfoldable pub grant_res : CapabilityToken → Option Dict → PactMessage
    grant_res t override =
        build_res p (e.fresh 0) a.key a.agent_id msg
          (some (
            field "visa" (obj (token_to_dict t)) (
              field "nonce" (text_or_null t.nonce)
                (advertised (first_of override g.advertise_protocol)))))
          "ok" none

    abbrev pub grant_receipt : CapabilityToken → Dict
    grant_receipt t =
        create_receipt p e.now a.key a.agent_id msg.id (msg.id ∷ e.fresh 0 ∷ []) "completed" (
          some (
            field "event_type" (str "visa_grant") (
              field "visa_cap_id" (str t.cap_id) (
                field "ephemeral_key_fingerprint" (str fingerprint) (
                  field "action" (str r.action) (
                    field "peer_network_id" (str peer)
                      (field "visa_nonce" (text_or_null t.nonce) policy_id)))))))

    unfoldable pub answer_grant : CapabilityToken → Option Dict → Step (Unit {0})
    answer_grant t override = do
      save (save_message (message_to_dict msg))
      save (save_message (message_to_dict (grant_res t override)))
      persist_receipt p a e (grant_receipt t)
      answer (one (obj (message_to_dict (grant_res t override))))

    -- The visa is saved, and only then is its issuance recorded.
    abbrev pub issued :
        CapabilityToken
        → Option Dict
        → ℕ
        → Tracker
        → Control (Unit {0}) × AgentState
        → (Control (Unit {0}) × AgentState) × Tracker
    issued t override clock tr (next x, s) =
        (answer_grant t override s, record_issuance clock peer tr)
    issued t override clock tr (reply x, s) = ((reply x, s), tr)
    issued t override clock tr (fail err, s) = ((fail err, s), tr)

    abbrev pub conclude :
        ℕ
        → VisaDecision × Option Dict
        → ℕ
        → Tracker
        → AgentState
        → (Control (Unit {0}) × AgentState) × Tracker
    conclude count (visa_refuse reason, override) clock tr s =
        (build_visa_refusal (g.rationale (visa_context count) reason) override s, tr)
    conclude count (visa_grant caveats, override) clock tr s =
        issued (visa caveats) override clock tr
          (save (save_capability (token_to_dict (visa caveats))) s)

    unfoldable pub decide_visa :
        ℕ → Tracker → AgentState → (Control (Unit {0}) × AgentState) × Tracker
    decide_visa clock tr s =
        let (count, counted) = recent_count default_visa_rate_window clock peer tr in
        conclude count (g.policy e.now (visa_context count)) clock counted s

  abbrev pub decided_on :
      String
      → ℕ
      → Tracker
      → Control VisaRequest × AgentState
      → (Control (Unit {0}) × AgentState) × Tracker
  decided_on peer clock tr (next r, s) = decide_visa peer r clock tr s
  decided_on peer clock tr (reply x, s) = ((reply x, s), tr)
  decided_on peer clock tr (fail err, s) = ((fail err, s), tr)

  unfoldable pub handle_visa_request :
      String → ℕ → Tracker → AgentState → (Control (Unit {0}) × AgentState) × Tracker
  unfolding visa_request_checks
  handle_visa_request peer clock tr s = decided_on peer clock tr (visa_request_checks s)
