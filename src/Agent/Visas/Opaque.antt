-- ===== src/Agent/Visas/Opaque.antt =====
-- What the peer sees of a refused visa, and what a granted one leaves (agent.py).
use pact_passport.Base.{
  ◌≡◌, ◌∙◌, refl, sym, ap, subst, ℕ, String, Option, none, some, string_eq, ◌==◌, if◌then◌else◌,
}
use pact_passport.Json.{Dict, str, obj, get}
use pact_passport.Platform.{Platform}
use pact_passport.Message.{PactMessage}
use pact_passport.Message.Dicts.{message_to_dict}
use pact_passport.Capability.{CapabilityToken}
use pact_passport.Capability.Dicts.{token_to_dict}
use pact_passport.Store.{save_message, load_capability}
use pact_passport.Store.Laws.{load_capability-save_capability, load_capability_eq}
use pact_passport.Visa.{
  Tracker, VisaDecision, visa_grant, visa_refuse, RefuseReason, recent_count,
  default_visa_rate_window, request_visa, decided,
}
use pact_passport.Agent.State.{Agent, AgentState, Env, Control, next, reply, one, save, saved}
use pact_passport.Agent.Answers.{persist_receipt}
use pact_passport.Agent.Visas.{
  Gatekeeper, VisaRequest, visa_request_checks, visa_context, refusal_res, refusal_receipt,
  build_visa_refusal, grant_res, grant_receipt, answer_grant, visa, decide_visa, conclude,
  decided_on, issued, handle_visa_request,
}
use pact_passport.Agent.Visas.Writes.{
  Writes, then-Writes, answer-Writes, save_message-Writes, persist_receipt-Writes,
}

module _ (p : Platform) (a : Agent) (e : Env) (g : Gatekeeper) (msg : PactMessage) (peer : String)
    (r : VisaRequest) where
  build_visa_refusal-Writes :
      (reason : String) (override : Option Dict) (s : AgentState)
      → Writes
          (build_visa_refusal p a e g msg peer r reason override)
          (reply (one (obj (message_to_dict (refusal_res p a e g msg peer r override)))))
          s
  unfolding build_visa_refusal
  build_visa_refusal-Writes reason override s =
      let res = refusal_res p a e g msg peer r override in
      then-Writes (save (save_message (message_to_dict msg))) _ tt _ s (save_message-Writes msg s)
        (λ t.
          then-Writes (save (save_message (message_to_dict res))) _ tt _ t
            (save_message-Writes res t)
            (λ u.
              then-Writes (persist_receipt p a e (refusal_receipt p a e g msg peer r reason)) _ tt _
                u (persist_receipt-Writes p a e _ _ _ _ _ _ _ u)
                (λ v. answer-Writes (one (obj (message_to_dict res))) v)))

  answer_grant-Writes :
      (t : CapabilityToken) (override : Option Dict) (s : AgentState)
      → Writes
          (answer_grant p a e g msg peer r t override)
          (reply (one (obj (message_to_dict (grant_res p a e g msg peer r t override)))))
          s
  unfolding answer_grant
  answer_grant-Writes t override s =
      let res = grant_res p a e g msg peer r t override in
      then-Writes (save (save_message (message_to_dict msg))) _ tt _ s (save_message-Writes msg s)
        (λ u.
          then-Writes (save (save_message (message_to_dict res))) _ tt _ u
            (save_message-Writes res u)
            (λ v.
              then-Writes (persist_receipt p a e (grant_receipt p a e g msg peer r t)) _ tt _ v
                (persist_receipt-Writes p a e _ _ _ _ _ _ _ v)
                (λ w. answer-Writes (one (obj (message_to_dict res))) w)))

  -- What a refusal comes to, once the checks have passed.
  pub handle_visa_request-refused :
      (clock : ℕ) (tr : Tracker) (s u : AgentState) (reason : RefuseReason) (override : Option Dict)
      → visa_request_checks p a e g msg s ≡ (next r, u)
      → g.policy e.now
          (visa_context p a e g msg peer r (recent_count default_visa_rate_window clock peer tr).0)
        ≡ (visa_refuse reason, override)
      → (handle_visa_request p a e g msg peer clock tr s).0.0
        ≡ reply (one (obj (message_to_dict (refusal_res p a e g msg peer r override))))
  unfolding handle_visa_request decide_visa
  handle_visa_request-refused clock tr s u reason override passed refused =
      let count = (recent_count default_visa_rate_window clock peer tr).0 in
      let counted = (recent_count default_visa_rate_window clock peer tr).1 in
      let (_, same, _) =
        build_visa_refusal-Writes (g.rationale (visa_context p a e g msg peer r count) reason)
          override u in
      ap (λ x. (decided_on p a e g msg peer clock tr x).0.0) passed
      ∙ ap (λ x. (conclude p a e g msg peer r count x clock counted u).0.0) refused
      ∙ ap (λ x. x.0) same

  -- The capabilities after the visa that a decision gives, if it gives one, has been saved.
  abbrev pub kept_visa : Option CapabilityToken → String → Option Dict → Option Dict
  kept_visa none cap_id before = before
  kept_visa (some t) cap_id before = if t.cap_id == cap_id then some (token_to_dict t) else before

  -- The step that Visa has, for this request.
  abbrev pub abstract_step : ℕ → Tracker → Option CapabilityToken × Tracker
  abstract_step clock tr =
      request_visa g.abl_rate (λ c. (g.policy e.now c).0) (visa p a e g msg peer r) r.action
        (visa_context p a e g msg peer r 0).payload_hash clock peer tr

  cap_id_of : (t : CapabilityToken) → get (token_to_dict t) "cap_id" ≡ some (str t.cap_id)
  unfolding token_to_dict get
  cap_id_of t = refl

  -- A run agrees with an abstract one on the tracker and on the capabilities.
  abbrev pub Agrees :
      (Control (Unit {0}) × AgentState) × Tracker
      → Option CapabilityToken × Tracker
      → AgentState
      → Type 0
  Agrees run x u =
      (run.1 ≡ x.1)
      × ((cap_id : String)
          → load_capability cap_id run.0.1.store
            ≡ kept_visa x.0 cap_id (load_capability cap_id u.store))

  conclude-Agrees :
      (count : ℕ) (d : VisaDecision × Option Dict) (clock : ℕ) (tr : Tracker) (u : AgentState)
      → Agrees
          (conclude p a e g msg peer r count d clock tr u)
          (decided d.0 (visa p a e g msg peer r) clock peer tr)
          u
  conclude-Agrees count (visa_refuse reason, override) clock tr u =
      let (t, same, keeps) =
        build_visa_refusal-Writes (g.rationale (visa_context p a e g msg peer r count) reason)
          override u in
      (
        refl,
        λ cap_id.
            ap (λ x. load_capability cap_id x.1.store) same
            ∙ load_capability_eq cap_id u.store t.store keeps,
      )
  conclude-Agrees count (visa_grant caveats, override) clock tr u =
      let t = visa p a e g msg peer r caveats in
      let (st, saves, loads) =
        load_capability-save_capability (token_to_dict t) t.cap_id u.store (cap_id_of t) in
      let first = ap (λ x. saved x u) saves in
      let after_save = record u { store = st } in
      let (w, same, keeps) = answer_grant-Writes t override after_save in
      (
        ap (λ x. (issued p a e g msg peer r t override clock tr x).1) first,
        λ cap_id.
            ap
              (λ x.
                load_capability cap_id (issued p a e g msg peer r t override clock tr x).0.1.store)
              first
            ∙ ap (λ x. load_capability cap_id x.1.store) same
            ∙ load_capability_eq cap_id after_save.store w.store keeps
            ∙ loads cap_id,
      )

  -- A visa request that has passed the checks takes the step of the visa model, under whatever policy: it
  -- leaves the same tracker behind, and among the capabilities only the visa that this step gives is new.
  pub handle_visa_request-request_visa :
      (clock : ℕ) (tr : Tracker) (s u : AgentState)
      → visa_request_checks p a e g msg s ≡ (next r, u)
      → Agrees (handle_visa_request p a e g msg peer clock tr s) (abstract_step clock tr) u
  unfolding handle_visa_request decide_visa request_visa
  handle_visa_request-request_visa clock tr s u passed =
      let count = (recent_count default_visa_rate_window clock peer tr).0 in
      let counted = (recent_count default_visa_rate_window clock peer tr).1 in
      subst
        (λ (x : Control VisaRequest × AgentState).
          Agrees (decided_on p a e g msg peer clock tr x) (abstract_step clock tr) u)
        (sym passed)
        (conclude-Agrees count (g.policy e.now (visa_context p a e g msg peer r count)) clock
          counted u)

module _ (p : Platform) (a : Agent) (e : Env) (msg : PactMessage) where
  -- Two gatekeepers with the same advertisement that refuse the same request, for whatever reasons, under
  -- whatever policies, from whatever networks, and whatever they keep and have counted, answer with the same response: the peer
  -- learns that it is denied, and not why.
  pub handle_visa_request-opaque :
      (g h : Gatekeeper) (peer peer' : String) (q r : VisaRequest) (clock clock' : ℕ)
      (tr tr' : Tracker) (s s' u u' : AgentState) (reason reason' : RefuseReason)
      (override : Option Dict)
      → g.advertise_protocol ≡ h.advertise_protocol
      → visa_request_checks p a e g msg s ≡ (next q, u)
      → visa_request_checks p a e h msg s' ≡ (next r, u')
      → g.policy e.now
          (visa_context p a e g msg peer q (recent_count default_visa_rate_window clock peer tr).0)
        ≡ (visa_refuse reason, override)
      → h.policy e.now (
          visa_context p a e h msg peer' r
            (recent_count default_visa_rate_window clock' peer' tr').0)
        ≡ (visa_refuse reason', override)
      → (handle_visa_request p a e g msg peer clock tr s).0.0
        ≡ (handle_visa_request p a e h msg peer' clock' tr' s').0.0
  unfolding refusal_res
  handle_visa_request-opaque g h peer peer' q r clock clock' tr tr' s s' u u' reason reason'
        override same passed passed' refused refused' =
      handle_visa_request-refused p a e g msg peer q clock tr s u reason override passed refused
      ∙ ap
          (λ x. reply (
            one (
              obj (
                message_to_dict
                  (refusal_res p a e (record g { advertise_protocol = x }) msg peer q override)))))
          same
      ∙ sym (
          handle_visa_request-refused p a e h msg peer' r clock' tr' s' u' reason' override passed'
            refused')
