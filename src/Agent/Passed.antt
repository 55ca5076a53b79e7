-- ===== src/Agent/Passed.antt =====
-- What each step of _handle_task of agent.py has checked when it lets a request through.
use pact_passport.Agent.Deadline.{step_check_deadline-InTime, InTime}
use pact_passport.Base.{
  ◌≡◌, refl, sym, ◌∙◌, ◌⊎◌, ℕ, Bool, true, false, Bool-cases, inl, inr, String, Option, none, some,
  List, [], ◌∷◌, arith,
}
use pact_passport.Json.{Value, Dict}
use pact_passport.Errors.{Result, ok, raise}
use pact_passport.Store.{load_capability}
use pact_passport.Agent.Peers.{filled}
use pact_passport.Platform.{Platform, Bytes}
use pact_passport.Wire.{truthy}
use pact_passport.Capability.{CapabilityToken}
use pact_passport.Capability.Dicts.{token_from_dict}
use pact_passport.Capability.Verify.Steps.{accepted}
use pact_passport.Message.{PactMessage}
use pact_passport.Audit.Requests.{audit_req}
use pact_passport.Agent.{step_check_deadline, StepFault}
use pact_passport.Agent.State.{
  Agent, AgentState, Env, Context, HandlerResult, next, after-eq-next, or_fail,
}
use pact_passport.Agent.Task.{
  check_deadline, step_audit_req, step_idempotency_lookup, served, checked_deadline, lookup_under,
  looked_up, audit_with, audited, handler_for, action_in, step_resolve_action, fault_code,
}
use pact_passport.Agent.Refusals.{dispatch_err-IsFinal, or_fail-eq-next}
use pact_passport.Agent.Granted.{Found, Shown, verdict_of}
use pact_passport.Agent.Counted.{Counted}

module _ (p : Platform) (a : Agent) (e : Env) where
  checked_deadline-eq-next :
      (ctx : Context) (r : Result (Option StepFault)) (s : AgentState) {x : Unit {0}}
      {u : AgentState}
      → checked_deadline p a e ctx r s ≡ (next x, u)
      → (r ≡ ok none) × (s ≡ u)
  checked_deadline-eq-next ctx (raise err) s h = cc
  checked_deadline-eq-next ctx (ok none) s h = (refl, ground (arith, h))
  checked_deadline-eq-next ctx (ok (some f)) s {x} {u} h =
      absurd (dispatch_err-IsFinal p a e ctx (fault_code f) s x u h)

  looked_up-counts :
      (key : String) (o : Option (Value × ℕ)) (s : AgentState) {x : Unit {0}} {u : AgentState}
      → looked_up p a e key o s ≡ (next x, u)
      → (u.counts ≡ s.counts) × (u.store ≡ s.store)
  looked_up-counts key none s h = ground (arith, h)
  looked_up-counts key (some (response, exp)) s h = ground (arith, h)

  lookup-counts :
      (o : Option String) (s : AgentState) {x : Unit {0}} {u : AgentState}
      → lookup_under p a e o s ≡ (next x, u)
      → (u.counts ≡ s.counts) × (u.store ≡ s.store)
  lookup-counts none s h = ground (arith, h)
  lookup-counts (some key) s h = looked_up-counts key _ s h

  -- The audit context is missing where it need not be there, or passes the audit.
  abbrev pub Audited : PactMessage → Type 0
  Audited m =
      ((m.audit_context ≡ none) × (a.audit_context_strict ≡ false))
      ⊎ (((audit_req p e.now m none none).passed ≡ true)
          ⊎ ((audit_req p e.now m none none).errors ≡ []))

  audited-eq-next :
      (ctx : Context) (b : Bool) (errors : List String) (s : AgentState) {x : Unit {0}}
      {u : AgentState}
      → audited p a e ctx b errors s ≡ (next x, u)
      → ((b ≡ true) ⊎ (errors ≡ [])) × (s ≡ u)
  audited-eq-next ctx true errors s h = (inl refl, ground (arith, h))
  audited-eq-next ctx false [] s h = (inr refl, ground (arith, h))
  audited-eq-next ctx false (code ∷ errors) s {x} {u} h =
      absurd (dispatch_err-IsFinal p a e ctx code s x u h)

  audit_with-Audited :
      (ctx : Context) (o : Option Dict) (s : AgentState) {x : Unit {0}} {u : AgentState}
      → ctx.msg.audit_context ≡ o
      → audit_with p a e ctx o s ≡ (next x, u)
      → Audited ctx.msg × (s ≡ u)
  audit_with-Audited ctx none s {x} {u} e0 h = elim (Bool-cases a.audit_context_strict) [
    | inl strict ↦
        absurd (dispatch_err-IsFinal p a e ctx "pact_token_malformed" s x u (simp strict at h))
    | inr lax ↦ (inl (e0, lax), ground (arith, lax, h))
  ]
  audit_with-Audited ctx (some c) s e0 h =
      let r = audit_req p e.now ctx.msg none none in
      let (sound, same) = audited-eq-next ctx r.passed r.errors s h in (inr sound, same)

  pub step_audit_req-Audited :
      (ctx : Context) (s : AgentState) {x : Unit {0}} {u : AgentState}
      → step_audit_req p a e ctx s ≡ (next x, u)
      → Audited ctx.msg × (s ≡ u)
  unfolding step_audit_req
  step_audit_req-Audited ctx s h = audit_with-Audited ctx ctx.msg.audit_context s refl h

  pub check_deadline-eq-next :
      (ctx : Context) (s : AgentState) {x : Unit {0}} {u : AgentState}
      → check_deadline p a e ctx s ≡ (next x, u)
      → InTime p a.max_deadline_seconds e.now (truthy ctx.msg.deadline) × (s ≡ u)
  unfolding check_deadline
  check_deadline-eq-next ctx s h =
      let (passed, same) =
        checked_deadline-eq-next ctx (step_check_deadline p a.max_deadline_seconds e.now ctx.msg) s
          h in
      ((step_check_deadline-InTime p a.max_deadline_seconds e.now ctx.msg).0 passed, same)

  pub step_idempotency_lookup-counts :
      (ctx : Context) (s : AgentState) {x : Unit {0}} {u : AgentState}
      → step_idempotency_lookup p a e ctx s ≡ (next x, u)
      → (u.counts ≡ s.counts) × (u.store ≡ s.store)
  unfolding step_idempotency_lookup
  step_idempotency_lookup-counts ctx s h = lookup-counts (truthy ctx.msg.idempotency_key) s h

  -- A handler for the action of the token, or for the one that the payload names.
  abbrev pub Serves : Context → (Dict → HandlerResult) → Type 0
  Serves ctx handler =
      (action : String) × (action_in p a e ctx ctx.cap_token ≡ ok (some action))
      × (a.handlers action ≡ some handler)

  served-eq-next :
      (ctx : Context) (o : Option (Dict → HandlerResult)) (s : AgentState)
      {handler : Dict → HandlerResult} {u : AgentState}
      → served p a e ctx o s ≡ (next handler, u)
      → (o ≡ some handler) × (s ≡ u)
  served-eq-next ctx none s {handler} {u} h =
      absurd (dispatch_err-IsFinal p a e ctx "no_handler" s handler u h)
  served-eq-next ctx (some f) s h = ground (arith, h)

  handler_for-Serves :
      (ctx : Context) (o : Option String) (s : AgentState) {handler : Dict → HandlerResult}
      {u : AgentState}
      → action_in p a e ctx ctx.cap_token ≡ ok o
      → handler_for p a e ctx o s ≡ (next handler, u)
      → Serves ctx handler × (s ≡ u)
  handler_for-Serves ctx none s {handler} {u} e0 h =
      absurd (dispatch_err-IsFinal p a e ctx "no_handler" s handler u h)
  handler_for-Serves ctx (some action) s e0 h =
      let (found, same) = served-eq-next ctx (a.handlers action) s h in ((action, e0, found), same)

  pub step_resolve_action-Serves :
      (ctx : Context) (s : AgentState) {handler : Dict → HandlerResult} {u : AgentState}
      → step_resolve_action p a e ctx s ≡ (next handler, u)
      → Serves ctx handler × (s ≡ u)
  unfolding step_resolve_action
  step_resolve_action-Serves ctx s h =
      let (o, s1, first, rest) =
        after-eq-next (or_fail (action_in p a e ctx ctx.cap_token) s) (handler_for p a e ctx) h in
      let (action, stays) = or_fail-eq-next (action_in p a e ctx ctx.cap_token) s first in
      let (serves, same) = handler_for-Serves ctx o s1 action rest in (serves, sym stays ∙ same)

  -- The capability under which a request runs: this agent's own, accepted for the sender by
  -- verify_capability with the keys of the peers that `s` holds, shown by its holder and counted.
  pub record GrantedBy (ctx : Context) (t : CapabilityToken) (key : Bytes) (s u : AgentState)
      : Type 0 where
    pub own : t.issuer ≡ a.agent_id
    pub valid : verdict_of p a e ctx t s ≡ accepted
    pub shown : Shown p a e ctx t key
    pub rate : Counted p a e t s.counts u.counts

  -- A request that names no capability runs without one; otherwise the one that it names is granted.
  abbrev pub Granted : Context → Bytes → Context → AgentState → AgentState → Type 0
  Granted ctx key ctx' s u =
      ((truthy ctx.msg.cap_id ≡ none) × (ctx' ≡ ctx) × (u ≡ s))
      ⊎ ((cap_id : String) × (cap : Dict) × (t : CapabilityToken) × (truthy ctx.msg.cap_id
            ≡ some cap_id)
          × Found p a e ctx cap_id (filled (load_capability cap_id s.store)) cap
          × (token_from_dict cap ≡ ok t)
          × (ctx' ≡ record ctx { cap_token = some t })
          × GrantedBy ctx t key s u)
