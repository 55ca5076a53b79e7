-- ===== src/Agent/Authorized.antt =====
-- What a task request has passed before a handler runs.
use pact_passport.Agent.Senders.{step_verify_sender-Verified, KeyOrigin}
use pact_passport.Message.Check.{verify_message}
use pact_passport.Agent.Run.{from_action, validators, from_audit}
use pact_passport.Agent.Deadline.{InTime}
use pact_passport.Agent.Capability.{step_verify_capability}
use pact_passport.Base.{ap, subst, ◌≡◌, refl, sym, ◌∙◌, true, some, arith}
use pact_passport.Json.{Dict}
use pact_passport.Platform.{Platform, Bytes}
use pact_passport.Wire.{truthy}
use pact_passport.Message.{PactMessage}
use pact_passport.Agent.State.{
  ◌>>=◌, context_start, Agent, AgentState, Env, Context, HandlerResult, next, after-eq-next,
}
use pact_passport.Agent.Task.{
  step_idempotency_lookup, check_deadline, step_verify_sender, step_audit_req, audited,
  step_resolve_action,
}
use pact_passport.Agent.Granted.{no_ablations}
use pact_passport.Agent.Passed.{
  Audited, Serves, Granted, check_deadline-eq-next, step_idempotency_lookup-counts,
  step_audit_req-Audited, step_resolve_action-Serves,
}
use pact_passport.Agent.Allowed.{step_verify_capability-Granted}

-- What holds of a request whose handler is about to run: its deadline is in time; it is signed under a
-- key that is the sender's; its audit context has passed, or it has none and the agent is not strict; the
-- capability that it names has been granted for the sender's key; and the handler is the one for the
-- action.
pub record Authorized (p : Platform) (a : Agent) (e : Env) (m : PactMessage) (s : AgentState)
    (ctx : Context) (handler : Dict → HandlerResult) (u : AgentState) : Type 0 where
  pub in_time : InTime p a.max_deadline_seconds e.now (truthy m.deadline)
  pub key : Bytes
  pub signed : verify_message p m key ≡ true
  pub origin : KeyOrigin p m s.store key
  pub audited : Audited p a e m
  pub mid : AgentState
  pub counts : mid.counts ≡ s.counts
  pub capabilities : mid.store.capabilities ≡ s.store.capabilities
  pub granted : Granted p a e (record (context_start m) { sender_pub = some key }) key ctx mid u
  pub serves : Serves p a e ctx handler

module _ (p : Platform) (a : Agent) (e : Env) (off : a.ablations ≡ no_ablations) where
  from_action-Serves :
      (ctx : Context) (s : AgentState) {r : Context × (Dict → HandlerResult)} {u : AgentState}
      → from_action p a e ctx s ≡ (next r, u)
      → (ctx ≡ r.0) × Serves p a e r.0 r.1 × (s ≡ u)
  from_action-Serves ctx s {r} {u} h =
      let (handler, s1, first, h1) = after-eq-next (step_resolve_action p a e ctx s) _ h in
      let (serves, stays) = step_resolve_action-Serves p a e ctx s first in
      let same : (ctx, handler) ≡ r = ground (arith, h1) in
      let after : s1 ≡ u = ground (arith, h1) in
      (
        ap (λ x. x.0) same,
        subst (λ (x : Context × (Dict → HandlerResult)). Serves p a e x.0 x.1) same serves,
        stays ∙ after,
      )

  from_capability :
      (ctx : Context) (key : Bytes) (s : AgentState) {r : Context × (Dict → HandlerResult)}
      {u : AgentState}
      → ctx.sender_pub ≡ some key
      → (step_verify_capability p a e ctx >>= from_action p a e) s ≡ (next r, u)
      → Granted p a e ctx key r.0 s u × Serves p a e r.0 r.1
  from_capability ctx key s {r} {u} sender h =
      let (ctx', s1, first, h1) = after-eq-next (step_verify_capability p a e ctx s) _ h in
      let (same, serves, stays) = from_action-Serves ctx' s1 h1 in
      let granted = step_verify_capability-Granted p a e ctx s off key sender first in
      (
        subst (λ x. Granted p a e ctx key r.0 s x) stays
            (subst (λ x. Granted p a e ctx key x s s1) same granted),
        serves,
      )

  -- The part after the sender has been verified.
  from_audit-eq-next :
      (ctx : Context) (key : Bytes) (s : AgentState) {r : Context × (Dict → HandlerResult)}
      {u : AgentState}
      → ctx.sender_pub ≡ some key
      → from_audit p a e ctx s ≡ (next r, u)
      → Audited p a e ctx.msg × Granted p a e ctx key r.0 s u × Serves p a e r.0 r.1
  from_audit-eq-next ctx key s {r} {u} sender h =
      let (_, s1, first, h1) = after-eq-next (step_audit_req p a e ctx s) _ h in
      let (audited, same) = step_audit_req-Audited p a e ctx s first in
      let (granted, serves) = from_capability ctx key s1 sender h1 in
      (audited, subst (λ x. Granted p a e ctx key r.0 x u) (sym same) granted, serves)

  from_sender :
      (m : PactMessage) (s : AgentState) {r : Context × (Dict → HandlerResult)} {u : AgentState}
      → InTime p a.max_deadline_seconds e.now (truthy m.deadline)
      → (step_verify_sender p a e (context_start m) >>= from_audit p a e) s ≡ (next r, u)
      → Authorized p a e m s r.0 r.1 u
  from_sender m s {r} {u} in_time h =
      let (ctx, s1, first, h1) = after-eq-next (step_verify_sender p a e (context_start m) s) _ h in
      let v = step_verify_sender-Verified p a e (context_start m) s first in
      let h2 = subst (λ x. from_audit p a e x s1 ≡ (next r, u)) v.sender h1 in
      let (audited, granted, serves) =
        from_audit-eq-next (record (context_start m) { sender_pub = some v.key }) v.key s1 refl
          h2 in
      record {
        in_time = in_time;
        key = v.key;
        signed = v.signed;
        origin = v.origin;
        audited = audited;
        mid = s1;
        counts = v.frame.1;
        capabilities = v.frame.2;
        granted = granted;
        serves = serves;
      }

  moved :
      (m : PactMessage) (s t : AgentState) {ctx : Context} {handler : Dict → HandlerResult}
      {u : AgentState}
      → t.counts ≡ s.counts
      → t.store ≡ s.store
      → Authorized p a e m t ctx handler u
      → Authorized p a e m s ctx handler u
  moved m s t counts store v = record {
    in_time = v.in_time;
    key = v.key;
    signed = v.signed;
    origin = subst (λ x. KeyOrigin p m x v.key) store v.origin;
    audited = v.audited;
    mid = v.mid;
    counts = v.counts ∙ counts;
    capabilities = v.capabilities ∙ ap (λ x. x.capabilities) store;
    granted = v.granted;
    serves = v.serves;
  }

  -- With the experimental switches off, a handler runs for a task request only if its deadline is in
  -- time, it is signed under a key that is the sender's, its audit context, if it has one, has passed (a
  -- request without one gets through only if the agent is not strict), and the capability that it names,
  -- if it names one (the stored one, or else one of that identifier that it carries), is this agent's
  -- own, accepted for the sender, shown by the sender's proof and below its limit, which is then counted;
  -- the handler is the one for the capability's action, or for the action that the payload names.
  pub validators-Authorized :
      (m : PactMessage) (s : AgentState) {ctx : Context} {handler : Dict → HandlerResult}
      {u : AgentState}
      → validators p a e m s ≡ (next (ctx, handler), u)
      → Authorized p a e m s ctx handler u
  unfolding validators
  validators-Authorized m s {ctx} {handler} {u} h =
      let (_, s1, first, h1) = after-eq-next (check_deadline p a e (context_start m) s) _ h in
      let (in_time, same) = check_deadline-eq-next p a e (context_start m) s first in
      let (_, s2, second, h2) =
        after-eq-next (step_idempotency_lookup p a e (context_start m) s1) _ h1 in
      let (counts, store) = step_idempotency_lookup-counts p a e (context_start m) s1 second in
      subst (λ x. Authorized p a e m x ctx handler u) (sym same)
        (moved m s1 s2 counts store (from_sender m s2 in_time h2))
