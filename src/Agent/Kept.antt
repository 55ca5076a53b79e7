-- ===== src/Agent/Kept.antt =====
-- The counts through each step of _handle_task of agent.py, whatever its outcome.
use pact_passport.Base.{
  ◌≡◌, ◌∙◌, refl, Bool, true, false, ℕ, ltb, String, Option, none, some, List, [], ◌∷◌, string_eq,
}
use pact_passport.Json.{Value, Dict}
use pact_passport.Errors.{Result, ok, raise}
use pact_passport.Platform.{Platform, Bytes}
use pact_passport.Wire.{truthy}
use pact_passport.Message.Check.{verify_message}
use pact_passport.Store.{Store}
use pact_passport.Agent.{StepFault, step_check_deadline}
use pact_passport.Agent.State.{Agent, AgentState, Env, Context}
use pact_passport.Agent.Peers.{resolve_sender_key, maybe_refresh_peer_after_rotation}
use pact_passport.Agent.Answers.{dispatch_err}
use pact_passport.Agent.Task.{
  checked_deadline, check_deadline, fault_code, looked_up, lookup_under, step_idempotency_lookup,
  verified_sender, refreshed_sender, step_verify_sender, audited, audit_with, step_audit_req,
}
use pact_passport.Agent.Tracks.{
  Tracks, Same-Tracks, Tracks-refl, Tracks-trans, if-Tracks, dispatch_err-Tracks, sender_key-spares,
  maybe_refresh-spares,
}

module _ (p : Platform) (a : Agent) (e : Env) where
  checked_deadline-Tracks :
      (ctx : Context) (r : Result (Option StepFault)) (s : AgentState)
      → Tracks s (checked_deadline p a e ctx r s).1
  checked_deadline-Tracks ctx (raise err) s = Tracks-refl s
  checked_deadline-Tracks ctx (ok none) s = Tracks-refl s
  checked_deadline-Tracks ctx (ok (some f)) s =
      dispatch_err-Tracks p a e (Unit {0}) ctx (fault_code f) s

  looked_up-Tracks :
      (key : String) (o : Option (Value × ℕ)) (s : AgentState)
      → Tracks s (looked_up p a e key o s).1
  looked_up-Tracks key none s = Tracks-refl s
  looked_up-Tracks key (some (v, exp)) s =
      if-Tracks (ltb e.now exp) s _ _ (Tracks-refl s)
        (Same-Tracks (record { counts = refl; disk = refl; loaded = refl }))

  lookup_under-Tracks : (o : Option String) (s : AgentState) → Tracks s (lookup_under p a e o s).1
  lookup_under-Tracks none s = Tracks-refl s
  lookup_under-Tracks (some key) s = looked_up-Tracks key _ s

  -- A refusal over a store in which only peers have changed.
  refusal-Tracks {ℓ} :
      (A : Type ℓ) (ctx : Context) (code : String) (s : AgentState) (t : Store)
      → t.invocation_counts ≡ s.store.invocation_counts
      → Tracks s (dispatch_err p a e {A = A} ctx code (record s { store = t })).1
  refusal-Tracks A ctx code s t h =
      Tracks-trans {t = record s { store = t }}
        (Same-Tracks (record { counts = refl; disk = h; loaded = refl }))
        (dispatch_err-Tracks p a e A ctx code (record s { store = t }))

  refreshed_sender-Tracks :
      (ctx : Context) (r : Option Bytes × Store) (s : AgentState) (t : Store)
      → r.1.invocation_counts ≡ s.store.invocation_counts
      → Tracks s (refreshed_sender p a e ctx r (record s { store = t })).1
  refreshed_sender-Tracks ctx (none, v) s t h = refusal-Tracks Context ctx "invalid_signature" s v h
  refreshed_sender-Tracks ctx (some key, v) s t h =
      if-Tracks (verify_message p ctx.msg key) s _ _
        (Same-Tracks (record { counts = refl; disk = h; loaded = refl }))
        (refusal-Tracks Context ctx "invalid_signature" s v h)

  verified_sender-Tracks :
      (ctx : Context) (r : Option Bytes × Store) (s : AgentState)
      → r.1.invocation_counts ≡ s.store.invocation_counts
      → Tracks s (verified_sender p a e ctx r s).1
  verified_sender-Tracks ctx (none, t) s h = refusal-Tracks Context ctx "unknown_peer" s t h
  verified_sender-Tracks ctx (some key, t) s h =
      if-Tracks (verify_message p ctx.msg key) s _ _
        (Same-Tracks (record { counts = refl; disk = h; loaded = refl }))
        (refreshed_sender-Tracks ctx (maybe_refresh_peer_after_rotation p ctx.msg t) s t
          ((maybe_refresh-spares p ctx.msg t).0 ∙ h))

  audited-Tracks :
      (ctx : Context) (b : Bool) (errors : List String) (s : AgentState)
      → Tracks s (audited p a e ctx b errors s).1
  audited-Tracks ctx true errors s = Tracks-refl s
  audited-Tracks ctx false [] s = Tracks-refl s
  audited-Tracks ctx false (code ∷ errors) s = dispatch_err-Tracks p a e (Unit {0}) ctx code s

  audit_with-Tracks :
      (ctx : Context) (o : Option Dict) (s : AgentState) → Tracks s (audit_with p a e ctx o s).1
  audit_with-Tracks ctx none s =
      if-Tracks a.audit_context_strict s _ _
        (dispatch_err-Tracks p a e (Unit {0}) ctx "pact_token_malformed" s) (Tracks-refl s)
  audit_with-Tracks ctx (some c) s = audited-Tracks ctx _ _ s

  pub check_deadline-Tracks :
      (ctx : Context) (s : AgentState) → Tracks s (check_deadline p a e ctx s).1
  unfolding check_deadline
  check_deadline-Tracks ctx s =
      checked_deadline-Tracks ctx (step_check_deadline p a.max_deadline_seconds e.now ctx.msg) s

  pub step_idempotency_lookup-Tracks :
      (ctx : Context) (s : AgentState) → Tracks s (step_idempotency_lookup p a e ctx s).1
  unfolding step_idempotency_lookup
  step_idempotency_lookup-Tracks ctx s = lookup_under-Tracks (truthy ctx.msg.idempotency_key) s

  pub step_verify_sender-Tracks :
      (ctx : Context) (s : AgentState) → Tracks s (step_verify_sender p a e ctx s).1
  unfolding step_verify_sender
  step_verify_sender-Tracks ctx s =
      verified_sender-Tracks ctx _ s
        (sender_key-spares p ctx.msg (resolve_sender_key p ctx.msg.from_agent s.store) s.store).0

  pub step_audit_req-Tracks :
      (ctx : Context) (s : AgentState) → Tracks s (step_audit_req p a e ctx s).1
  unfolding step_audit_req
  step_audit_req-Tracks ctx s = audit_with-Tracks ctx ctx.msg.audit_context s
