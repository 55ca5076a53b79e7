-- ===== src/Agent/KeptCapability.antt =====
-- The counts through _step_verify_capability and _step_resolve_action of agent.py, whatever the outcome.
use pact_passport.Base.{
  refl, Bool, true, false, ℤ, pos, leb_ℤ, String, Option, none, some, if◌then◌else◌, ◌==◌,
  string_eq,
}
use pact_passport.Json.{Dict, get}
use pact_passport.Platform.{Platform}
use pact_passport.Wire.{truthy}
use pact_passport.Capability.{CapabilityToken}
use pact_passport.Capability.Dicts.{token_from_dict}
use pact_passport.Message.Build.{equals_text}
use pact_passport.Store.{save_invocation_counts}
use pact_passport.Agent.State.{Agent, AgentState, Env, Context, HandlerResult, pure, or_fail}
use pact_passport.Agent.Peers.{filled}
use pact_passport.Agent.Answers.{dispatch_err}
use pact_passport.Agent.Capability.{
  found_cap, carried, find_capability, check_valid, check_token, check_visa_proof, check_own_proof,
  check_presented, check_holder, limited, counted, count_of, check_rate, get_max_invocations,
  keep_envelope, capability_of, step_verify_capability, use_token, use_cap, hold_and_count,
}
use pact_passport.Agent.Task.{served, handler_for, action_in, step_resolve_action}
use pact_passport.Agent.Tracks.{
  choose-Tracks, Tracks, Tracks-refl, after-Tracks, if-Tracks, or_fail-Tracks, dispatch_err-Tracks,
  save_capability-Tracks, counted-le,
}

module _ (p : Platform) (a : Agent) (e : Env) where
  carried-Tracks :
      (ctx : Context) (cap_id : String) (o : Option Dict) (s : AgentState)
      → Tracks s (carried p a e ctx cap_id o s).1
  carried-Tracks ctx cap_id none s = dispatch_err-Tracks p a e (Dict × Bool) ctx "cap_unknown" s
  carried-Tracks ctx cap_id (some envelope) s =
      if-Tracks (equals_text (get envelope "cap_id") cap_id) s _ _ (Tracks-refl s)
        (dispatch_err-Tracks p a e (Dict × Bool) ctx "capability_invalid" s)

  found_cap-Tracks :
      (ctx : Context) (cap_id : String) (o : Option Dict) (s : AgentState)
      → Tracks s (found_cap p a e ctx cap_id o s).1
  found_cap-Tracks ctx cap_id (some d) s = Tracks-refl s
  found_cap-Tracks ctx cap_id none s = carried-Tracks ctx cap_id (filled ctx.msg.cap_envelope) s

  find_capability-Tracks :
      (ctx : Context) (cap_id : String) (s : AgentState)
      → Tracks s (find_capability p a e ctx cap_id s).1
  unfolding find_capability
  find_capability-Tracks ctx cap_id s = found_cap-Tracks ctx cap_id _ s

  refuse_or_pass :
      (ctx : Context) (code : String) (b : Bool) (s : AgentState)
      → Tracks s ((if b then pure tt else dispatch_err p a e {A = Unit {0}} ctx code) s).1
  refuse_or_pass ctx code b s =
      choose-Tracks b (pure tt) (dispatch_err p a e ctx code) s (Tracks-refl s)
        (dispatch_err-Tracks p a e (Unit {0}) ctx code s)

  check_token-Tracks :
      (ctx : Context) (t : CapabilityToken) (s : AgentState)
      → Tracks s (check_token p a e ctx t s).1
  unfolding check_token
  check_token-Tracks ctx t s =
      if-Tracks (t.issuer == a.agent_id) s _ _
        (after-Tracks s (or_fail _ s) (check_valid p a e ctx) (or_fail-Tracks _ s)
          (λ r u. refuse_or_pass ctx "capability_invalid" r.valid u))
        (dispatch_err-Tracks p a e (Unit {0}) ctx "capability_invalid" s)

  switched :
      (ctx : Context) (switch test : Bool) (s : AgentState)
      → Tracks s
          ((if switch
              then pure tt
              else if test
              then pure tt
              else dispatch_err p a e {A = Unit {0}} ctx "holder_proof_invalid")
            s).1
  switched ctx switch test s =
      choose-Tracks switch (pure tt)
        (if test then pure tt else dispatch_err p a e ctx "holder_proof_invalid") s (Tracks-refl s)
        (refuse_or_pass ctx "holder_proof_invalid" test s)

  check_visa_proof-Tracks :
      (ctx : Context) (proof : String) (o : Option String) (s : AgentState)
      → Tracks s (check_visa_proof p a e ctx proof o s).1
  check_visa_proof-Tracks ctx proof none s =
      dispatch_err-Tracks p a e (Unit {0}) ctx "visa_invalid" s
  check_visa_proof-Tracks ctx proof (some nonce) s = switched ctx a.ablations.nonce _ s

  check_presented-Tracks :
      (ctx : Context) (t : CapabilityToken) (o : Option String) (s : AgentState)
      → Tracks s (check_presented p a e ctx t o s).1
  check_presented-Tracks ctx t none s =
      dispatch_err-Tracks p a e (Unit {0}) ctx "holder_proof_required" s
  check_presented-Tracks ctx t (some proof) s =
      choose-Tracks t.visa (check_visa_proof p a e ctx proof (truthy t.nonce))
        (check_own_proof p a e ctx) s (check_visa_proof-Tracks ctx proof (truthy t.nonce) s)
        (switched ctx a.ablations.bind _ s)

  check_holder-Tracks :
      (ctx : Context) (t : CapabilityToken) (s : AgentState)
      → Tracks s (check_holder p a e ctx t s).1
  unfolding check_holder
  check_holder-Tracks ctx t s = check_presented-Tracks ctx t (truthy ctx.msg.holder_proof) s

  counted-Tracks :
      (t : CapabilityToken) (s : AgentState)
      → Tracks s (counted p a e t (count_of s.counts t.cap_id) s)
  unfolding save_invocation_counts
  counted-Tracks t s = record {
    grows = λ c. counted-le s.counts t.cap_id c;
    synced = λ i. record { loaded = i.loaded; disk = refl };
  }

  limited-Tracks :
      (ctx : Context) (t : CapabilityToken) (o : Option ℤ) (s : AgentState)
      → Tracks s (limited p a e ctx t o s).1
  limited-Tracks ctx t none s = Tracks-refl s
  limited-Tracks ctx t (some limit) s =
      if-Tracks (leb_ℤ limit (pos (count_of s.counts t.cap_id))) s _ _
        (dispatch_err-Tracks p a e (Unit {0}) ctx "rate_limited" s) (counted-Tracks t s)

  check_rate-Tracks :
      (ctx : Context) (t : CapabilityToken) (s : AgentState) → Tracks s (check_rate p a e ctx t s).1
  unfolding check_rate
  check_rate-Tracks ctx t s =
      after-Tracks s (or_fail (get_max_invocations t) s) (limited p a e ctx t) (or_fail-Tracks _ s)
        (λ o u. limited-Tracks ctx t o u)

  hold_and_count-Tracks :
      (ctx : Context) (t : CapabilityToken) (s : AgentState)
      → Tracks s (hold_and_count p a e ctx t s).1
  hold_and_count-Tracks ctx t s =
      after-Tracks s (check_holder p a e ctx t s) _ (check_holder-Tracks ctx t s) (λ _ u.
        after-Tracks u (check_rate p a e (record ctx { cap_token = some t }) t u) _
          (check_rate-Tracks (record ctx { cap_token = some t }) t u) (λ _ v. Tracks-refl v))

  keep_envelope-Tracks :
      (b : Bool) (cap : Dict) (s : AgentState) → Tracks s (keep_envelope p a e b cap s).1
  keep_envelope-Tracks true cap s = save_capability-Tracks p a e cap s
  keep_envelope-Tracks false cap s = Tracks-refl s

  use_token-Tracks :
      (ctx : Context) (cap : Dict) (b : Bool) (t : CapabilityToken) (s : AgentState)
      → Tracks s (use_token p a e ctx cap b t s).1
  use_token-Tracks ctx cap b t s =
      after-Tracks s (check_token p a e ctx t s) _ (check_token-Tracks ctx t s) (λ _ u.
        after-Tracks u (keep_envelope p a e b cap u) _ (keep_envelope-Tracks b cap u)
          (λ _ v. hold_and_count-Tracks ctx t v))

  use_cap-Tracks :
      (ctx : Context) (r : Dict × Bool) (s : AgentState) → Tracks s (use_cap p a e ctx r s).1
  use_cap-Tracks ctx r s =
      after-Tracks s (or_fail (token_from_dict r.0) s) _ (or_fail-Tracks _ s)
        (λ t u. use_token-Tracks ctx r.0 r.1 t u)

  capability_of-Tracks :
      (ctx : Context) (o : Option String) (s : AgentState)
      → Tracks s (capability_of p a e ctx o s).1
  capability_of-Tracks ctx none s = Tracks-refl s
  capability_of-Tracks ctx (some cap_id) s =
      after-Tracks s (find_capability p a e ctx cap_id s) _ (find_capability-Tracks ctx cap_id s)
        (λ r u. use_cap-Tracks ctx r u)

  pub step_verify_capability-Tracks :
      (ctx : Context) (s : AgentState) → Tracks s (step_verify_capability p a e ctx s).1
  unfolding step_verify_capability
  step_verify_capability-Tracks ctx s = capability_of-Tracks ctx (truthy ctx.msg.cap_id) s

  served-Tracks :
      (ctx : Context) (o : Option (Dict → HandlerResult)) (s : AgentState)
      → Tracks s (served p a e ctx o s).1
  served-Tracks ctx none s = dispatch_err-Tracks p a e (Dict → HandlerResult) ctx "no_handler" s
  served-Tracks ctx (some f) s = Tracks-refl s

  handler_for-Tracks :
      (ctx : Context) (o : Option String) (s : AgentState) → Tracks s (handler_for p a e ctx o s).1
  handler_for-Tracks ctx none s =
      dispatch_err-Tracks p a e (Dict → HandlerResult) ctx "no_handler" s
  handler_for-Tracks ctx (some action) s = served-Tracks ctx (a.handlers action) s

  pub step_resolve_action-Tracks :
      (ctx : Context) (s : AgentState) → Tracks s (step_resolve_action p a e ctx s).1
  unfolding step_resolve_action
  step_resolve_action-Tracks ctx s =
      after-Tracks s (or_fail (action_in p a e ctx ctx.cap_token) s) _ (or_fail-Tracks _ s)
        (λ o u. handler_for-Tracks ctx o u)
