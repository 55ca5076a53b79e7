-- ===== src/Agent/Limit.antt =====
-- The counts through the whole of _handle_task of agent.py.
use pact_passport.Agent.Task.{
  step_verify_sender, step_idempotency_lookup, check_deadline, step_resolve_action, step_audit_req,
}
use pact_passport.Base.{refl, ℕ, String, Option, none, some, string_eq}
use pact_passport.Json.{Value, Dict, obj}
use pact_passport.Errors.{Result, ok, raise}
use pact_passport.Platform.{Platform}
use pact_passport.Wire.{truthy}
use pact_passport.Message.{PactMessage}
use pact_passport.Message.Dicts.{message_to_dict}
use pact_passport.Store.{save_message, save_idempotency_cache}
use pact_passport.Agent.State.{
  after, save, Agent, AgentState, Env, Context, context_start, Control, HandlerResult, returned,
  failed, crashed, generator, next, reply, fail,
}
use pact_passport.Agent.Cache.{
  cache_until, persist_idempotency, cache_under, cache_expiry, cache_idempotent_response,
}
use pact_passport.Agent.Answers.{persist_receipt}
use pact_passport.Agent.Capability.{step_verify_capability}
use pact_passport.Agent.Run.{
  stored, cache_response, finish, step_run_handler, validators, task_res, task_receipt, from_audit,
}
use pact_passport.Agent.Tracks.{
  Tracks, Same-Tracks, Tracks-refl, after-Tracks, dispatch_err-Tracks, save_message-Tracks,
  persist_receipt-Tracks,
}
use pact_passport.Agent.Kept.{
  check_deadline-Tracks, step_idempotency_lookup-Tracks, step_verify_sender-Tracks,
  step_audit_req-Tracks,
}
use pact_passport.Agent.KeptCapability.{step_verify_capability-Tracks, step_resolve_action-Tracks}

module _ (p : Platform) (a : Agent) (e : Env) where
  pub validators-Tracks : (m : PactMessage) (s : AgentState) → Tracks s (validators p a e m s).1
  unfolding validators
  validators-Tracks m s =
      after-Tracks s (check_deadline p a e (context_start m) s) _
        (check_deadline-Tracks p a e (context_start m) s)
        (λ _ t.
          after-Tracks t (step_idempotency_lookup p a e (context_start m) t) _
            (step_idempotency_lookup-Tracks p a e (context_start m) t)
            (λ _ u.
              after-Tracks u (step_verify_sender p a e (context_start m) u) _
                (step_verify_sender-Tracks p a e (context_start m) u)
                (λ ctx v. from_audit-Tracks ctx v)))
    where
      from_audit-Tracks : (ctx : Context) (v : AgentState) → Tracks v (from_audit p a e ctx v).1
      from_audit-Tracks ctx v =
          after-Tracks v (step_audit_req p a e ctx v) _ (step_audit_req-Tracks p a e ctx v) (λ _ w.
            after-Tracks w (step_verify_capability p a e ctx w) _
              (step_verify_capability-Tracks p a e ctx w)
              (λ ctx' x.
                after-Tracks x (step_resolve_action p a e ctx' x) _
                  (step_resolve_action-Tracks p a e ctx' x) (λ _ y. Tracks-refl y)))

  stored-Tracks :
      (m : PactMessage) (k : String) (v : Value) (r : Result ℕ) (s : AgentState)
      → Tracks s (stored s (cache_until p a.idempotency_cache_max e.now k v s r)).1
  unfolding persist_idempotency save_idempotency_cache
  stored-Tracks m k v (ok exp) s =
      Same-Tracks (record { counts = refl; disk = refl; loaded = refl })
  stored-Tracks m k v (raise err) s = Tracks-refl s

  stored_under-Tracks :
      (m : PactMessage) (v : Value) (o : Option String) (s : AgentState)
      → Tracks s
          (stored s (cache_under p a.idempotency_cache_max e.now o (truthy m.deadline) v s)).1
  stored_under-Tracks m v none s = Tracks-refl s
  stored_under-Tracks m v (some k) s =
      stored-Tracks m k v (cache_expiry p e.now (truthy m.deadline)) s

  cache_response-Tracks :
      (m : PactMessage) (d : Dict) (s : AgentState) → Tracks s (cache_response p a e m d s).1
  unfolding cache_response cache_idempotent_response
  cache_response-Tracks m d s = stored_under-Tracks m (obj d) (truthy m.idempotency_key) s

  finish-Tracks :
      (ctx : Context) (r : HandlerResult) (s : AgentState) → Tracks s (finish p a e ctx r s).1
  finish-Tracks ctx (failed code) s = dispatch_err-Tracks p a e (Unit {0}) ctx code s
  finish-Tracks ctx crashed s = dispatch_err-Tracks p a e (Unit {0}) ctx "handler_error" s
  finish-Tracks ctx (generator payloads raises) s = Tracks-refl s
  finish-Tracks ctx (returned v) s =
      after-Tracks s (save (save_message (message_to_dict ctx.msg)) s) _
        (save_message-Tracks p a e (message_to_dict ctx.msg) s)
        (λ _ t.
          after-Tracks t (save (save_message (message_to_dict (task_res p a e ctx v))) t) _
            (save_message-Tracks p a e (message_to_dict (task_res p a e ctx v)) t)
            (λ _ u.
              after-Tracks u (persist_receipt p a e (task_receipt p a e ctx) u) _
                (persist_receipt-Tracks p a e (task_receipt p a e ctx) u)
                (λ _ w.
                  after-Tracks w
                    (cache_response p a e ctx.msg (message_to_dict (task_res p a e ctx v)) w) _
                    (cache_response-Tracks ctx.msg (message_to_dict (task_res p a e ctx v)) w)
                    (λ _ x. Tracks-refl x))))

  pub ran-Tracks :
      (r : Control (Context × (Dict → HandlerResult)) × AgentState)
      → Tracks r.1 (after r (step_run_handler p a e)).1
  unfolding step_run_handler
  ran-Tracks (next (ctx, handler), s) = finish-Tracks ctx (handler ctx.msg.payload) s
  ran-Tracks (reply r, s) = Tracks-refl s
  ran-Tracks (fail err, s) = Tracks-refl s
