-- ===== src/Agent/Run.antt =====
-- _handle_task of agent.py as a whole: the steps, then the run of the handler and what is kept of it.
use pact_passport.Base.{none, some, [], ◌∷◌}
use pact_passport.Json.{end, Value, Dict, obj}
use pact_passport.Errors.{Result, ok, raise}
use pact_passport.Platform.{Platform}
use pact_passport.Message.{PactMessage}
use pact_passport.Message.Dicts.{message_to_dict}
use pact_passport.Message.Build.{build_res}
use pact_passport.Receipt.{create_receipt}
use pact_passport.Store.{save_message}
use pact_passport.Agent.State.{
  Control, Agent, AgentState, Env, Context, context_start, HandlerResult, returned, failed, crashed,
  generator, one, stream, Step, next, fail, answer, save, ◌>>=◌, ◌>>◌, pure,
}
use pact_passport.Agent.Cache.{ensure_state_loaded, cache_idempotent_response}
use pact_passport.Agent.Answers.{dispatch_err, persist_receipt, visa_extra}
use pact_passport.Agent.Capability.{step_verify_capability}
use pact_passport.Agent.Task.{
  as_payload, check_deadline, step_idempotency_lookup, step_verify_sender, step_audit_req,
  step_resolve_action,
}

abbrev pub stored : AgentState → Result AgentState → Control (Unit {0}) × AgentState
stored s (ok t) = (next tt, t)
stored s (raise err) = (fail err, s)

module _ (p : Platform) (a : Agent) (e : Env) where
  unfoldable pub cache_response : PactMessage → Dict → Step (Unit {0})
  cache_response m d s = stored s (cache_idempotent_response p a e.now m (obj d) s)

  abbrev pub task_res : Context → Value → PactMessage
  task_res ctx v = build_res p (e.fresh 0) a.key a.agent_id ctx.msg (some (as_payload v)) "ok" none

  abbrev pub task_receipt : Context → Dict
  task_receipt ctx =
      create_receipt p e.now a.key a.agent_id ctx.msg.id (ctx.msg.id ∷ e.fresh 0 ∷ []) "completed"
        (visa_extra ctx.cap_token end)

  abbrev pub finish : Context → HandlerResult → Step (Unit {0})
  finish ctx (failed code) = dispatch_err p a e ctx code
  finish ctx crashed = dispatch_err p a e ctx "handler_error"
  finish ctx (generator payloads raises) = answer (stream ctx payloads raises)
  finish ctx (returned v) = do
    save (save_message (message_to_dict ctx.msg))
    save (save_message (message_to_dict (task_res ctx v)))
    persist_receipt p a e (task_receipt ctx)
    cache_response ctx.msg (message_to_dict (task_res ctx v))
    answer (one (obj (message_to_dict (task_res ctx v))))

  unfoldable pub step_run_handler : Context × (Dict → HandlerResult) → Step (Unit {0})
  step_run_handler (ctx, handler) = finish ctx (handler ctx.msg.payload)

  -- The steps before the handler runs, from the last to the first.
  abbrev pub from_action : Context → Step (Context × (Dict → HandlerResult))
  from_action ctx = do handler ← step_resolve_action p a e ctx; pure (ctx, handler)

  abbrev pub from_audit : Context → Step (Context × (Dict → HandlerResult))
  from_audit ctx = do
    step_audit_req p a e ctx
    ctx' ← step_verify_capability p a e ctx
    from_action ctx'

  abbrev pub from_sender : PactMessage → Step (Context × (Dict → HandlerResult))
  from_sender m = step_verify_sender p a e (context_start m) >>= from_audit

  abbrev pub from_lookup : PactMessage → Step (Context × (Dict → HandlerResult))
  from_lookup m = do step_idempotency_lookup p a e (context_start m); from_sender m

  unfoldable pub validators : PactMessage → Step (Context × (Dict → HandlerResult))
  validators m = do check_deadline p a e (context_start m); from_lookup m

  unfoldable pub handle_task : PactMessage → Step (Unit {0})
  unfolding validators step_run_handler
  handle_task m s = (validators m >>= step_run_handler) (ensure_state_loaded p e.now s)
