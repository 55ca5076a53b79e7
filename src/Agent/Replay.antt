-- ===== src/Agent/Replay.antt =====
-- A request whose key has a cached response gets that response, and nothing else happens.
use pact_passport.Base.{
  ◌≡◌, ◌∙◌, refl, ap, true, ℕ, ◌+◌, ◌<◌, ltb, String, some, arith, find, length,
}
use pact_passport.Json.{Value, Dict, obj}
use pact_passport.Errors.{Result, ok, raise}
use pact_passport.Platform.{Platform}
use pact_passport.Wire.{truthy}
use pact_passport.Message.{PactMessage}
use pact_passport.Agent.Deadline.{InTime, step_check_deadline-InTime}
use pact_passport.Agent.State.{
  Agent, AgentState, Env, Context, context_start, next, reply, one, after,
}
use pact_passport.Agent.Cache.{ensure_state_loaded, cache_idempotent_response}
use pact_passport.Agent.Cache.Kept.{cache_idempotent_response-Cached}
use pact_passport.Agent.Task.{check_deadline, step_idempotency_lookup, replayed}
use pact_passport.Agent.Run.{
  from_lookup, from_sender, validators, step_run_handler, handle_task, cache_response, stored,
}

module _ (p : Platform) (a : Agent) (e : Env) where
  check_deadline-passes :
      (ctx : Context) (s : AgentState)
      → InTime p a.max_deadline_seconds e.now (truthy ctx.msg.deadline)
      → check_deadline p a e ctx s ≡ (next tt, s)
  unfolding check_deadline
  check_deadline-passes ctx s h =
      rw ((step_check_deadline-InTime p a.max_deadline_seconds e.now ctx.msg).1 h) refl

  lookup-hit :
      (ctx : Context) (k : String) (v : Value) (exp : ℕ) (s : AgentState)
      → truthy ctx.msg.idempotency_key ≡ some k
      → find s.cache k ≡ some (v, exp)
      → e.now < exp
      → step_idempotency_lookup p a e ctx s ≡ (reply (replayed v), s)
  unfolding step_idempotency_lookup
  lookup-hit ctx k v exp s named hit live =
      let valid : ltb e.now exp ≡ true = ground (arith, live) in simp (named, hit, valid) refl

  pub validators-replay :
      (m : PactMessage) (k : String) (v : Value) (exp : ℕ) (s : AgentState)
      → InTime p a.max_deadline_seconds e.now (truthy m.deadline)
      → truthy m.idempotency_key ≡ some k
      → find s.cache k ≡ some (v, exp)
      → e.now < exp
      → validators p a e m s ≡ (reply (replayed v), s)
  unfolding validators
  validators-replay m k v exp s in_time named hit live =
      ap (λ r. after r (λ _. from_lookup p a e m))
        (check_deadline-passes (context_start m) s in_time)
      ∙ ap (λ r. after r (λ _. from_sender p a e m))
          (lookup-hit (context_start m) k v exp s named hit live)

  pub handle_task-replay :
      (m : PactMessage) (k : String) (v : Value) (exp : ℕ) (s : AgentState)
      → s.state_loaded ≡ true
      → InTime p a.max_deadline_seconds e.now (truthy m.deadline)
      → truthy m.idempotency_key ≡ some k
      → find s.cache k ≡ some (v, exp)
      → e.now < exp
      → handle_task p a e m s ≡ (reply (replayed v), s)
  unfolding handle_task ensure_state_loaded
  handle_task-replay m k v exp s loaded in_time named hit live =
      let same : ensure_state_loaded p e.now s ≡ s = ground (arith, loaded) in
      ap (λ t. after (validators p a e m t) (step_run_handler p a e)) same
      ∙ ap (λ r. after r (step_run_handler p a e))
          (validators-replay m k v exp s in_time named hit live)

pub stored-eq-next :
    (s t : AgentState) (r : Result AgentState) → stored s r ≡ (next tt, t) → r ≡ ok t
stored-eq-next s t (ok u) h = ground (arith, h)
stored-eq-next s t (raise err) h = cc

module _ (p : Platform) (a : Agent) (e later : Env) where
  -- When a response to a request with a key has been cached, in a cache that was not full, the next
  -- request, if it has that key and a deadline in time and comes less than ten seconds later, is answered
  -- with the same response and changes nothing. Nothing is asked of that request's sender or signature.
  pub handle_task-cache_response :
      (m m' : PactMessage) (k : String) (d : Dict) (s t : AgentState)
      → s.state_loaded ≡ true
      → truthy m.idempotency_key ≡ some k
      → length s.cache < a.idempotency_cache_max
      → cache_response p a e m d s ≡ (next tt, t)
      → truthy m'.idempotency_key ≡ some k
      → InTime p a.max_deadline_seconds later.now (truthy m'.deadline)
      → later.now < e.now + 10000000
      → handle_task p a later m' t ≡ (reply (one (obj d)), t)
  unfolding cache_response
  handle_task-cache_response m m' k d s t loaded named room cached named' in_time soon =
      let c =
        cache_idempotent_response-Cached p a e.now m k (obj d) s t named
          (stored-eq-next s t (cache_idempotent_response p a e.now m (obj d) s) cached) in
      let (exp, hit, late) = c.kept room in
      handle_task-replay p a later m' k (obj d) exp t (c.loaded ∙ loaded) in_time named' hit
        (omega (arith, late, soon))
