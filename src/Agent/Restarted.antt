-- ===== src/Agent/Restarted.antt =====
-- A cached response outlives the process (agent.py): a new one reads it back from the file.
use pact_passport.Base.{◌≡◌, ◌∙◌, ap, ◌+◌, ◌<◌, ltb, true, String, some, [], arith, find, length}
use pact_passport.Json.{Dict, obj}
use pact_passport.Platform.{Platform, IsLawful}
use pact_passport.Wire.{truthy}
use pact_passport.Message.{PactMessage}
use pact_passport.Agent.Deadline.{InTime}
use pact_passport.Agent.State.{Agent, AgentState, Env, next, reply, one, after, started}
use pact_passport.Agent.Cache.{cache_idempotent_response, ensure_state_loaded, load_entries}
use pact_passport.Agent.Cache.Kept.{cache_idempotent_response-Cached}
use pact_passport.Agent.Cache.Reloaded.{IsDict, find-load_entries}
use pact_passport.Agent.Run.{step_run_handler, handle_task, cache_response}
use pact_passport.Agent.Replay.{validators-replay, stored-eq-next}

module _ (p : Platform) (law : IsLawful p) (a : Agent) (e later : Env) where
  -- When a response to a request with a key has been cached, in a cache that was not full, a new process over
  -- the same store answers its first request, if it has that key and a deadline in time and comes less than
  -- ten seconds later, with the same response: the handler does not run again after a restart. (No key
  -- stands twice in the cache, which is a dict.)
  pub handle_task-started :
      (m m' : PactMessage) (k : String) (d : Dict) (s t : AgentState)
      → truthy m.idempotency_key ≡ some k
      → length s.cache < a.idempotency_cache_max
      → cache_response p a e m d s ≡ (next tt, t)
      → IsDict t.cache
      → truthy m'.idempotency_key ≡ some k
      → InTime p a.max_deadline_seconds later.now (truthy m'.deadline)
      → later.now < e.now + 10000000
      → (handle_task p a later m' (started t.store)).0 ≡ reply (one (obj d))
  unfolding cache_response handle_task ensure_state_loaded
  handle_task-started m m' k d s t named room cached dict named' in_time soon =
      let c =
        cache_idempotent_response-Cached p a e.now m k (obj d) s t named
          (stored-eq-next s t (cache_idempotent_response p a e.now m (obj d) s) cached) in
      let (exp, hit, late) = c.kept room in
      let live : later.now < exp = omega (arith, late, soon) in
      let valid : ltb later.now exp ≡ true = ground (arith, live) in
      let fresh : AgentState = ensure_state_loaded p later.now (started t.store) in
      let found : find fresh.cache k ≡ some (obj d, exp) =
        ap (λ f. find (load_entries p later.now f []) k) c.disk
        ∙ find-load_entries p law later.now t.cache [] k (obj d) exp dict hit valid in
      ap (λ r. (after r (step_run_handler p a later)).0)
        (validators-replay p a later m' k (obj d) exp fresh in_time named' found live)
