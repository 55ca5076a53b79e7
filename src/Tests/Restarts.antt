-- ===== src/Tests/Restarts.antt =====
-- The theorem on the cache after a restart at a concrete request.
use pact_passport.Base.{◌≡◌, refl, inl, arith, length, put, find}
use pact_passport.Json.{obj}
use pact_passport.Agent.State.{AgentState, next, reply, one, started}
use pact_passport.Agent.Cache.{cache_idempotent_response}
use pact_passport.Agent.Run.{handle_task, cache_response}
use pact_passport.Agent.Restarted.{handle_task-started}
use pact_passport.Tests.Toy.{toy, toy-IsLawful}
use pact_passport.Tests.Agents.{
  bob, env, later, loaded, response, request_of_alice, replayed_by_mallory,
}

abbrev kept : AgentState
kept = (cache_response toy bob env request_of_alice response loaded).1

keeping : cache_response toy bob env request_of_alice response loaded ≡ (next tt, kept)
unfolding cache_response cache_idempotent_response
keeping = refl

handle_task-started_example :
    (handle_task toy bob later replayed_by_mallory (started kept.store)).0
    ≡ reply (one (obj response))
unfolding length cache_response cache_idempotent_response put find
handle_task-started_example =
    handle_task-started toy toy-IsLawful bob env later request_of_alice replayed_by_mallory "i1"
      response loaded kept refl (omega arith) keeping (refl, tt) refl (inl refl) (omega arith)
