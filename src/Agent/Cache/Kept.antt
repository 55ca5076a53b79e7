-- ===== src/Agent/Cache/Kept.antt =====
-- What _cache_idempotent_response of agent.py leaves in the cache and on disk.
use pact_passport.Store.{load_idempotency_cache, save_idempotency_cache}
use pact_passport.Base.{
  none, subst, find, ◌+◌, Option, some, ℕ, ◌≤◌, ◌<◌, String, ◌≡◌, refl, length, string_eq, arith,
}
use pact_passport.Json.{Value}
use pact_passport.Agent.Cache.{cached}
use pact_passport.Errors.{Result, ok, raise}
use pact_passport.Platform.{Platform, Datetime, aware, naive}
use pact_passport.Wire.{truthy}
use pact_passport.Message.{PactMessage}
use pact_passport.Agent.State.{Agent, AgentState}
use pact_passport.Agent.Cache.{
  cache_until, cache_under, cache_expiry, expiry_at, serializable, persist_idempotency,
  cache_idempotent_response,
}
use pact_passport.Agent.Cache.Bound.{
  length-enforce_lru_cap, enforce_lru_cap-Live, evict_expired-Live, Live, find-cached,
}

module _ (p : Platform) (a : Agent) where
  -- What caching a response leaves: no more entries than the agent allows, none that has expired, the
  -- same on disk, and, if the cache was not full, the response under its key, for ten seconds at least.
  pub record Cached (now : ℕ) (k : String) (response : Value) (s t : AgentState) : Type 0 where
    pub bounded : length t.cache ≤ a.idempotency_cache_max
    pub live : Live now t.cache
    pub disk : load_idempotency_cache t.store ≡ serializable p t.cache
    pub loaded : t.state_loaded ≡ s.state_loaded
    pub kept :
        length s.cache < a.idempotency_cache_max
        → (exp : ℕ) × (find t.cache k ≡ some (response, exp)) × (now + 10000000 ≤ exp)

  cache_until-Cached :
      (now : ℕ) (k : String) (response : Value) (r : Result ℕ) (s t : AgentState)
      → ((exp : ℕ) → r ≡ ok exp → now + 10000000 ≤ exp)
      → cache_until p a.idempotency_cache_max now k response s r ≡ ok t
      → Cached now k response s t
  unfolding persist_idempotency save_idempotency_cache load_idempotency_cache
  cache_until-Cached now k response (raise err) s t late h = cc
  cache_until-Cached now k response (ok exp) s t late h =
      let same : persist_idempotency p
            (record s { cache = cached a.idempotency_cache_max now k response exp s.cache })
          ≡ t =
        ground (arith, h) in
      subst (Cached now k response s) same (record {
        bounded = length-enforce_lru_cap a.idempotency_cache_max _;
        live = enforce_lru_cap-Live now a.idempotency_cache_max _ (evict_expired-Live now _);
        disk = refl;
        loaded = refl;
        kept = λ room. (
          exp,
          find-cached a.idempotency_cache_max now k response exp s.cache room
              (omega (arith, late exp refl)),
          late exp refl,
        );
      })

  expiry_at-le :
      (now : ℕ) (o : Option Datetime) (exp : ℕ) → expiry_at p now o ≡ ok exp → now + 10000000 ≤ exp
  expiry_at-le now none exp h = ground (arith, h)
  expiry_at-le now (some (aware t)) exp h = ground (arith, h)
  expiry_at-le now (some (naive t)) exp h = cc

  cache_expiry-le :
      (now : ℕ) (o : Option String) (exp : ℕ) → cache_expiry p now o ≡ ok exp → now + 10000000 ≤ exp
  cache_expiry-le now none exp h = ground (arith, h)
  cache_expiry-le now (some text) exp h = expiry_at-le now (p.fromisoformat text) exp h

  cache_under-Cached :
      (now : ℕ) (m : PactMessage) (o : Option String) (k : String) (response : Value)
      (s t : AgentState)
      → o ≡ some k
      → cache_under p a.idempotency_cache_max now o (truthy m.deadline) response s ≡ ok t
      → Cached now k response s t
  cache_under-Cached now m none k response s t e0 h = cc
  cache_under-Cached now m (some j) k response s t e0 h =
      subst (λ x. Cached now x response s t) (ground (arith, e0))
        (cache_until-Cached now j response (cache_expiry p now (truthy m.deadline)) s t
          (cache_expiry-le now (truthy m.deadline)) h)

  -- After a response has been cached under the request's key, the cache holds no more entries than the
  -- agent allows and none that has expired, the file on disk agrees with it, and if the cache was not
  -- full before then the response stands under the key and stays valid for at least ten seconds.
  pub cache_idempotent_response-Cached :
      (now : ℕ) (m : PactMessage) (k : String) (response : Value) (s t : AgentState)
      → truthy m.idempotency_key ≡ some k
      → cache_idempotent_response p a now m response s ≡ ok t
      → Cached now k response s t
  unfolding cache_idempotent_response
  cache_idempotent_response-Cached now m k response s t e0 h =
      cache_under-Cached now m (truthy m.idempotency_key) k response s t e0 h
