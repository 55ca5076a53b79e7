-- ===== src/Agent/Cache.antt =====
-- The idempotency cache of agent.py: a response is kept until its deadline, at least ten seconds, the
-- expired entries go, then those that expire first until there are no more than the agent allows.
pub mod Bound
pub mod Kept
pub mod Reloaded
use pact_passport.Base.{
  ℕ, zero, suc, ◌+◌, ◌-◌, max, leb, ltb, Bool, true, false, String, Option, none, some, List, [],
  ◌∷◌, if◌then◌else◌, find, put, remove, length,
}
use pact_passport.Json.{Value, Items, Dict, arr, str, nil, cons, end, field}
use pact_passport.Errors.{Result, ok, raise, type_error}
use pact_passport.Platform.{Platform, Datetime, aware, naive}
use pact_passport.Wire.{truthy}
use pact_passport.Message.{PactMessage}
use pact_passport.Store.{save_idempotency_cache, load_idempotency_cache, load_invocation_counts}
use pact_passport.Agent.State.{Agent, AgentState, Cache}

-- `now >= exp`
unfoldable pub evict_expired : ℕ → Cache → Cache
evict_expired now [] = []
evict_expired now ((k, (v, exp)) ∷ c) =
    let rest = evict_expired now c in if leb exp now then rest else (k, (v, exp)) ∷ rest

-- sorted(cache.items(), key=lambda kv: kv[1][1]), which is stable
unfoldable pub insert_by_expiry : String × (Value × ℕ) → Cache → Cache
insert_by_expiry e [] = e ∷ []
insert_by_expiry e (f ∷ c) = if leb e.1.1 f.1.1 then e ∷ f ∷ c else f ∷ insert_by_expiry e c

unfoldable pub sort_by_expiry : Cache → Cache
unfolding insert_by_expiry
sort_by_expiry [] = []
sort_by_expiry (e ∷ c) = insert_by_expiry e (sort_by_expiry c)

-- `for key, _ in ordered[:excess]: del cache[key]`
unfoldable pub drop_first : ℕ → Cache → Cache → Cache
drop_first zero ordered c = c
drop_first (suc n) [] c = c
drop_first (suc n) (e ∷ ordered) c = drop_first n ordered (remove c e.0)

unfoldable pub enforce_lru_cap : ℕ → Cache → Cache
unfolding drop_first sort_by_expiry length
enforce_lru_cap cache_max c =
    if leb (length c) cache_max then c else drop_first (length c - cache_max) (sort_by_expiry c) c

-- What the cache is after a response has come in.
abbrev pub cached : ℕ → ℕ → String → Value → ℕ → Cache → Cache
cached cache_max now k response exp c =
    enforce_lru_cap cache_max (evict_expired now (put c k (response, exp)))

-- The cache as it is written: [response, expires_iso] by key.
module _ (p : Platform) where
  unfoldable pub serializable : Cache → Dict
  serializable [] = end
  serializable ((k, (v, exp)) ∷ c) =
      field k (arr (cons v (cons (str (p.isoformat exp)) nil))) (serializable c)

  -- An entry that is not a pair with a moment in UTC, or has expired, is dropped.
  abbrev pub keep : ℕ → String → Value → Option Datetime → Cache → Cache
  keep now k v (some (aware t)) c = if ltb now t then put c k (v, t) else c
  keep now k v o c = c

  abbrev pub load_entry : ℕ → String → Value → Cache → Cache
  load_entry now k (arr (cons v (cons (str text) nil))) c = keep now k v (p.fromisoformat text) c
  load_entry now k v c = c

  unfoldable pub load_entries : ℕ → Dict → Cache → Cache
  load_entries now end c = c
  load_entries now (field k v d) c = load_entries now d (load_entry now k v c)

  unfoldable pub ensure_state_loaded : ℕ → AgentState → AgentState
  unfolding load_entries load_idempotency_cache load_invocation_counts
  ensure_state_loaded now s = if s.state_loaded then s else record s {
    cache = load_entries now (load_idempotency_cache s.store) [];
    counts = load_invocation_counts s.store;
    state_loaded = true;
  }

  unfoldable pub persist_idempotency : AgentState → AgentState
  unfolding serializable save_idempotency_cache
  persist_idempotency s = record s { store = save_idempotency_cache (serializable s.cache) s.store }

  -- datetime.now(UTC) + ttl: a minute, or until the deadline and at least ten seconds. The subtraction
  -- raises TypeError on a naive moment.
  abbrev pub expiry_at : ℕ → Option Datetime → Result ℕ
  expiry_at now none = ok (now + 60000000)
  expiry_at now (some (aware t)) = ok (max t (now + 10000000))
  expiry_at now (some (naive t)) = raise type_error

  abbrev pub cache_expiry : ℕ → Option String → Result ℕ
  cache_expiry now none = ok (now + 60000000)
  cache_expiry now (some text) = expiry_at now (p.fromisoformat text)

  abbrev pub cache_until : ℕ → ℕ → String → Value → AgentState → Result ℕ → Result AgentState
  cache_until cache_max now k response s (raise err) = raise err
  cache_until cache_max now k response s (ok exp) =
      ok (persist_idempotency (record s { cache = cached cache_max now k response exp s.cache }))

  abbrev pub cache_under :
      ℕ → ℕ → Option String → Option String → Value → AgentState → Result AgentState
  cache_under cache_max now none deadline response s = ok s
  cache_under cache_max now (some k) deadline response s =
      cache_until cache_max now k response s (cache_expiry now deadline)

  unfoldable pub cache_idempotent_response :
      Agent → ℕ → PactMessage → Value → AgentState → Result AgentState
  unfolding persist_idempotency enforce_lru_cap evict_expired
  cache_idempotent_response a now m response s =
      cache_under a.idempotency_cache_max now (truthy m.idempotency_key) (truthy m.deadline)
        response s
