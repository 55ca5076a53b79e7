-- ===== src/Agent/State.antt =====
-- What PACTAgent of agent.py keeps, what one request brings along, and how its steps are put together:
-- a step goes on with the next one, answers the peer, or raises, and what it wrote stays written.
use pact_passport.Base.{refl, false, ◌≡◌, ℕ, Bool, String, Option, none, List, []}
use pact_passport.Json.{Value, Items, Dict}
use pact_passport.Errors.{Error, Result, ok, raise}
use pact_passport.Platform.{Bytes}
use pact_passport.Capability.{CapabilityToken}
use pact_passport.Message.{PactMessage}
use pact_passport.Store.{Store}

-- A handler returns a value, raises HandlerFailure with a code, raises anything else, or returns a
-- generator: what it yields, and whether it raises in the end.
pub data HandlerResult : Type 0 where
  returned : Value → HandlerResult
  failed : String → HandlerResult
  crashed : HandlerResult
  generator : List Value → Bool → HandlerResult

-- The experimental switches that the dispatch reads, all off by default.
pub record Ablations : Type 0 where
  pub chain : Bool
  pub bind : Bool
  pub nonce : Bool
  pub receipt : Bool

-- What is fixed once the agent serves. Its public key is that of `key`.
pub record Agent : Type 0 where
  pub key : Bytes
  pub agent_id : String
  pub capabilities : List String
  pub handlers : String → Option (Dict → HandlerResult)
  pub max_deadline_seconds : ℕ
  pub idempotency_cache_max : ℕ
  pub audit_context_strict : Bool
  pub ablations : Ablations

-- The moment of the request, the identifiers of the messages that answer it, and the text of the detail
-- that goes with a fault code.
pub record Env : Type 0 where
  pub now : ℕ
  pub fresh : ℕ → String
  pub detail : String → String

-- The idempotency cache: the response and the moment at which it expires, by key.
abbrev pub Cache : Type 0
Cache = List (String × (Value × ℕ))

pub record AgentState : Type 0 where
  pub store : Store
  pub cache : Cache
  pub counts : List (String × ℕ)
  pub state_loaded : Bool

-- A new process over a store.
abbrev pub started : Store → AgentState
started store = record { store = store; cache = []; counts = []; state_loaded = false }

-- _DispatchCtx; the address of the peer is not read here, and the action is what its step returns.
pub record Context : Type 0 where
  pub msg : PactMessage
  pub sender_pub : Option Bytes
  pub cap_token : Option CapabilityToken

abbrev pub context_start : PactMessage → Context
context_start m = record { msg = m; sender_pub = none; cap_token = none }

-- One response, chunks that were cached, or a stream that the transport has still to draw: what the
-- handler yields, and whether it raises in the end.
pub data Reply : Type 0 where
  one : Value → Reply
  replay : Items → Reply
  stream : Context → List Value → Bool → Reply

pub data Control {ℓ} (A : Type ℓ) : Type ℓ where
  next : A → Control A
  reply : Reply → Control A
  fail : Error → Control A

abbrev pub Step {ℓ} : Type ℓ → Type ℓ
Step A = AgentState → Control A × AgentState

abbrev pub after {ℓ κ} :
    {A : Type ℓ} {B : Type κ} → Control A × AgentState → (A → Step B) → Control B × AgentState
after (next a, s) f = f a s
after (reply r, s) f = (reply r, s)
after (fail e, s) f = (fail e, s)

infixl 5 ◌>>=◌ ◌>>◌
abbrev pub ◌>>=◌ {ℓ κ} : {A : Type ℓ} {B : Type κ} → Step A → (A → Step B) → Step B
◌>>=◌ m f s = after (m s) f

abbrev pub ◌>>◌ {ℓ κ} : {A : Type ℓ} {B : Type κ} → Step A → Step B → Step B
m >> k = m >>= λ _. k

abbrev pub pure {ℓ} : {A : Type ℓ} → A → Step A
pure a s = (next a, s)

abbrev pub answer {ℓ} : {A : Type ℓ} → Reply → Step A
answer r s = (reply r, s)

abbrev pub or_fail {ℓ} : {A : Type ℓ} → Result A → Step A
or_fail (ok a) s = (next a, s)
or_fail (raise e) s = (fail e, s)

abbrev pub saved : Result Store → Step (Unit {0})
saved (ok t) s = (next tt, record s { store = t })
saved (raise e) s = (fail e, s)

abbrev pub save : (Store → Result Store) → Step (Unit {0})
save f s = saved (f s.store) s

-- The parts of a chain that went on.
pub after-eq-next {ℓ κ} :
    {A : Type ℓ} {B : Type κ} (r : Control A × AgentState) (f : A → Step B) {b : B} {u : AgentState}
    → after r f ≡ (next b, u)
    → (a : A) × (t : AgentState) × (r ≡ (next a, t)) × (f a t ≡ (next b, u))
after-eq-next (next a, t) f h = (a, t, refl, h)
after-eq-next (reply r, t) f h = cc
after-eq-next (fail e, t) f h = cc
