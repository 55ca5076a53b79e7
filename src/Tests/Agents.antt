-- ===== src/Tests/Agents.antt =====
-- The theorems on the agent at concrete requests.
use pact_passport.Capability.Verify.{verify_capability}
use pact_passport.Capability.Dicts.{links_of, caveat_from_dict, caveats_of, token_from_dict}
use pact_passport.Message.Check.{verify_holder_proof, verify_message}
use pact_passport.Agent.Peers.{build_known_keys_for_chain, resolve_sender_key}
use pact_passport.Agent.{step_check_deadline}
use pact_passport.Agent.Replay.{handle_task-cache_response}
use pact_passport.Errors.{ok}
use pact_passport.Agent.Cache.Kept.{cache_idempotent_response-Cached, Cached}
use pact_passport.Agent.Cache.{cache_idempotent_response}
use pact_passport.Agent.Authorized.{validators-Authorized, Authorized}
use pact_passport.Agent.Invocations.{runs-le, restart, request, Event, runs}
use pact_passport.Capability.{CapabilityToken}
use pact_passport.Agent.Capability.{
  get_max_invocations, check_rate, check_holder, check_token, find_capability,
  step_verify_capability,
}
use pact_passport.Agent.Task.{
  step_resolve_action, step_audit_req, step_verify_sender, step_idempotency_lookup, check_deadline,
}
use pact_passport.Base.{
  put, find, length, inl, arith, refl, none, ◌≤◌, List, ◌≡◌, Bool, true, false, String, Option,
  some, [], ◌∷◌, pos, if◌then◌else◌, ◌==◌, string_eq,
}
use pact_passport.Json.{get, Dict, str, int, obj, arr, nil, cons, end, field}
use pact_passport.Platform.{Platform, Bytes, aware}
use pact_passport.Message.{PactMessage}
use pact_passport.Store.{save_invocation_counts, load_capability, load_peer, Store, store_start}
use pact_passport.Agent.State.{
  one, reply, next, started, Agent, AgentState, Env, Context, HandlerResult, returned,
}
use pact_passport.Agent.Granted.{no_ablations}
use pact_passport.Agent.Run.{cache_response, handle_task, validators}

-- A signature is the key that made it, and a text stands for its length.
abbrev bytes_of : String → Bytes
bytes_of String.[] = []
bytes_of (String.◌∷◌ c s) = 1 ∷ bytes_of s

abbrev same : Bytes → Bytes → Bool
same [] [] = true
same (x ∷ xs) (y ∷ ys) = same xs ys
same xs ys = false

abbrev text_of : Bytes → String
text_of [] = String.[]
text_of (x ∷ xs) = String.◌∷◌ "k" (text_of xs)

abbrev pub light : Platform
light = record {
  sign = λ m k. k;
  public_key = λ k. k;
  verify = λ m s k. same s k;
  sha256_digest = λ m. "digest";
  b64encode = text_of;
  b64decode = λ s. some (bytes_of s);
  fromisoformat = λ s. some (aware 1000);
  isoformat = λ t. "then";
}

abbrev pub sum_of : Dict → HandlerResult
sum_of payload = returned (int (pos 3))

abbrev handlers : String → Option (Dict → HandlerResult)
handlers action = if action == "sum" then some sum_of else none

abbrev pub bob : Agent
bob = record {
  key = 1 ∷ [];
  agent_id = "bob";
  capabilities = "sum" ∷ [];
  handlers = handlers;
  max_deadline_seconds = 3600;
  idempotency_cache_max = 10;
  audit_context_strict = false;
  ablations = no_ablations;
}

abbrev pub env : Env
env = record { now = 5; fresh = λ n. "r1"; detail = λ code. code }

-- A capability of bob's for alice, who has the key of two bytes.
abbrev pub sum_cap : Dict
sum_cap = field "cap_id" (str "c1") (
    field "issuer" (str "bob") (
      field "holder" (str "alice") (
        field "action" (str "sum") (
          field "caveats"
            (arr (
              cons
                (obj (field "restrict" (str "max_invocations") (field "value" (int (pos 2)) end)))
                nil))
            (field "signature" (str "k") end)))))

abbrev pub store : Store
store = record store_start {
  capabilities = ("c1.json", sum_cap) ∷ [];
  peers = ("alice.json", field "public_key" (str "kk") end) ∷ [];
}

abbrev pub request_of_alice : PactMessage
request_of_alice = record {
  id = "m1";
  type = "REQ";
  from_agent = "alice";
  to_agent = "bob";
  refs = [];
  intent = "task";
  cap_id = some "c1";
  holder_proof = some "kk";
  deadline = none;
  idempotency_key = some "i1";
  payload = end;
  status = none;
  fault = none;
  stream = none;
  chunk_seq = none;
  chunk_final = none;
  identity_doc = none;
  cap_envelope = none;
  audit_context = none;
  alg = "Ed25519";
  signature = "kk";
}

abbrev pub loaded : AgentState
loaded = record { store = store; cache = []; counts = []; state_loaded = true }

-- The token that the capability is read as, and what the steps leave.
abbrev sum_token : CapabilityToken
sum_token = record {
  cap_id = "c1";
  issuer = "bob";
  holder = "alice";
  action = "sum";
  caveats = (record { restrict = "max_invocations"; value = int (pos 2); terminal = false }) ∷ [];
  parent = none;
  delegation_chain = [];
  revoked = false;
  visa = false;
  nonce = none;
  ephemeral_key_fingerprint = none;
  alg = "Ed25519";
  signature = "k";
}

abbrev pub passed : Context
passed = record {
  msg = request_of_alice;
  sender_pub = some (1 ∷ 1 ∷ []);
  cap_token = some sum_token;
}

abbrev pub counted_once : AgentState
counted_once = record {
  store = record store { invocation_counts = ("c1", 1) ∷ [] };
  cache = [];
  counts = ("c1", 1) ∷ [];
  state_loaded = true;
}

ran : validators light bob env request_of_alice loaded ≡ (next (passed, sum_of), counted_once)
unfolding validators check_deadline step_check_deadline step_idempotency_lookup find put
    resolve_sender_key load_peer get step_verify_sender verify_message step_audit_req
    find_capability load_capability token_from_dict caveats_of caveat_from_dict links_of check_token
    verify_capability build_known_keys_for_chain check_holder verify_holder_proof check_rate
    get_max_invocations save_invocation_counts step_verify_capability step_resolve_action
ran = refl

validators-Authorized_example :
    Authorized light bob env request_of_alice loaded passed sum_of counted_once
validators-Authorized_example = validators-Authorized light bob env refl request_of_alice loaded ran

-- Three requests, with a restart in between: the third is refused.
abbrev retried : String → PactMessage
retried key = record request_of_alice { idempotency_key = some key }

abbrev events : List Event
events =
    request env (retried "i1")
    ∷ restart
    ∷ request env (retried "i2")
    ∷ request env (retried "i3")
    ∷ []

runs-le_example : runs light bob "c1" 2 events (started store) ≤ 2
unfolding find
runs-le_example = runs-le light bob refl "c1" 2 events store refl

-- The response to a request is kept, and a later request with its key is answered with it.
abbrev pub response : Dict
response = field "id" (str "r1") end

abbrev answered : AgentState
answered = record loaded {
  store = record store {
    idempotency_cache = field "i1" (arr (cons (obj response) (cons (str "then") nil))) end;
  };
  cache = ("i1", (obj response, 60000005)) ∷ [];
}

caching : cache_idempotent_response light bob 5 request_of_alice (obj response) loaded ≡ ok answered
unfolding cache_idempotent_response put
caching = refl

cache_idempotent_response-Cached_example : Cached light bob 5 "i1" (obj response) loaded answered
cache_idempotent_response-Cached_example =
    cache_idempotent_response-Cached light bob 5 request_of_alice "i1" (obj response) loaded
      answered refl caching

abbrev pub later : Env
later = record { now = 9000; fresh = λ n. "r2"; detail = λ code. code }

-- From another sender, and without a signature.
abbrev pub replayed_by_mallory : PactMessage
replayed_by_mallory = record request_of_alice { from_agent = "mallory"; signature = "" }

cached_response :
    cache_response light bob env request_of_alice response loaded ≡ (next tt, answered)
unfolding cache_response cache_idempotent_response put
cached_response = refl

handle_task-cache_response_example :
    handle_task light bob later replayed_by_mallory answered
    ≡ (reply (one (obj response)), answered)
unfolding length
handle_task-cache_response_example =
    handle_task-cache_response light bob env later request_of_alice replayed_by_mallory "i1"
      response loaded answered refl refl (omega arith) cached_response refl (inl refl) (omega arith)
