-- ===== src/Agent/Refusals.antt =====
-- A refusal never lets the next step run: the steps of agent.py that go on, and with what.
use pact_passport.Message.Dicts.{message_to_dict}
use pact_passport.Store.{Store, save_message}
use pact_passport.Base.{if◌then◌else◌, ◌≡◌, ◌≢◌, Bool, true, false, String, arith, string_eq}
use pact_passport.Json.{obj}
use pact_passport.Errors.{Result, ok, raise}
use pact_passport.Platform.{Platform}
use pact_passport.Agent.State.{
  saved, one, save, Agent, AgentState, Env, Context, Reply, Step, answer, next, ◌>>=◌,
  after-eq-next, or_fail,
}
use pact_passport.Agent.Answers.{error_receipt, persist_receipt, error_res, dispatch_err}

-- A step that never goes on.
abbrev pub IsFinal {ℓ} : {A : Type ℓ} → Step A → Type ℓ
IsFinal {A} m = (s : AgentState) (b : A) (u : AgentState) → m s ≢ (next b, u)

>>=-IsFinal {ℓ κ} :
    {A : Type ℓ} {B : Type κ} (m : Step A) (f : A → Step B)
    → ((x : A) → IsFinal (f x))
    → IsFinal (m >>= f)
>>=-IsFinal m f h s b u e = let (x, t, first, rest) = after-eq-next (m s) f e in h x t b u rest

answer-IsFinal {ℓ} : {A : Type ℓ} (r : Reply) → IsFinal (answer {A = A} r)
answer-IsFinal r s b u e = cc

pub or_fail-eq-next {ℓ} :
    {A : Type ℓ} (r : Result A) (s : AgentState) {x : A} {u : AgentState}
    → or_fail r s ≡ (next x, u)
    → (r ≡ ok x) × (u ≡ s)
or_fail-eq-next (ok x) s h = ground (arith, h)
or_fail-eq-next (raise err) s h = cc

pub dispatch_err-IsFinal {ℓ} :
    {A : Type ℓ} (p : Platform) (a : Agent) (e : Env) (ctx : Context) (code : String)
    → IsFinal (dispatch_err p a e {A = A} ctx code)
unfolding dispatch_err
dispatch_err-IsFinal p a e ctx code =
    >>=-IsFinal (save (save_message (message_to_dict ctx.msg))) _ (λ _.
      >>=-IsFinal (save (save_message (message_to_dict (error_res p a e ctx code)))) _ (λ _.
        >>=-IsFinal (persist_receipt p a e (error_receipt p a e ctx code)) _
          (λ _. answer-IsFinal (one (obj (message_to_dict (error_res p a e ctx code)))))))

-- `if test: return None`, and otherwise a refusal
pub unless_refused {ℓ} :
    {A : Type ℓ} (p : Platform) (a : Agent) (e : Env) (ctx : Context) (code : String) (test : Bool)
    (x : A) (s t : AgentState) {y : A} {u : AgentState}
    → (if test then (next x, s) else dispatch_err p a e ctx code t) ≡ (next y, u)
    → (test ≡ true) × (x ≡ y) × (s ≡ u)
unless_refused p a e ctx code true x s t h = ground (arith, h)
unless_refused p a e ctx code false x s t {y} {u} h =
    absurd (dispatch_err-IsFinal p a e ctx code t y u h)

-- A write to the store leaves the rest as it is.
pub saved-frame :
    (r : Result Store) (s : AgentState) {x : Unit {0}} {u : AgentState}
    → saved r s ≡ (next x, u)
    → (u.counts ≡ s.counts) × (u.cache ≡ s.cache)
saved-frame (ok t) s h = ground (arith, h)
saved-frame (raise err) s h = cc
