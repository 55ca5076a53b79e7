-- ===== src/Agent/Capability.antt =====
-- _step_verify_capability of agent.py: the capability that a request names, whether it holds for the sender,
-- the proof that the sender holds it, and the count of its invocations.
use pact_passport.Base.{
  ℕ, ◌+◌, ℤ, pos, leb_ℤ, Bool, true, false, String, Option, none, some, List, [], ◌∷◌, ◌==◌,
  string_eq, if◌then◌else◌, find, put,
}
use pact_passport.Json.{Value, Dict, null, bool, int, get}
use pact_passport.Errors.{Result, ok, raise, type_error}
use pact_passport.Platform.{Platform, Bytes}
use pact_passport.Wire.{truthy}
use pact_passport.Capability.{Caveat, CapabilityToken}
use pact_passport.Capability.Dicts.{token_from_dict}
use pact_passport.Capability.Verify.{CapabilityResult, verify_capability}
use pact_passport.Message.Build.{equals_text}
use pact_passport.Message.Check.{verify_holder_proof}
use pact_passport.Visa.{verify_visa_holder_proof}
use pact_passport.Store.{load_capability, save_capability, save_invocation_counts}
use pact_passport.Agent.State.{
  Agent, AgentState, Env, Context, Step, save, or_fail, pure, ◌>>=◌, ◌>>◌,
}
use pact_passport.Agent.Peers.{filled, build_known_keys_for_chain}
use pact_passport.Agent.Answers.{dispatch_err}

-- The values of the max_invocations caveats: the least, or None. The comparison with the count raises
-- TypeError on a value that is no number, but for a single None, which sets no limit.
abbrev pub as_int : Value → Result ℤ
as_int (int n) = ok n
as_int (bool true) = ok (pos 1)
as_int (bool false) = ok (pos 0)
as_int v = raise type_error

unfoldable pub max_invocations_values : List Caveat → List Value
max_invocations_values [] = []
max_invocations_values (c ∷ cs) =
    let rest = max_invocations_values cs in
    if c.restrict == "max_invocations" then c.value ∷ rest else rest

abbrev pub min_ℤ : ℤ → ℤ → ℤ
min_ℤ m n = if leb_ℤ m n then m else n

abbrev pub or_raised {ℓ κ} : {A : Type ℓ} {B : Type κ} → Result A → (A → Result B) → Result B
or_raised (ok a) f = f a
or_raised (raise e) f = raise e

unfoldable pub least : ℤ → List Value → Result (Option ℤ)
least n [] = ok (some n)
least n (v ∷ vs) = let rest = λ (m : ℤ). least (min_ℤ m n) vs in or_raised (as_int v) rest

abbrev pub limit_of : List Value → Result (Option ℤ)
limit_of [] = ok none
limit_of (null ∷ []) = ok none
limit_of (v ∷ vs) = or_raised (as_int v) (λ n. least n vs)

unfoldable pub get_max_invocations : CapabilityToken → Result (Option ℤ)
unfolding max_invocations_values least
get_max_invocations t = limit_of (max_invocations_values t.caveats)

-- counts.get(cap_id, 0)
abbrev pub or_zero : Option ℕ → ℕ
or_zero none = 0
or_zero (some n) = n

abbrev pub count_of : List (String × ℕ) → String → ℕ
count_of counts cap_id = or_zero (find counts cap_id)

module _ (p : Platform) (a : Agent) (e : Env) where
  -- The capability that the message names: the stored one, or the one that it carries.
  abbrev pub carried : Context → String → Option Dict → Step (Dict × Bool)
  carried ctx cap_id none s = dispatch_err p a e ctx "cap_unknown" s
  carried ctx cap_id (some envelope) s =
      if equals_text (get envelope "cap_id") cap_id
      then pure (envelope, true) s
      else dispatch_err p a e ctx "capability_invalid" s

  abbrev pub found_cap : Context → String → Option Dict → Step (Dict × Bool)
  found_cap ctx cap_id (some d) s = pure (d, false) s
  found_cap ctx cap_id none s = carried ctx cap_id (filled ctx.msg.cap_envelope) s

  unfoldable pub find_capability : Context → String → Step (Dict × Bool)
  find_capability ctx cap_id s = found_cap ctx cap_id (filled (load_capability cap_id s.store)) s

  abbrev pub check_valid : Context → CapabilityResult → Step (Unit {0})
  check_valid ctx r = if r.valid then pure tt else dispatch_err p a e ctx "capability_invalid"

  -- The token is this agent's, and valid for the sender.
  unfoldable pub check_token : Context → CapabilityToken → Step (Unit {0})
  check_token ctx t s =
      if t.issuer == a.agent_id
      then (or_fail (
              verify_capability p a.ablations.chain e.now t ctx.msg.from_agent (p.public_key a.key)
                (build_known_keys_for_chain p a.agent_id (p.public_key a.key) t s.store))
            >>= check_valid ctx)
          s
      else dispatch_err p a e ctx "capability_invalid" s

  abbrev pub proven_by : Option Bytes → (Bytes → Bool) → Bool
  proven_by none test = false
  proven_by (some key) test = test key

  -- On a visa the proof is over its nonce, otherwise over the message.
  abbrev pub check_visa_proof : Context → String → Option String → Step (Unit {0})
  check_visa_proof ctx proof none = dispatch_err p a e ctx "visa_invalid"
  check_visa_proof ctx proof (some nonce) =
      if a.ablations.nonce
      then pure tt
      else if proven_by ctx.sender_pub (λ key. verify_visa_holder_proof p proof nonce key true)
      then pure tt
      else dispatch_err p a e ctx "holder_proof_invalid"

  abbrev pub check_own_proof : Context → Step (Unit {0})
  check_own_proof ctx =
      if a.ablations.bind
      then pure tt
      else if proven_by ctx.sender_pub (λ key. verify_holder_proof p ctx.msg key true)
      then pure tt
      else dispatch_err p a e ctx "holder_proof_invalid"

  abbrev pub check_presented : Context → CapabilityToken → Option String → Step (Unit {0})
  check_presented ctx t none = dispatch_err p a e ctx "holder_proof_required"
  check_presented ctx t (some proof) =
      if t.visa then check_visa_proof ctx proof (truthy t.nonce) else check_own_proof ctx

  unfoldable pub check_holder : Context → CapabilityToken → Step (Unit {0})
  check_holder ctx t = check_presented ctx t (truthy ctx.msg.holder_proof)

  -- `count >= max_inv`, and the new count
  abbrev pub counted : CapabilityToken → ℕ → AgentState → AgentState
  counted t n s = record s {
    counts = put s.counts t.cap_id (n + 1);
    store = save_invocation_counts (put s.counts t.cap_id (n + 1)) s.store;
  }

  abbrev pub limited : Context → CapabilityToken → Option ℤ → Step (Unit {0})
  limited ctx t none s = pure tt s
  limited ctx t (some limit) s =
      let n = count_of s.counts t.cap_id in
      if leb_ℤ limit (pos n)
      then dispatch_err p a e ctx "rate_limited" s
      else pure tt (counted t n s)

  unfoldable pub check_rate : Context → CapabilityToken → Step (Unit {0})
  check_rate ctx t = or_fail (get_max_invocations t) >>= limited ctx t

  abbrev pub keep_envelope : Bool → Dict → Step (Unit {0})
  keep_envelope true cap = save (save_capability cap)
  keep_envelope false cap = pure tt

  -- The token is bound to the request before its invocations are counted.
  abbrev pub hold_and_count : Context → CapabilityToken → Step Context
  hold_and_count ctx t = do
    check_holder ctx t
    check_rate (record ctx { cap_token = some t }) t
    pure (record ctx { cap_token = some t })

  abbrev pub keep_and_count : Context → Dict → Bool → CapabilityToken → Step Context
  keep_and_count ctx cap from_envelope t = do keep_envelope from_envelope cap; hold_and_count ctx t

  abbrev pub use_token : Context → Dict → Bool → CapabilityToken → Step Context
  use_token ctx cap from_envelope t = do check_token ctx t; keep_and_count ctx cap from_envelope t

  abbrev pub use_cap : Context → Dict × Bool → Step Context
  use_cap ctx (cap, from_envelope) =
      or_fail (token_from_dict cap) >>= use_token ctx cap from_envelope

  abbrev pub capability_named : Context → String → Step Context
  capability_named ctx cap_id = find_capability ctx cap_id >>= use_cap ctx

  abbrev pub capability_of : Context → Option String → Step Context
  capability_of ctx none = pure ctx
  capability_of ctx (some cap_id) = capability_named ctx cap_id

  unfoldable pub step_verify_capability : Context → Step Context
  step_verify_capability ctx = capability_of ctx (truthy ctx.msg.cap_id)
