-- ===== src/Agent/Granted.antt =====
-- What _step_verify_capability of agent.py has checked of a capability when it lets a request through.
use pact_passport.Agent.Answers.{dispatch_err}
use pact_passport.Base.{
  ◌∙◌, ◌≡◌, refl, sym, ap, subst, ◌⊎◌, Bool, true, false, Bool-cases, Option-cases, inl, inr,
  String, Option, none, some, arith, ◌==◌, string_eq, eq_iff, if◌then◌else◌,
}
use pact_passport.Json.{Dict, get}
use pact_passport.Errors.{
  Result, ok, value_error, type_error, key_error, index_error, overflow_error, binascii_error,
  attenuation_violation,
}
use pact_passport.Platform.{Platform, Bytes}
use pact_passport.Wire.{truthy}
use pact_passport.Capability.{CapabilityToken}
use pact_passport.Capability.Verify.{
  CapabilityResult, Check, pass, reject, raised, to_result, verify_capability,
}
use pact_passport.Capability.Verify.Steps.{accepted}
use pact_passport.Message.Build.{equals_text}
use pact_passport.Message.Check.{verify_holder_proof}
use pact_passport.Visa.{verify_visa_holder_proof}
use pact_passport.Agent.State.{
  Ablations, Agent, AgentState, Env, Context, next, after-eq-next, ◌>>=◌, pure, or_fail,
}
use pact_passport.Agent.Peers.{filled, build_known_keys_for_chain}
use pact_passport.Agent.Capability.{
  found_cap, check_valid, check_token, proven_by, check_visa_proof, check_presented,
}
use pact_passport.Agent.Refusals.{dispatch_err-IsFinal, unless_refused, or_fail-eq-next}

-- None of the experimental switches is on.
abbrev pub no_ablations : Ablations
no_ablations = record { chain = false; bind = false; nonce = false; receipt = false }

valid-accepted :
    (c : Check (Unit {0})) (r : CapabilityResult)
    → to_result c ≡ ok r
    → r.valid ≡ true
    → to_result c ≡ accepted
unfolding to_result
valid-accepted (pass u) r h v = refl
valid-accepted (reject w) r h v = ground (arith, h, v)
valid-accepted (raised binascii_error) r h v = ground (arith, h, v)
valid-accepted (raised value_error) r h v = ground (arith, h, v)
valid-accepted (raised type_error) r h v = cc
valid-accepted (raised key_error) r h v = cc
valid-accepted (raised index_error) r h v = cc
valid-accepted (raised overflow_error) r h v = cc
valid-accepted (raised attenuation_violation) r h v = cc

module _ (p : Platform) (a : Agent) (e : Env) where
  -- The capability that a message names: the one in the store, or else the one that it carries.
  abbrev pub Found : Context → String → Option Dict → Dict → Type 0
  Found ctx cap_id stored cap =
      (stored ≡ some cap)
      ⊎ ((stored ≡ none)
          × (filled ctx.msg.cap_envelope ≡ some cap)
          × (equals_text (get cap "cap_id") cap_id ≡ true))

  pub found_cap-Found :
      (ctx : Context) (cap_id : String) (o : Option Dict) (s : AgentState) {r : Dict × Bool}
      {u : AgentState}
      → found_cap p a e ctx cap_id o s ≡ (next r, u)
      → Found ctx cap_id o r.0 × (s ≡ u)
  found_cap-Found ctx cap_id (some d) s h = (inl (ground (arith, h)), ground (arith, h))
  found_cap-Found ctx cap_id none s {r} {u} h = elim (Option-cases (filled ctx.msg.cap_envelope)) [
    | inl absent ↦ absurd (dispatch_err-IsFinal p a e ctx "cap_unknown" s r u (rw absent at h))
    | inr (envelope, there) ↦
        let (names, same, stays) =
          unless_refused p a e ctx "capability_invalid" (equals_text (get envelope "cap_id") cap_id)
            (envelope, true) s s (rw there at h) in
        (
          subst (λ (x : Dict × Bool). Found ctx cap_id none x.0) same (inr (refl, there, names)),
          stays,
        )
  ]

  check_valid-eq-next :
      (ctx : Context) (r : CapabilityResult) (s : AgentState) {x : Unit {0}} {u : AgentState}
      → check_valid p a e ctx r s ≡ (next x, u)
      → (r.valid ≡ true) × (s ≡ u)
  check_valid-eq-next ctx r s {x} {u} h = elim (Bool-cases r.valid) [
    | inl valid ↦ (valid, ground (arith, valid, h))
    | inr bad ↦ absurd (dispatch_err-IsFinal p a e ctx "capability_invalid" s x u (rw bad at h))
  ]

  abbrev pub verdict_of : Context → CapabilityToken → AgentState → Result CapabilityResult
  verdict_of ctx t s =
      verify_capability p a.ablations.chain e.now t ctx.msg.from_agent (p.public_key a.key)
        (build_known_keys_for_chain p a.agent_id (p.public_key a.key) t s.store)

  verified_token :
      (ctx : Context) (t : CapabilityToken) (s : AgentState) {x : Unit {0}} {u : AgentState}
      → (or_fail (verdict_of ctx t s) >>= check_valid p a e ctx) s ≡ (next x, u)
      → (verdict_of ctx t s ≡ accepted) × (s ≡ u)
  unfolding verify_capability
  verified_token ctx t s {x} {u} h =
      let (r, s1, first, rest) =
        after-eq-next (or_fail (verdict_of ctx t s) s) (check_valid p a e ctx) h in
      let (verdict, stays) = or_fail-eq-next (verdict_of ctx t s) s first in
      let (valid, same) = check_valid-eq-next ctx r s1 rest in
      (valid-accepted _ r verdict valid, sym stays ∙ same)

  pub check_token-eq-next :
      (ctx : Context) (t : CapabilityToken) (s : AgentState) {x : Unit {0}} {u : AgentState}
      → check_token p a e ctx t s ≡ (next x, u)
      → (t.issuer ≡ a.agent_id) × (verdict_of ctx t s ≡ accepted) × (s ≡ u)
  unfolding check_token
  check_token-eq-next ctx t s {x} {u} h = elim (Bool-cases (t.issuer == a.agent_id)) [
    | inl own ↦
        let (verdict, same) = verified_token ctx t s (rw own at h) in
        ((eq_iff t.issuer a.agent_id).0 own, verdict, same)
    | inr foreign ↦
        absurd (dispatch_err-IsFinal p a e ctx "capability_invalid" s x u (rw foreign at h))
  ]

  -- What the holder has shown: on a visa a proof over its nonce, otherwise one over the message.
  pub record Shown (ctx : Context) (t : CapabilityToken) (key : Bytes) : Type 0 where
    pub proof : String
    pub presented : truthy ctx.msg.holder_proof ≡ some proof
    pub matches :
        ((t.visa ≡ false) × (verify_holder_proof p ctx.msg key true ≡ true))
        ⊎ ((t.visa ≡ true)
            × ((nonce : String) × (truthy t.nonce ≡ some nonce)
                × (verify_visa_holder_proof p proof nonce key true ≡ true)))

  -- A switch that is off, and then a test of the proof
  tested :
      (ctx : Context) (switch test : Bool) (s : AgentState) {x : Unit {0}} {u : AgentState}
      → (if switch
            then pure tt
            else if test
            then pure tt
            else dispatch_err p a e ctx "holder_proof_invalid")
          s
        ≡ (next x, u)
      → switch ≡ false
      → (test ≡ true) × (s ≡ u)
  tested ctx true test s h off = cc
  tested ctx false true s h off = (refl, ground (arith, h))
  tested ctx false false s {x} {u} h off =
      absurd (dispatch_err-IsFinal p a e ctx "holder_proof_invalid" s x u h)

  proven_under :
      (o : Option Bytes) (key : Bytes) (test : Bytes → Bool)
      → o ≡ some key
      → proven_by p a e o test ≡ true
      → test key ≡ true
  proven_under o key test sender h = subst (λ x. proven_by p a e x test ≡ true) sender h

  check_visa_proof-eq-next :
      (ctx : Context) (key : Bytes) (proof : String) (o : Option String) (s : AgentState)
      {x : Unit {0}} {u : AgentState}
      → a.ablations.nonce ≡ false
      → ctx.sender_pub ≡ some key
      → check_visa_proof p a e ctx proof o s ≡ (next x, u)
      → ((nonce : String) × (o ≡ some nonce)
          × (verify_visa_holder_proof p proof nonce key true ≡ true))
        × (s ≡ u)
  check_visa_proof-eq-next ctx key proof none s {x} {u} off sender h =
      absurd (dispatch_err-IsFinal p a e ctx "visa_invalid" s x u h)
  check_visa_proof-eq-next ctx key proof (some nonce) s off sender h =
      let (good, same) = tested ctx a.ablations.nonce _ s h off in
      ((nonce, refl, proven_under ctx.sender_pub key _ sender good), same)

  pub check_presented-Shown :
      (ctx : Context) (t : CapabilityToken) (key : Bytes) (o : Option String) (s : AgentState)
      {x : Unit {0}} {u : AgentState}
      → a.ablations ≡ no_ablations
      → ctx.sender_pub ≡ some key
      → truthy ctx.msg.holder_proof ≡ o
      → check_presented p a e ctx t o s ≡ (next x, u)
      → Shown ctx t key × (s ≡ u)
  check_presented-Shown ctx t key none s {x} {u} off sender e0 h =
      absurd (dispatch_err-IsFinal p a e ctx "holder_proof_required" s x u h)
  check_presented-Shown ctx t key (some proof) s off sender e0 h = elim (Bool-cases t.visa) [
    | inl visa ↦
        let (good, same) =
          check_visa_proof-eq-next ctx key proof (truthy t.nonce) s (ap (λ x. x.nonce) off) sender
            (simp visa at h) in
        (record { proof = proof; presented = e0; matches = inr (visa, good) }, same)
    | inr own ↦
        let (good, same) = tested ctx a.ablations.bind _ s (simp own at h) (ap (λ x. x.bind) off) in
        (
          record {
            proof = proof;
            presented = e0;
            matches = inl (own, proven_under ctx.sender_pub key _ sender good);
          },
          same,
        )
  ]
