-- ===== src/Agent/Allowed.antt =====
-- What _step_verify_capability of agent.py lets through, from the parts of its chain.
use pact_passport.Errors.{ok}
use pact_passport.Store.{save_capability, load_capability}
use pact_passport.Agent.Peers.{filled}
use pact_passport.Agent.Capability.{
  keep_and_count, use_cap, capability_of, step_verify_capability, hold_and_count, use_token,
  check_rate, check_token, find_capability, keep_envelope, check_holder,
}
use pact_passport.Base.{
  subst, ◌≡◌, refl, sym, Bool, true, false, inl, inr, String, Option, none, some, arith,
}
use pact_passport.Json.{Dict}
use pact_passport.Platform.{Platform, Bytes}
use pact_passport.Wire.{truthy}
use pact_passport.Capability.{CapabilityToken}
use pact_passport.Capability.Dicts.{token_from_dict}
use pact_passport.Agent.State.{Agent, AgentState, Env, Context, next, after-eq-next, or_fail}
use pact_passport.Agent.Refusals.{saved-frame, or_fail-eq-next}
use pact_passport.Agent.Granted.{
  check_token-eq-next, check_presented-Shown, found_cap-Found, Found, no_ablations, Shown,
}
use pact_passport.Agent.Counted.{check_rate-Counted, Counted}
use pact_passport.Agent.Passed.{GrantedBy, Granted}

module _ (p : Platform) (a : Agent) (e : Env) where
  keep_envelope-counts :
      (b : Bool) (cap : Dict) (s : AgentState) {x : Unit {0}} {u : AgentState}
      → keep_envelope p a e b cap s ≡ (next x, u)
      → u.counts ≡ s.counts
  keep_envelope-counts true cap s h = (saved-frame (save_capability cap s.store) s h).0
  keep_envelope-counts false cap s h = ground (arith, h)

  find_capability-Found :
      (ctx : Context) (cap_id : String) (s : AgentState) {r : Dict × Bool} {u : AgentState}
      → find_capability p a e ctx cap_id s ≡ (next r, u)
      → Found p a e ctx cap_id (filled (load_capability cap_id s.store)) r.0 × (s ≡ u)
  unfolding find_capability
  find_capability-Found ctx cap_id s h = found_cap-Found p a e ctx cap_id _ s h

  check_holder-Shown :
      (ctx : Context) (t : CapabilityToken) (s : AgentState) {x : Unit {0}} {u : AgentState}
      → a.ablations ≡ no_ablations
      → check_holder p a e ctx t s ≡ (next x, u)
      → ((key : Bytes) → ctx.sender_pub ≡ some key → Shown p a e ctx t key × (s ≡ u))
  unfolding check_holder
  check_holder-Shown ctx t s off h =
      λ key sender. check_presented-Shown p a e ctx t key _ s off sender refl h

  hold_and_count-eq-next :
      (ctx : Context) (t : CapabilityToken) (s : AgentState) {ctx' : Context} {u : AgentState}
      → a.ablations ≡ no_ablations
      → (key : Bytes) → ctx.sender_pub ≡ some key
      → hold_and_count p a e ctx t s ≡ (next ctx', u)
      → (record ctx { cap_token = some t } ≡ ctx')
        × Shown p a e ctx t key
        × Counted p a e t s.counts u.counts
  hold_and_count-eq-next ctx t s {ctx'} {u} off key sender h =
      let (_, s1, first, h1) = after-eq-next (check_holder p a e ctx t s) _ h in
      let (_, s2, second, h2) =
        after-eq-next (check_rate p a e (record ctx { cap_token = some t }) t s1) _ h1 in
      let (shown, same) = check_holder-Shown ctx t s off first key sender in
      let after : s2 ≡ u = ground (arith, h2) in
      let counted = check_rate-Counted p a e (record ctx { cap_token = some t }) t s1 second in
      (
        ground (arith, h2),
        shown,
        subst (λ (x : AgentState). Counted p a e t x.counts u.counts) (sym same)
            (subst (λ (x : AgentState). Counted p a e t s1.counts x.counts) after counted),
      )

  keeps_count :
      (ctx : Context) (b : Bool) (cap : Dict) (t : CapabilityToken) (s : AgentState)
      {ctx' : Context} {u : AgentState}
      → a.ablations ≡ no_ablations
      → (key : Bytes) → ctx.sender_pub ≡ some key
      → keep_and_count p a e ctx cap b t s ≡ (next ctx', u)
      → (record ctx { cap_token = some t } ≡ ctx')
        × Shown p a e ctx t key
        × Counted p a e t s.counts u.counts
  keeps_count ctx b cap t s {ctx'} {u} off key sender h =
      let (_, s1, first, h1) = after-eq-next (keep_envelope p a e b cap s) _ h in
      let (same, shown, counted) = hold_and_count-eq-next ctx t s1 off key sender h1 in
      (
        same,
        shown,
        subst (λ x. Counted p a e t x u.counts) (keep_envelope-counts b cap s first) counted,
      )

  use_token-GrantedBy :
      (ctx : Context) (b : Bool) (cap : Dict) (t : CapabilityToken) (s : AgentState)
      {ctx' : Context} {u : AgentState}
      → a.ablations ≡ no_ablations
      → (key : Bytes) → ctx.sender_pub ≡ some key
      → use_token p a e ctx cap b t s ≡ (next ctx', u)
      → (ctx' ≡ record ctx { cap_token = some t }) × GrantedBy p a e ctx t key s u
  use_token-GrantedBy ctx b cap t s {ctx'} {u} off key sender h =
      let (_, s1, first, h1) = after-eq-next (check_token p a e ctx t s) _ h in
      let (own, valid, stays) = check_token-eq-next p a e ctx t s first in
      let (same, shown, counted) = keeps_count ctx b cap t s1 off key sender h1 in
      (
        sym same,
        record {
          own = own;
          valid = valid;
          shown = shown;
          rate = subst (λ (x : AgentState). Counted p a e t x.counts u.counts) (sym stays) counted;
        },
      )

  use_cap-GrantedBy :
      (ctx : Context) (r : Dict × Bool) (s : AgentState) {ctx' : Context} {u : AgentState}
      → a.ablations ≡ no_ablations
      → (key : Bytes) → ctx.sender_pub ≡ some key
      → use_cap p a e ctx r s ≡ (next ctx', u)
      → (t : CapabilityToken) × (token_from_dict r.0 ≡ ok t)
        × (ctx' ≡ record ctx { cap_token = some t })
        × GrantedBy p a e ctx t key s u
  use_cap-GrantedBy ctx r s {ctx'} {u} off key sender h =
      let (t, s1, first, h1) = after-eq-next (or_fail (token_from_dict r.0) s) _ h in
      let (read, stays) = or_fail-eq-next (token_from_dict r.0) s first in
      let (context, granted) = use_token-GrantedBy ctx r.1 r.0 t s1 off key sender h1 in
      (t, read, context, subst (λ x. GrantedBy p a e ctx t key x u) stays granted)

  capability_of-Granted :
      (ctx : Context) (o : Option String) (s : AgentState) {ctx' : Context} {u : AgentState}
      → a.ablations ≡ no_ablations
      → (key : Bytes) → ctx.sender_pub ≡ some key
      → truthy ctx.msg.cap_id ≡ o
      → capability_of p a e ctx o s ≡ (next ctx', u)
      → Granted p a e ctx key ctx' s u
  capability_of-Granted ctx none s off key sender e0 h =
      inl (e0, ground (arith, h), ground (arith, h))
  capability_of-Granted ctx (some cap_id) s {ctx'} {u} off key sender e0 h =
      let (r, s1, first, h1) = after-eq-next (find_capability p a e ctx cap_id s) _ h in
      let (found, stays) = find_capability-Found ctx cap_id s first in
      let (t, read, context, granted) = use_cap-GrantedBy ctx r s1 off key sender h1 in
      inr (
        cap_id,
        r.0,
        t,
        e0,
        found,
        read,
        context,
        subst (λ x. GrantedBy p a e ctx t key x u) (sym stays) granted,
      )

  pub step_verify_capability-Granted :
      (ctx : Context) (s : AgentState) {ctx' : Context} {u : AgentState}
      → a.ablations ≡ no_ablations
      → (key : Bytes) → ctx.sender_pub ≡ some key
      → step_verify_capability p a e ctx s ≡ (next ctx', u)
      → Granted p a e ctx key ctx' s u
  unfolding step_verify_capability
  step_verify_capability-Granted ctx s off key sender h =
      capability_of-Granted ctx (truthy ctx.msg.cap_id) s off key sender refl h
