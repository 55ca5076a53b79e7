-- ===== src/Agent/Counted.antt =====
-- What _step_verify_capability of agent.py has counted when it lets a request through.
use pact_passport.Base.{
  ℕ, String, List, ◌≡◌, sym, ap, subst, ◌⊎◌, ◌+◌, ℤ, pos, leb_ℤ, false, Bool-cases, inl, inr,
  Option, none, some, arith, string_eq, put,
}
use pact_passport.Errors.{ok}
use pact_passport.Platform.{Platform}
use pact_passport.Capability.{CapabilityToken}
use pact_passport.Agent.State.{Agent, AgentState, Env, Context, next, after-eq-next, or_fail}
use pact_passport.Agent.Capability.{limited, count_of, check_rate, get_max_invocations}
use pact_passport.Agent.Refusals.{dispatch_err-IsFinal, or_fail-eq-next}

module _ (p : Platform) (a : Agent) (e : Env) where
  -- The count of a capability with a limit was below it, and has gone up by one.
  abbrev pub Counted : CapabilityToken → List (String × ℕ) → List (String × ℕ) → Type 0
  Counted t counts counts' =
      ((get_max_invocations t ≡ ok none) × (counts' ≡ counts))
      ⊎ ((limit : ℤ) × (get_max_invocations t ≡ ok (some limit))
          × (leb_ℤ limit (pos (count_of counts t.cap_id)) ≡ false)
          × (counts' ≡ put counts t.cap_id (count_of counts t.cap_id + 1)))

  limited-Counted :
      (ctx : Context) (t : CapabilityToken) (o : Option ℤ) (s : AgentState) {x : Unit {0}}
      {u : AgentState}
      → get_max_invocations t ≡ ok o
      → limited p a e ctx t o s ≡ (next x, u)
      → Counted t s.counts u.counts
  limited-Counted ctx t none s e0 h = inl (e0, ground (arith, h))
  limited-Counted ctx t (some limit) s {x} {u} e0 h =
      elim (Bool-cases (leb_ℤ limit (pos (count_of s.counts t.cap_id)))) [
        | inl full ↦ absurd (dispatch_err-IsFinal p a e ctx "rate_limited" s x u (simp full at h))
        | inr free ↦ inr (limit, e0, free, ap (λ r. r.1.counts) (sym (simp free at h)))
      ]

  pub check_rate-Counted :
      (ctx : Context) (t : CapabilityToken) (s : AgentState) {x : Unit {0}} {u : AgentState}
      → check_rate p a e ctx t s ≡ (next x, u)
      → Counted t s.counts u.counts
  unfolding check_rate
  check_rate-Counted ctx t s {x} {u} h =
      let (o, s1, first, rest) =
        after-eq-next (or_fail (get_max_invocations t) s) (limited p a e ctx t) h in
      let (limit, stays) = or_fail-eq-next (get_max_invocations t) s first in
      limited-Counted ctx t o s limit
        (subst (λ y. limited p a e ctx t o y ≡ (next x, u)) stays rest)
