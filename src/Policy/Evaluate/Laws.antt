-- ===== src/Policy/Evaluate/Laws.antt =====
-- The fault codes that caveats are refused with, and the handlers that allowed caveats have.
use pact_passport.Base.{
  if◌then◌else◌, subst, ◌≡◌, ◌⊎◌, ◌↔◌, inl, inr, refl, ℕ, Bool, true, false, String, Option, none,
  some, List, [], ◌∷◌, arith, ◌==◌, string_eq,
}
use pact_passport.Json.{null, bool, int, arr, obj, Value, Dict, str, get}
use pact_passport.Errors.{key_error, Error, Result, ok, raise}
use pact_passport.Errors.Faults.{
  pact_scope_insufficient, pact_budget_exceeded, pact_depth_exceeded, pact_token_expired,
}
use pact_passport.Platform.{Platform}
use pact_passport.Policy.{
  PolicyProfile, simple, standard, advanced, PolicyState, Handler, classify_caveat_profile,
}
use pact_passport.Policy.Factories.{
  satisfies_expiry, satisfies_depth, satisfies_budget, satisfies_action, Context,
}
use pact_passport.Policy.Evaluate.{
  handler_of, Verdict, allow, refuse, fail, ◌>>◌, verdict, check_simple, check_standard,
  check_profile, run_handler, evaluate_caveat, evaluate_caveats,
}

pub both_allow : (a b : Verdict) → ((a >> b) ≡ allow) ↔ ((a ≡ allow) × (b ≡ allow))
both_allow allow b = (λ h. (refl, h), λ h. h.1)
both_allow (refuse code) b = (λ h. cc, λ h. cc)
both_allow (fail e) b = (λ h. cc, λ h. cc)

-- The fault codes that a caveat can be refused with.
abbrev pub IsPolicyFault : String → Type 0
IsPolicyFault code =
    (code ≡ pact_scope_insufficient)
    ⊎ ((code ≡ pact_budget_exceeded) ⊎ ((code ≡ pact_depth_exceeded) ⊎ (code ≡ pact_token_expired)))

abbrev Refuses : Verdict → Type 0
Refuses v = (code : String) → v ≡ refuse code → IsPolicyFault code

verdict-Refuses : (code : String) (r : Result Bool) → IsPolicyFault code → Refuses (verdict code r)
verdict-Refuses code (ok true) h d same = ground (arith, same)
verdict-Refuses code (ok false) h d same = subst IsPolicyFault (ground (arith, same)) h
verdict-Refuses code (raise e) h d same = ground (arith, same)

module _ (p : Platform) (clock : ℕ) (s : PolicyState) (x : Context) where
  run_handler-Refuses : (o : Option Handler) (c : Dict) → Refuses (run_handler p clock s x o c)
  run_handler-Refuses none c code same = inl (ground (arith, same))
  run_handler-Refuses (some h) c code same =
      verdict-Refuses pact_scope_insufficient (h c x) (inl refl) code same

  either_Refuses : (b : Bool) (v w : Verdict) → Refuses v → Refuses w → Refuses (if b then v else w)
  either_Refuses true v w h k = h
  either_Refuses false v w h k = k

  fail_Refuses : (e : Error) → Refuses (fail e)
  fail_Refuses e code same = ground (arith, same)

  check_simple-Refuses : (c : Dict) (o : Option Value) → Refuses (check_simple p clock s x c o)
  unfolding check_simple
  check_simple-Refuses c none = fail_Refuses key_error
  check_simple-Refuses c (some null) = fail_Refuses key_error
  check_simple-Refuses c (some (bool b)) = fail_Refuses key_error
  check_simple-Refuses c (some (int n)) = fail_Refuses key_error
  check_simple-Refuses c (some (arr vs)) = fail_Refuses key_error
  check_simple-Refuses c (some (obj d)) = fail_Refuses key_error
  check_simple-Refuses c (some (str name)) =
      either_Refuses (name == "action") _ _ (verdict-Refuses _ (satisfies_action c x) (inl refl)) (
        either_Refuses (name == "budget_cents") _ _
          (verdict-Refuses _ (satisfies_budget c x) (inr (inl refl)))
          (either_Refuses (name == "depth") _ _
            (verdict-Refuses _ (satisfies_depth c x) (inr (inr (inl refl))))
            (either_Refuses (name == "expires_at") _ _
              (verdict-Refuses _ (satisfies_expiry p clock c x) (inr (inr (inr refl))))
              (fail_Refuses key_error))))

  standard-Refuses : (c : Dict) (o : Option Value) → Refuses (check_standard p clock s x c o)
  standard-Refuses c none = fail_Refuses key_error
  standard-Refuses c (some v) = run_handler-Refuses (handler_of s v) c

  profile-Refuses : (c : Dict) (r : Result PolicyProfile) → Refuses (check_profile p clock s x c r)
  profile-Refuses c (ok simple) = check_simple-Refuses c (get c "restrict")
  profile-Refuses c (ok standard) = standard-Refuses c (get c "restrict")
  profile-Refuses c (ok advanced) =
      either_Refuses s.enabled _ _ (run_handler-Refuses s.third_party_handler c)
        (run_handler-Refuses none c)
  profile-Refuses c (raise e) = fail_Refuses e

  then_Refuses : (v w : Verdict) → Refuses v → Refuses w → Refuses (v >> w)
  then_Refuses allow w h k = k
  then_Refuses (refuse code) w h k = h
  then_Refuses (fail e) w h k = fail_Refuses e

  -- The fault code that evaluate_caveats refuses with is always one of the four of a policy.
  pub evaluate_caveats-refuse :
      (cs : List Dict) (code : String)
      → evaluate_caveats p clock s x cs ≡ refuse code
      → IsPolicyFault code
  unfolding evaluate_caveats evaluate_caveat
  evaluate_caveats-refuse [] code same = fail_Refuses key_error code (ground (arith, same))
  evaluate_caveats-refuse (c ∷ cs) code same =
      then_Refuses (check_profile p clock s x c (classify_caveat_profile c))
        (evaluate_caveats p clock s x cs) (profile-Refuses c (classify_caveat_profile c))
        (λ d e. evaluate_caveats-refuse cs d e) code same

  -- A handler that is registered for the caveat has said yes.
  abbrev pub Asserted : Option Handler → Dict → Type 0
  Asserted o c = (h : Handler) × (o ≡ some h) × (h c x ≡ ok true)

  -- A caveat of the Simple profile, or one that a handler vouches for.
  abbrev pub Served : Dict → Type 0
  Served c =
      (classify_caveat_profile c ≡ ok simple)
      ⊎ (((v : Value) × (classify_caveat_profile c ≡ ok standard)
            × (get c "restrict" ≡ some v)
            × Asserted (handler_of s v) c)
          ⊎ ((classify_caveat_profile c ≡ ok advanced)
              × (s.enabled ≡ true)
              × Asserted s.third_party_handler c))

  abbrev pub AllServed : List Dict → Type 0
  AllServed [] = Unit {0}
  AllServed (c ∷ cs) = Served c × AllServed cs

  verdict-allow : (code : String) (r : Result Bool) → verdict code r ≡ allow → r ≡ ok true
  verdict-allow code (ok true) h = refl
  verdict-allow code (ok false) h = ground (arith, h)
  verdict-allow code (raise e) h = ground (arith, h)

  run_handler-allow :
      (o : Option Handler) (c : Dict) → run_handler p clock s x o c ≡ allow → Asserted o c
  run_handler-allow none c h = ground (arith, h)
  run_handler-allow (some f) c h = (f, refl, verdict-allow pact_scope_insufficient (f c x) h)

  standard-allow :
      (c : Dict) (o : Option Value)
      → check_standard p clock s x c o ≡ allow
      → (v : Value) × (o ≡ some v) × Asserted (handler_of s v) c
  standard-allow c none h = ground (arith, h)
  standard-allow c (some v) h = (v, refl, run_handler-allow (handler_of s v) c h)

  advanced-allow :
      (c : Dict) (b : Bool)
      → (if b
          then run_handler p clock s x s.third_party_handler c
          else refuse pact_scope_insufficient)
        ≡ allow
      → (b ≡ true) × Asserted s.third_party_handler c
  advanced-allow c true h = (refl, run_handler-allow s.third_party_handler c h)
  advanced-allow c false h = ground (arith, h)

  profile-Served :
      (c : Dict) (r : Result PolicyProfile)
      → classify_caveat_profile c ≡ r
      → check_profile p clock s x c r ≡ allow
      → Served c
  profile-Served c (ok simple) e h = inl e
  profile-Served c (ok standard) e h =
      let (v, found, asserted) = standard-allow c (get c "restrict") h in
      inr (inl (v, e, found, asserted))
  profile-Served c (ok advanced) e h =
      let (on, asserted) = advanced-allow c s.enabled h in inr (inr (e, on, asserted))
  profile-Served c (raise d) e h = ground (arith, h)

  -- Evaluation fails closed: if a list of caveats is allowed, each of them is of the Simple profile, or
  -- a handler registered for its name has said yes, or it is a third-party caveat, the Advanced
  -- profile is enabled, and its handler has said yes.
  pub evaluate_caveats-AllServed :
      (cs : List Dict) → evaluate_caveats p clock s x cs ≡ allow → AllServed cs
  unfolding evaluate_caveats evaluate_caveat
  evaluate_caveats-AllServed [] h = tt
  evaluate_caveats-AllServed (c ∷ cs) h =
      let both =
        (both_allow (check_profile p clock s x c (classify_caveat_profile c))
            (evaluate_caveats p clock s x cs)).0
          h in
      (
        profile-Served c (classify_caveat_profile c) refl both.0,
        evaluate_caveats-AllServed cs both.1,
      )
