-- ===== src/Policy/Evaluate.antt =====
-- evaluate_caveats of policy.py.
pub mod Laws
pub mod Made
use pact_passport.Base.{
  ℕ, Bool, true, false, not, ◌&&◌, ◌||◌, String, Option, none, some, List, [], ◌∷◌, ◌==◌, string_eq,
  if◌then◌else◌,
}
use pact_passport.Json.{Value, Dict, str, get}
use pact_passport.Errors.{Error, Result, ok, raise, key_error}
use pact_passport.Errors.Faults.{
  pact_scope_insufficient, pact_budget_exceeded, pact_depth_exceeded, pact_token_expired,
}
use pact_passport.Platform.{Platform}
use pact_passport.Policy.{
  Handler, PolicyProfile, simple, standard, advanced, PolicyState, find_handler,
  classify_caveat_profile,
}
use pact_passport.Policy.Factories.{
  Context, satisfies_action, satisfies_budget, satisfies_depth, satisfies_expiry,
}

-- A call returns, raises PolicyProfileError with a fault code, or raises another error.
pub data Verdict : Type 0 where
  allow : Verdict
  refuse : String → Verdict
  fail : Error → Verdict

infixl 5 ◌>>◌
abbrev pub ◌>>◌ : Verdict → Verdict → Verdict
allow >> k = k
refuse code >> k = refuse code
fail e >> k = fail e

-- `if not check(caveat, ctx): raise PolicyProfileError(code)`
abbrev pub verdict : String → Result Bool → Verdict
verdict code (ok true) = allow
verdict code (ok false) = refuse code
verdict code (raise e) = fail e

abbrev pub handler_of : PolicyState → Value → Option Handler
handler_of s (str name) = find_handler s.handlers name
handler_of s v = none

module _ (p : Platform) (clock : ℕ) (s : PolicyState) (x : Context) where
  -- _SIMPLE_DISPATCH and fault_map
  unfoldable pub check_simple : Dict → Option Value → Verdict
  check_simple c (some (str name)) =
      if name == "action"
      then verdict pact_scope_insufficient (satisfies_action c x)
      else if name == "budget_cents"
      then verdict pact_budget_exceeded (satisfies_budget c x)
      else if name == "depth"
      then verdict pact_depth_exceeded (satisfies_depth c x)
      else if name == "expires_at"
      then verdict pact_token_expired (satisfies_expiry p clock c x)
      else fail key_error
  check_simple c v = fail key_error

  abbrev pub run_handler : Option Handler → Dict → Verdict
  run_handler none c = refuse pact_scope_insufficient
  run_handler (some h) c = verdict pact_scope_insufficient (h c x)

  abbrev pub check_standard : Dict → Option Value → Verdict
  check_standard c none = fail key_error
  check_standard c (some v) = run_handler (handler_of s v) c

  -- The handler counts while the profile is enabled.
  abbrev pub check_advanced : Dict → Verdict
  check_advanced c =
      if s.enabled then run_handler s.third_party_handler c else refuse pact_scope_insufficient

  abbrev pub check_profile : Dict → Result PolicyProfile → Verdict
  check_profile c (ok simple) = check_simple c (get c "restrict")
  check_profile c (ok standard) = check_standard c (get c "restrict")
  check_profile c (ok advanced) = check_advanced c
  check_profile c (raise e) = fail e

  unfoldable pub evaluate_caveat : Dict → Verdict
  unfolding check_simple
  evaluate_caveat c = check_profile c (classify_caveat_profile c)

  unfoldable pub evaluate_caveats : List Dict → Verdict
  unfolding evaluate_caveat
  evaluate_caveats [] = allow
  evaluate_caveats (c ∷ cs) = let rest = evaluate_caveats cs in evaluate_caveat c >> rest
