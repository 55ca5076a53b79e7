-- ===== src/Tests/Policies.antt =====
-- The theorems on policies at concrete caveats.
use pact_passport.Base.{
  contains, lex_le, string_eq, ◌≡◌, ◌↔◌, refl, true, false, none, some, [], ◌∷◌, pos, leb_ℤ, ltb,
}
use pact_passport.Message.Dicts.{text_items}
use pact_passport.Json.{get, nil, cons, arr, Dict, str, int, bool, end, field}
use pact_passport.Errors.{ok}
use pact_passport.Errors.Faults.{pact_scope_insufficient}
use pact_passport.Platform.{aware}
use pact_passport.Policy.{
  classify_caveat_profile, find_handler, Handler, PolicyState, register_standard_predicate,
}
use pact_passport.Policy.Factories.{
  Context, datetime, make_action_caveat, make_budget_caveat, make_depth_caveat, make_expiry_caveat,
  caveat_dict,
}
use pact_passport.Policy.Evaluate.{allow, refuse, evaluate_caveats}
use pact_passport.Policy.Evaluate.Laws.{AllServed, evaluate_caveats-AllServed}
use pact_passport.Policy.Evaluate.Made.{evaluate_caveats-made}
use pact_passport.Tests.Toy.{toy, toy-IsLawful}

abbrev agree : Handler
agree = λ c x. ok true

abbrev start : PolicyState
start = record { handlers = []; enabled = false; third_party_handler = none }

abbrev ready : PolicyState
ready = record { handlers = ("region", agree) ∷ []; enabled = false; third_party_handler = none }

abbrev asking : Context
asking = record {
  action = some "read";
  cost_cents = some (pos 10);
  chain_depth = some (pos 2);
  now = none;
}

abbrev region : Dict
region = caveat_dict "region" (str "eu")

abbrev elsewhere : Dict
elsewhere = field "third_party" (bool true) end

registered : register_standard_predicate "region" agree start ≡ ok ready
unfolding register_standard_predicate contains
registered = refl

region_allowed : evaluate_caveats toy 5 ready asking (region ∷ []) ≡ allow
unfolding evaluate_caveats classify_caveat_profile get contains find_handler
region_allowed = refl

evaluate_caveats-AllServed_example : AllServed toy 5 ready asking (region ∷ [])
evaluate_caveats-AllServed_example =
    evaluate_caveats-AllServed toy 5 ready asking (region ∷ []) region_allowed

elsewhere_refused :
    evaluate_caveats toy 5 ready asking (elsewhere ∷ []) ≡ refuse pact_scope_insufficient
unfolding evaluate_caveats classify_caveat_profile get
elsewhere_refused = refl

abbrev actions : Dict
actions = caveat_dict "action" (arr (cons (str "read") (cons (str "write") nil)))

actions_made : make_action_caveat ("write" ∷ "read" ∷ "write" ∷ []) ≡ ok actions
unfolding make_action_caveat text_items lex_le
actions_made = refl

budget_made : make_budget_caveat (int (pos 50)) ≡ ok (caveat_dict "budget_cents" (int (pos 50)))
unfolding make_budget_caveat
budget_made = refl

depth_made : make_depth_caveat (bool true) ≡ ok (caveat_dict "depth" (bool true))
unfolding make_depth_caveat
depth_made = refl

abbrev expiry : Dict
expiry = caveat_dict "expires_at" (str (toy.isoformat 9))

expiry_made : make_expiry_caveat toy (datetime (aware 9)) ≡ ok expiry
unfolding make_expiry_caveat
expiry_made = refl

evaluate_caveats-made_example :
    (evaluate_caveats toy 5 ready asking (
        actions
        ∷ caveat_dict "budget_cents" (int (pos 50))
        ∷ caveat_dict "depth" (bool true)
        ∷ expiry
        ∷ [])
      ≡ allow)
    ↔ ((contains ⦃e = string_eq⦄ ("write" ∷ "read" ∷ "write" ∷ []) "read" ≡ true)
        × (leb_ℤ (pos 10) (pos 50) ≡ true)
        × (leb_ℤ (pos 2) (pos 1) ≡ true)
        × (ltb 5 9 ≡ true))
evaluate_caveats-made_example =
    evaluate_caveats-made toy 5 ready asking toy-IsLawful ("write" ∷ "read" ∷ "write" ∷ [])
      (int (pos 50)) (bool true) (pos 50) (pos 1) 9 "read" actions
      (caveat_dict "budget_cents" (int (pos 50))) (caveat_dict "depth" (bool true)) expiry
      actions_made budget_made depth_made expiry_made refl refl refl refl
