-- ===== src/Policy/Evaluate/Made.antt =====
-- The evaluation of one caveat of each of the four factories.
use pact_passport.Base.{
  ◌≡◌, ◌↔◌, refl, ap, subst, ◌∙◌, ℕ, ℤ, leb_ℤ, ltb, Bool, true, false, String, some, none, List, [],
  ◌∷◌, arith, string_eq, contains,
}
use pact_passport.Json.{Value, Dict, get}
use pact_passport.Errors.{ok}
use pact_passport.Errors.Faults.{
  pact_scope_insufficient, pact_budget_exceeded, pact_depth_exceeded, pact_token_expired,
}
use pact_passport.Platform.{Platform, IsLawful, aware}
use pact_passport.Capability.Issue.{as_int}
use pact_passport.Policy.{PolicyState, classify_caveat_profile}
use pact_passport.Policy.Factories.{
  Context, caveat_dict, datetime, make_action_caveat, make_budget_caveat, make_depth_caveat,
  make_expiry_caveat, satisfies_action, satisfies_budget, satisfies_depth, satisfies_expiry,
  int_or_zero,
}
use pact_passport.Policy.Factories.Laws.{
  satisfies_action-made, satisfies_budget-made, satisfies_depth-made, satisfies_expiry-made,
  make_action_caveat-eq, make_budget_caveat-eq, make_depth_caveat-eq, make_expiry_caveat-eq,
}
use pact_passport.Policy.Evaluate.{◌>>◌, allow, verdict, evaluate_caveat, evaluate_caveats}

four_bools :
    (a b c d : Bool)
    → ((verdict pact_scope_insufficient (ok a)
          >> (verdict pact_budget_exceeded (ok b)
              >> (verdict pact_depth_exceeded (ok c)
                  >> (verdict pact_token_expired (ok d) >> allow))))
        ≡ allow)
      ↔ ((a ≡ true) × (b ≡ true) × (c ≡ true) × (d ≡ true))
four_bools true true true true = (λ h. (refl, refl, refl, refl), λ h. refl)
four_bools true true true false = (λ h. ground (arith, h), λ h. ground (arith, h.3))
four_bools true true false d = (λ h. ground (arith, h), λ h. ground (arith, h.2))
four_bools true false c d = (λ h. ground (arith, h), λ h. ground (arith, h.1))
four_bools false b c d = (λ h. ground (arith, h), λ h. ground (arith, h.0))

module _ (p : Platform) (clock : ℕ) (s : PolicyState) (x : Context) where
  action_caveat :
      (v : Value)
      → evaluate_caveat p clock s x (caveat_dict "action" v)
        ≡ verdict pact_scope_insufficient (satisfies_action (caveat_dict "action" v) x)
  unfolding evaluate_caveat classify_caveat_profile get contains
  action_caveat v = refl

  budget_caveat :
      (v : Value)
      → evaluate_caveat p clock s x (caveat_dict "budget_cents" v)
        ≡ verdict pact_budget_exceeded (satisfies_budget (caveat_dict "budget_cents" v) x)
  unfolding evaluate_caveat classify_caveat_profile get contains
  budget_caveat v = refl

  depth_caveat :
      (v : Value)
      → evaluate_caveat p clock s x (caveat_dict "depth" v)
        ≡ verdict pact_depth_exceeded (satisfies_depth (caveat_dict "depth" v) x)
  unfolding evaluate_caveat classify_caveat_profile get contains
  depth_caveat v = refl

  expiry_caveat :
      (v : Value)
      → evaluate_caveat p clock s x (caveat_dict "expires_at" v)
        ≡ verdict pact_token_expired (satisfies_expiry p clock (caveat_dict "expires_at" v) x)
  unfolding evaluate_caveat classify_caveat_profile get contains
  expiry_caveat v = refl

  -- A request is allowed by the four caveats that the factories make for a list of actions, a budget, a
  -- depth and a moment exactly if its action is one of the list, its cost and its depth are at most the
  -- numbers, and the moment is still to come.
  pub evaluate_caveats-made :
      IsLawful p
      → (actions : List String) (budget depth : Value) (n d : ℤ) (t : ℕ) (a : String)
        (c1 c2 c3 c4 : Dict)
      → make_action_caveat actions ≡ ok c1
      → make_budget_caveat budget ≡ ok c2
      → make_depth_caveat depth ≡ ok c3
      → make_expiry_caveat p (datetime (aware t)) ≡ ok c4
      → as_int budget ≡ some n
      → as_int depth ≡ some d
      → x.action ≡ some a
      → x.now ≡ none
      → (evaluate_caveats p clock s x (c1 ∷ c2 ∷ c3 ∷ c4 ∷ []) ≡ allow) ↔ (
          (contains actions a ≡ true)
          × (leb_ℤ (int_or_zero x.cost_cents) n ≡ true)
          × (leb_ℤ (int_or_zero x.chain_depth) d ≡ true)
          × (ltb clock t ≡ true))
  unfolding evaluate_caveats
  evaluate_caveats-made law actions budget depth n d t a c1 c2 c3 c4 h1 h2 h3 h4 num deep named
        current =
      let (v, e1) = make_action_caveat-eq actions c1 h1 in
      let s1 : evaluate_caveat p clock s x c1
          ≡ verdict pact_scope_insufficient (ok (contains actions a)) =
        subst
          (λ c.
            evaluate_caveat p clock s x c ≡ verdict pact_scope_insufficient (satisfies_action c x))
          e1 (action_caveat v)
        ∙ ap (verdict pact_scope_insufficient) (satisfies_action-made actions c1 x a h1 named) in
      let s2 : evaluate_caveat p clock s x c2
          ≡ verdict pact_budget_exceeded (ok (leb_ℤ (int_or_zero x.cost_cents) n)) =
        subst
          (λ c. evaluate_caveat p clock s x c ≡ verdict pact_budget_exceeded (satisfies_budget c x))
          (make_budget_caveat-eq budget c2 h2) (budget_caveat budget)
        ∙ ap (verdict pact_budget_exceeded) (satisfies_budget-made budget n c2 x h2 num) in
      let s3 : evaluate_caveat p clock s x c3
          ≡ verdict pact_depth_exceeded (ok (leb_ℤ (int_or_zero x.chain_depth) d)) =
        subst
          (λ c. evaluate_caveat p clock s x c ≡ verdict pact_depth_exceeded (satisfies_depth c x))
          (make_depth_caveat-eq depth c3 h3) (depth_caveat depth)
        ∙ ap (verdict pact_depth_exceeded) (satisfies_depth-made depth d c3 x h3 deep) in
      let s4 : evaluate_caveat p clock s x c4 ≡ verdict pact_token_expired (ok (ltb clock t)) =
        subst
          (λ c.
            evaluate_caveat p clock s x c
            ≡ verdict pact_token_expired (satisfies_expiry p clock c x))
          (make_expiry_caveat-eq p t c4 h4) (expiry_caveat _)
        ∙ ap (verdict pact_token_expired) (satisfies_expiry-made p law clock t c4 x h4 current) in
      rw (s1, s2, s3, s4)
        (four_bools (contains actions a) (leb_ℤ (int_or_zero x.cost_cents) n)
          (leb_ℤ (int_or_zero x.chain_depth) d) (ltb clock t))
