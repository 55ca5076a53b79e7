-- ===== src/Policy/Factories/Laws.antt =====
-- The caveats that the factories make are met exactly as their arguments say.
use pact_passport.Base.{
  pos, ◌≡◌, refl, subst, ℕ, ℤ, leb_ℤ, ltb, ◌||◌, String, none, some, List, [], ◌∷◌, arith, eq_iff,
  ◌==◌, string_eq, contains,
}
use pact_passport.Json.{Value, Dict, str, arr, get}
use pact_passport.Errors.{ok, value_error, >>=-eq-ok, require}
use pact_passport.Platform.{Platform, IsLawful, aware}
use pact_passport.Message.Dicts.{text_items}
use pact_passport.Capability.Issue.{as_int}
use pact_passport.Policy.Factories.{
  insert_text, sorted_set, caveat_dict, make_action_caveat, make_budget_caveat, make_depth_caveat,
  make_expiry_caveat, datetime, Context, is_among, satisfies_action, satisfies_budget,
  satisfies_depth, satisfies_expiry, int_or_zero, is_at_least,
}

among-insert_text :
    (a s : String) (ts : List String)
    → is_among (some a) (text_items (insert_text s ts))
      ≡ ((a == s) || is_among (some a) (text_items ts))
unfolding is_among text_items insert_text
among-insert_text a s [] = refl
among-insert_text a s (t ∷ ts) =
    ground (arith, among-insert_text a s ts, eq_iff s t, eq_iff a s, eq_iff a t)

among-sorted_set :
    (a : String) (ss : List String) → is_among (some a) (text_items (sorted_set ss)) ≡ contains ss a
unfolding is_among text_items sorted_set contains
among-sorted_set a [] = refl
among-sorted_set a (s ∷ ss) =
    ground
      (arith, among-insert_text a s (sorted_set ss), among-sorted_set a ss, eq_iff a s, eq_iff s a)

pub satisfies_action-made :
    (ss : List String) (c : Dict) (x : Context) (a : String)
    → make_action_caveat ss ≡ ok c
    → x.action ≡ some a
    → satisfies_action c x ≡ ok (contains ss a)
unfolding make_action_caveat satisfies_action get
satisfies_action-made [] c x a h named = cc
satisfies_action-made (s ∷ ss) c x a h named =
    let made : caveat_dict "action" (arr (text_items (sorted_set (s ∷ ss)))) ≡ c =
      ground (arith, h) in
    subst (λ d. satisfies_action d x ≡ ok (contains (s ∷ ss) a)) made
      (simp (named, among-sorted_set a (s ∷ ss)))

-- An int that is large enough, which the caveat holds.
abbrev pub Ceiling : Value → ℤ → Type 0
Ceiling v n = as_int v ≡ some n

pub satisfies_budget-made :
    (v : Value) (n : ℤ) (c : Dict) (x : Context)
    → make_budget_caveat v ≡ ok c
    → as_int v ≡ some n
    → satisfies_budget c x ≡ ok (leb_ℤ (int_or_zero x.cost_cents) n)
unfolding make_budget_caveat satisfies_budget get
satisfies_budget-made v n c x h number =
    let (_, _, same) =
      >>=-eq-ok (require (is_at_least (pos 0) (as_int v)) value_error)
        (λ _. ok (caveat_dict "budget_cents" v)) h in
    let made : caveat_dict "budget_cents" v ≡ c = ground (arith, same) in
    subst (λ d. satisfies_budget d x ≡ ok (leb_ℤ (int_or_zero x.cost_cents) n)) made (simp number)

pub satisfies_depth-made :
    (v : Value) (n : ℤ) (c : Dict) (x : Context)
    → make_depth_caveat v ≡ ok c
    → as_int v ≡ some n
    → satisfies_depth c x ≡ ok (leb_ℤ (int_or_zero x.chain_depth) n)
unfolding make_depth_caveat satisfies_depth get
satisfies_depth-made v n c x h number =
    let (_, _, same) =
      >>=-eq-ok (require (is_at_least (pos 1) (as_int v)) value_error)
        (λ _. ok (caveat_dict "depth" v)) h in
    let made : caveat_dict "depth" v ≡ c = ground (arith, same) in
    subst (λ d. satisfies_depth d x ≡ ok (leb_ℤ (int_or_zero x.chain_depth) n)) made (simp number)

pub satisfies_expiry-made :
    (p : Platform)
    → IsLawful p
    → (clock t : ℕ) (c : Dict) (x : Context) → make_expiry_caveat p (datetime (aware t)) ≡ ok c
    → x.now ≡ none
    → satisfies_expiry p clock c x ≡ ok (ltb clock t)
unfolding make_expiry_caveat satisfies_expiry get
satisfies_expiry-made p law clock t c x h current =
    let made : caveat_dict "expires_at" (str (p.isoformat t)) ≡ c = ground (arith, h) in
    subst (λ d. satisfies_expiry p clock d x ≡ ok (ltb clock t)) made
      (simp (current, law.fromisoformat-isoformat t))

pub make_action_caveat-eq :
    (ss : List String) (c : Dict)
    → make_action_caveat ss ≡ ok c
    → (v : Value) × (caveat_dict "action" v ≡ c)
unfolding make_action_caveat
make_action_caveat-eq [] c h = cc
make_action_caveat-eq (s ∷ ss) c h = (arr (text_items (sorted_set (s ∷ ss))), ground (arith, h))

pub make_budget_caveat-eq :
    (v : Value) (c : Dict) → make_budget_caveat v ≡ ok c → caveat_dict "budget_cents" v ≡ c
unfolding make_budget_caveat
make_budget_caveat-eq v c h =
    let (_, _, same) =
      >>=-eq-ok (require (is_at_least (pos 0) (as_int v)) value_error)
        (λ _. ok (caveat_dict "budget_cents" v)) h in
    ground (arith, same)

pub make_depth_caveat-eq :
    (v : Value) (c : Dict) → make_depth_caveat v ≡ ok c → caveat_dict "depth" v ≡ c
unfolding make_depth_caveat
make_depth_caveat-eq v c h =
    let (_, _, same) =
      >>=-eq-ok (require (is_at_least (pos 1) (as_int v)) value_error)
        (λ _. ok (caveat_dict "depth" v)) h in
    ground (arith, same)

pub make_expiry_caveat-eq :
    (p : Platform) (t : ℕ) (c : Dict)
    → make_expiry_caveat p (datetime (aware t)) ≡ ok c
    → caveat_dict "expires_at" (str (p.isoformat t)) ≡ c
unfolding make_expiry_caveat
make_expiry_caveat-eq p t c h = ground (arith, h)
