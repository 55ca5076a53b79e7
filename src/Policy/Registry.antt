-- ===== src/Policy/Registry.antt =====
-- Registering a predicate of policy.py and taking it away again.
use pact_passport.Base.{
  refl, eq_refl, Option-cases, inl, inr, ◌≡◌, subst, ◌∙◌, Bool, true, false, not, String, none,
  some, List, [], ◌∷◌, arith, eq_iff, ◌==◌, string_eq, contains, if◌then◌else◌,
}
use pact_passport.Errors.{ok, raise, value_error, >>=-eq-ok, require, require-eq-ok, ◌>>◌}
use pact_passport.Policy.{
  Handler, PolicyState, find_handler, remove_handler, is_registered, simple_caveat_restricts,
  standard_predicate_registered, register_standard_predicate, unregister_standard_predicate,
}

find_handler-remove_handler :
    (hs : List (String × Handler)) (name other : String)
    → find_handler (remove_handler hs name) other
      ≡ (if name == other then none else find_handler hs other)
unfolding find_handler remove_handler
find_handler-remove_handler [] name other = ground arith
find_handler-remove_handler ((n, h) ∷ hs) name other = ground (
  arith,
  find_handler-remove_handler hs name other,
  eq_iff n name,
  eq_iff n other,
  eq_iff name other,
)

not-eq_true : (b : Bool) → not b ≡ true → b ≡ false
not-eq_true b h = ground arith

unregistered :
    (hs : List (String × Handler)) (name : String)
    → is_registered (find_handler hs name) ≡ false
    → find_handler hs name ≡ none
unregistered hs name h = elim (Option-cases (find_handler hs name)) [
  | inl e ↦ e
  | inr (f, e) ↦ ground (arith, e, h)
]

-- What a registration that goes through has done.
pub record Registered (name : String) (func : Handler) (before after : PolicyState) : Type 1 where
  pub found :
      (other : String)
      → find_handler after.handlers other
        ≡ (if name == other then some func else find_handler before.handlers other)
  pub fresh : standard_predicate_registered name before ≡ false
  pub no_shadow : contains simple_caveat_restricts name ≡ false
  pub one_shot :
      (func' : Handler) → register_standard_predicate name func' after ≡ raise value_error
  pub undone :
      (other : String)
      → find_handler (unregister_standard_predicate name after).handlers other
        ≡ find_handler before.handlers other

-- A registration that goes through is of a name that was free and shadows no Simple caveat; the handler
-- is then found, the others stay, a second registration of the name raises ValueError, and
-- unregistering the name leads back to what was found before.
register_standard_predicate-Registered :
    (name : String) (func : Handler) (before after : PolicyState)
    → register_standard_predicate name func before ≡ ok after
    → Registered name func before after
unfolding register_standard_predicate unregister_standard_predicate standard_predicate_registered
    find_handler
register_standard_predicate-Registered name func before after h =
    let next : PolicyState = record before { handlers = (name, func) ∷ before.handlers } in
    let (_, clear, h1) =
      >>=-eq-ok (require (not (contains simple_caveat_restricts name)) value_error)
        (λ _. require (not (standard_predicate_registered name before)) value_error >> ok next) h in
    let (_, free, h2) =
      >>=-eq-ok (require (not (standard_predicate_registered name before)) value_error)
        (λ _. ok next) h1 in
    let no_shadow : contains simple_caveat_restricts name ≡ false =
      not-eq_true _ (require-eq-ok _ _ clear) in
    let fresh : standard_predicate_registered name before ≡ false =
      not-eq_true _ (require-eq-ok _ _ free) in
    let same : next ≡ after = ground (arith, h2) in
    subst (Registered name func before) same (record {
      found = λ other. refl;
      fresh = fresh;
      no_shadow = no_shadow;
      one_shot = λ func'. simp (no_shadow, eq_refl name);
      undone = λ other.
          find_handler-remove_handler next.handlers name other
          ∙ ground (arith, eq_iff name other, unregistered before.handlers name fresh);
    })
