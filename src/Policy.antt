-- ===== src/Policy.antt =====
-- policy.py: the three profiles of caveats. A caveat and a context are dicts, and a handler is a function
-- of both.
pub mod Factories
pub mod Evaluate
pub mod Registry
use pact_passport.Base.{
  Bool, true, false, not, ◌&&◌, ◌||◌, String, Option, none, some, List, [], ◌∷◌, ◌==◌, string_eq,
  contains, if◌then◌else◌,
}
use pact_passport.Json.{Value, Dict, str, arr, obj, get, is_falsy}
use pact_passport.Policy.Factories.{Context}
use pact_passport.Errors.{type_error, Result, ok, raise, value_error, require, ◌>>=◌, ◌>>◌}

pub data PolicyProfile : Type 0 where
  simple standard advanced : PolicyProfile

abbrev pub simple_caveat_restricts : List String
simple_caveat_restricts = "action" ∷ "budget_cents" ∷ "depth" ∷ "expires_at" ∷ []

-- The outcome of a handler that the host registers.
abbrev pub Handler : Type 0
Handler = Dict → Context → Result Bool

-- The module's state: the registered predicates, and the handler of third-party caveats while the
-- Advanced profile is enabled.
pub record PolicyState : Type 0 where
  pub handlers : List (String × Handler)
  pub enabled : Bool
  pub third_party_handler : Option Handler

unfoldable pub find_handler : List (String × Handler) → String → Option Handler
find_handler [] name = none
find_handler ((n, h) ∷ hs) name =
    let rest = find_handler hs name in if n == name then some h else rest

unfoldable pub remove_handler : List (String × Handler) → String → List (String × Handler)
remove_handler [] name = []
remove_handler ((n, h) ∷ hs) name =
    let rest = remove_handler hs name in if n == name then rest else (n, h) ∷ rest

abbrev pub is_registered : Option Handler → Bool
is_registered none = false
is_registered (some h) = true

unfoldable pub standard_predicate_registered : String → PolicyState → Bool
unfolding find_handler
standard_predicate_registered name s = is_registered (find_handler s.handlers name)

unfoldable pub register_standard_predicate : String → Handler → PolicyState → Result PolicyState
unfolding standard_predicate_registered
register_standard_predicate name func s = do
  require (not (contains simple_caveat_restricts name)) value_error
  require (not (standard_predicate_registered name s)) value_error
  ok (record s { handlers = (name, func) ∷ s.handlers })

unfoldable pub unregister_standard_predicate : String → PolicyState → PolicyState
unfolding remove_handler
unregister_standard_predicate name s = record s { handlers = remove_handler s.handlers name }

unfoldable pub enable_advanced_profile : Handler → PolicyState → PolicyState
enable_advanced_profile handler s = record s { enabled = true; third_party_handler = some handler }

unfoldable pub disable_advanced_profile : PolicyState → PolicyState
disable_advanced_profile s = record s { enabled = false; third_party_handler = none }

-- bool(d.get(k))
abbrev pub is_set : Option Value → Bool
is_set none = false
is_set (some v) = not (is_falsy v)

unfoldable pub is_third_party_caveat : Dict → Bool
is_third_party_caveat c = is_set (get c "third_party")

-- `restrict in SIMPLE_CAVEAT_RESTRICTS`; a list or a dict is no member, since it has no hash.
abbrev pub is_simple : Option Value → Result Bool
is_simple (some (str s)) = ok (contains simple_caveat_restricts s)
is_simple (some (arr xs)) = raise type_error
is_simple (some (obj d)) = raise type_error
is_simple v = ok false

unfoldable pub classify_caveat_profile : Dict → Result PolicyProfile
unfolding is_third_party_caveat
classify_caveat_profile c =
    if is_third_party_caveat c
    then ok advanced
    else (do templated ← is_simple (get c "restrict"); ok (if templated then simple else standard))

unfoldable pub classify_all : List Dict → Result (List PolicyProfile)
classify_all [] = ok []
classify_all (c ∷ cs) =
    let rest = classify_all cs in do l ← classify_caveat_profile c; ls ← rest; ok (l ∷ ls)

abbrev is_advanced : PolicyProfile → Bool
is_advanced advanced = true
is_advanced _ = false

abbrev is_standard : PolicyProfile → Bool
is_standard standard = true
is_standard _ = false

unfoldable pub some_level : (PolicyProfile → Bool) → List PolicyProfile → Bool
some_level test [] = false
some_level test (l ∷ ls) = test l || some_level test ls

abbrev pub highest : List PolicyProfile → PolicyProfile
highest ls =
    if some_level is_advanced ls
    then advanced
    else if some_level is_standard ls
    then standard
    else simple

unfoldable pub classify_cap_profile : List Dict → Result PolicyProfile
unfolding classify_all classify_caveat_profile some_level
classify_cap_profile cs = do ls ← classify_all cs; ok (highest ls)
