-- ===== src/Policy/Factories.antt =====
-- The four factories of Simple caveats of policy.py, and their checks against a context.
pub mod Laws
use pact_passport.Base.{
  ltb, ℤ, pos, leb_ℤ, ℕ, Bool, true, false, ◌&&◌, ◌||◌, String, Option, none, some, List, [], ◌∷◌,
  ◌==◌, string_eq, nat_eq, codes, text_le, if◌then◌else◌,
}
use pact_passport.Json.{Value, Items, Dict, null, str, arr, obj, nil, cons, end, field, get, has}
use pact_passport.Errors.{
  Result, ok, raise, type_error, value_error, require, or_raise, ◌>>=◌, ◌>>◌,
}
use pact_passport.Platform.{Platform, Datetime, aware, naive}
use pact_passport.Wire.{need, as_text}
use pact_passport.Message.Dicts.{text_items}
use pact_passport.Capability.Issue.{as_int}

-- A text into its place in a sorted list without repetition.
unfoldable pub insert_text : String → List String → List String
insert_text s [] = s ∷ []
insert_text s (t ∷ ts) =
    let rest = insert_text s ts in
    if s == t then t ∷ ts else if text_le s t then s ∷ t ∷ ts else t ∷ rest

-- sorted(set(xs))
unfoldable pub sorted_set : List String → List String
unfolding insert_text
sorted_set [] = []
sorted_set (s ∷ ss) = insert_text s (sorted_set ss)

abbrev pub caveat_dict : String → Value → Dict
caveat_dict restrict v = field "restrict" (str restrict) (field "value" v end)

unfoldable pub make_action_caveat : List String → Result Dict
unfolding sorted_set
make_action_caveat [] = raise value_error
make_action_caveat (s ∷ ss) = ok (caveat_dict "action" (arr (text_items (sorted_set (s ∷ ss)))))

-- `isinstance(v, int) and v >= least`: a bool is an int.
abbrev pub is_at_least : ℤ → Option ℤ → Bool
is_at_least least none = false
is_at_least least (some n) = leb_ℤ least n

unfoldable pub make_budget_caveat : Value → Result Dict
make_budget_caveat v = do
  require (is_at_least (pos 0) (as_int v)) value_error
  ok (caveat_dict "budget_cents" v)

unfoldable pub make_depth_caveat : Value → Result Dict
make_depth_caveat v = do
  require (is_at_least (pos 1) (as_int v)) value_error
  ok (caveat_dict "depth" v)

-- A datetime or a text, where either is taken.
pub data Moment : Type 0 where
  datetime : Datetime → Moment
  text : String → Moment

-- The entries of a context that the checks read.
pub record Context : Type 0 where
  pub action : Option String
  pub cost_cents : Option ℤ
  pub chain_depth : Option ℤ
  pub now : Option Moment

-- `needle in haystack`, for two texts
unfoldable pub starts_with : List ℕ → List ℕ → Bool
starts_with [] ys = true
starts_with (x ∷ xs) [] = false
starts_with (x ∷ xs) (y ∷ ys) = let rest = starts_with xs ys in x == y && rest

unfoldable pub occurs_in : List ℕ → List ℕ → Bool
unfolding starts_with
occurs_in xs [] = starts_with xs []
occurs_in xs (y ∷ ys) = let rest = occurs_in xs ys in starts_with xs (y ∷ ys) || rest

abbrev pub is_item : Option String → Value → Bool
is_item none null = true
is_item (some s) (str t) = s == t
is_item o v = false

unfoldable pub is_among : Option String → Items → Bool
is_among o nil = false
is_among o (cons v vs) = let rest = is_among o vs in is_item o v || rest

abbrev pub is_key : Option String → Dict → Bool
is_key none d = false
is_key (some s) d = has d s

-- `action in value`
abbrev pub is_within : Option String → Value → Result Bool
is_within o (arr vs) = ok (is_among o vs)
is_within o (obj d) = ok (is_key o d)
is_within (some s) (str t) = ok (occurs_in (codes s) (codes t))
is_within o v = raise type_error

abbrev pub int_or_zero : Option ℤ → ℤ
int_or_zero none = pos 0
int_or_zero (some n) = n

abbrev pub at_most : ℤ → Option ℤ → Result Bool
at_most n none = raise type_error
at_most n (some m) = ok (leb_ℤ n m)

unfoldable pub satisfies_action : Dict → Context → Result Bool
unfolding is_among occurs_in
satisfies_action c x = do v ← need (get c "value"); is_within x.action v

unfoldable pub satisfies_budget : Dict → Context → Result Bool
satisfies_budget c x = do v ← need (get c "value"); at_most (int_or_zero x.cost_cents) (as_int v)

unfoldable pub satisfies_depth : Dict → Context → Result Bool
satisfies_depth c x = do v ← need (get c "value"); at_most (int_or_zero x.chain_depth) (as_int v)

-- `a < b`, for two datetimes
abbrev pub is_before : Datetime → Datetime → Result Bool
is_before (aware a) (aware b) = ok (ltb a b)
is_before (naive a) (naive b) = ok (ltb a b)
is_before a b = raise type_error

module _ (p : Platform) where
  abbrev pub parse : String → Result Datetime
  parse s = or_raise (p.fromisoformat s) value_error

  -- The current moment is `clock`.
  abbrev pub context_now : ℕ → Option Moment → Result Datetime
  context_now clock none = ok (aware clock)
  context_now clock (some (datetime t)) = ok t
  context_now clock (some (text s)) = if s == "" then ok (aware clock) else parse s

  unfoldable pub satisfies_expiry : ℕ → Dict → Context → Result Bool
  satisfies_expiry clock c x = do
    now ← context_now clock x.now
    v ← need (get c "value")
    s ← as_text v
    expires ← parse s
    is_before now expires

  unfoldable pub make_expiry_caveat : Moment → Result Dict
  make_expiry_caveat (datetime (aware t)) = ok (caveat_dict "expires_at" (str (p.isoformat t)))
  make_expiry_caveat (datetime (naive t)) = raise value_error
  make_expiry_caveat (text s) = do parse s; ok (caveat_dict "expires_at" (str s))
