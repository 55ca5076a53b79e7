-- ===== src/Wire.antt =====
-- Typed fields of a dict that came off the wire. The dataclasses do not check the types that they
-- declare; here a value of another type raises TypeError when it is read.
use pact_passport.Base.{
  ◌≡◌, ◌≢◌, arith, eq_iff, refl, Bool, true, false, String, Option, none, some, ◌==◌, string_eq,
  if◌then◌else◌,
}
use pact_passport.Json.{Value, Items, Dict, null, bool, str, arr, obj, end, field, get, opt_field}
use pact_passport.Errors.{Result, ok, raise, key_error, type_error}

-- `if x` on an optional text: the empty text counts as absent.
abbrev pub truthy : Option String → Option String
truthy none = none
truthy (some s) = if s == "" then none else some s

abbrev pub text_value : Option String → Option Value
text_value none = none
text_value (some s) = some (str s)

abbrev pub flag_value : Bool → Option Value
flag_value true = some (bool true)
flag_value false = none

abbrev pub as_text : Value → Result String
as_text (str s) = ok s
as_text _ = raise type_error

abbrev pub as_flag : Value → Result Bool
as_flag (bool b) = ok b
as_flag _ = raise type_error

abbrev pub as_list : Value → Result Items
as_list (arr xs) = ok xs
as_list _ = raise type_error

abbrev pub as_dict : Value → Result Dict
as_dict (obj d) = ok d
as_dict _ = raise type_error

-- d[k]
abbrev pub need : Option Value → Result Value
need none = raise key_error
need (some v) = ok v

abbrev pub need_text : Option Value → Result String
need_text none = raise key_error
need_text (some v) = as_text v

-- d.get(k) on an optional text: an explicit None is None.
abbrev pub maybe_text : Option Value → Result (Option String)
maybe_text none = ok none
maybe_text (some null) = ok none
maybe_text (some (str s)) = ok (some s)
maybe_text (some _) = raise type_error

-- d.get(k, default)
abbrev pub text_or : String → Option Value → Result String
text_or s none = ok s
text_or s (some v) = as_text v

abbrev pub flag_or_false : Option Value → Result Bool
flag_or_false none = ok false
flag_or_false (some v) = as_flag v

-- The entry that `opt_field` wrote, or what the rest of the dict has.
abbrev pub over : Option Value → Option Value → Option Value
over none w = w
over (some v) w = some v

pub get-opt_field :
    (k : String) (o : Option Value) (d : Dict) (j : String)
    → get (opt_field k o d) j ≡ (if k == j then over o (get d j) else get d j)
unfolding get
get-opt_field k none d j = elim (k == j) as (λ b. get d j ≡ (if b then get d j else get d j)) [
  | true ↦ refl
  | false ↦ refl
]
get-opt_field k (some v) d j = refl

pub get-field :
    (k : String) (v : Value) (d : Dict) (j : String)
    → get (field k v d) j ≡ (if k == j then some v else get d j)
unfolding get
get-field k v d j = refl

pub get-end : (j : String) → get end j ≡ none
unfolding get
get-end j = refl

pub maybe_text-text_value : (o : Option String) → maybe_text (over (text_value o) none) ≡ ok o
maybe_text-text_value none = refl
maybe_text-text_value (some s) = refl

pub flag_or_false-flag_value : (b : Bool) → flag_or_false (over (flag_value b) none) ≡ ok b
flag_or_false-flag_value true = refl
flag_or_false-flag_value false = refl

pub truthy-eq : (o : Option String) → o ≢ some "" → truthy o ≡ o
truthy-eq none h = refl
truthy-eq (some s) h = ground (arith, eq_iff s "")

pub ruleset field_laws =
    (get-opt_field, get-field, get-end, maybe_text-text_value, flag_or_false-flag_value)
