-- ===== src/Capability/Issue.antt =====
-- _validate_caveats, issue_capability and attenuate of capability.py. The fresh uuid is an argument.
pub mod Narrower
pub mod Laws
use pact_passport.Base.{
  ◌≡◌, refl, zero, suc, ℤ, pos, leb_ℤ, Bool, true, false, not, ◌&&◌, ◌||◌, String, Option, none,
  some, List, [], ◌∷◌, ◌++◌, ◌==◌, string_eq, text_le, if◌then◌else◌,
}
use pact_passport.Json.{Value, Dict, bool, int, str, arr, end, field}
use pact_passport.Json.Canonical.{canonical_json}
use pact_passport.Errors.{
  Result, ok, raise, type_error, value_error, attenuation_violation, ◌>>=◌, ◌>>◌, require,
}
use pact_passport.Platform.{Platform, Bytes}
use pact_passport.Capability.{Caveat, DelegationLink, CapabilityToken, alg_name}
use pact_passport.Capability.Dicts.{caveat_items, signable_dict}

-- `isinstance(v, int) and not isinstance(v, bool) and v >= 1`
abbrev pub is_positive_int : Value → Bool
is_positive_int (int n) = leb_ℤ (pos 1) n
is_positive_int _ = false

abbrev is_some {ℓ} : {A : Type ℓ} → Option A → Bool
is_some none = false
is_some (some a) = true

-- any(c.restrict == "no_further_delegation" and c.terminal for c in self.caveats)
unfoldable pub is_terminal : List Caveat → Bool
is_terminal [] = false
is_terminal (c ∷ cs) = (c.restrict == "no_further_delegation" && c.terminal) || is_terminal cs

-- [c.value for c in caveats if c.restrict == r]
unfoldable pub values_of : String → List Caveat → List Value
values_of r [] = []
values_of r (c ∷ cs) = let rest = values_of r cs in if c.restrict == r then c.value ∷ rest else rest

abbrev pub as_int : Value → Option ℤ
as_int (int n) = some n
as_int (bool true) = some (pos 1)
as_int (bool false) = some (pos 0)
as_int _ = none

abbrev number_lt : Option ℤ → Option ℤ → Result Bool
number_lt (some a) (some b) = ok (not (leb_ℤ b a))
number_lt _ _ = raise type_error

-- Python's `a < b`. Two lists are not compared item by item: the caller raises TypeError on them
-- in any case, when it compares one with an int or a text.
unfoldable pub py_lt : Value → Value → Result Bool
py_lt (str s) (str t) = ok (not (text_le t s))
py_lt v w = number_lt (as_int v) (as_int w)

-- min(m, *vs)
unfoldable pub py_min : Value → List Value → Result Value
unfolding py_lt
py_min m [] = ok m
py_min m (v ∷ vs) = do less ← py_lt v m; py_min (if less then v else m) vs

-- The body of the loop over `additional_caveats`, for the values that the parent has.
unfoldable pub check_narrow : List Value → Caveat → Result (Unit {0})
unfolding py_min
check_narrow [] c = ok tt
check_narrow (v ∷ vs) c =
    if c.restrict == "max_invocations" || c.restrict == "expires"
    then (do
      least ← py_min v vs
      wider ← py_lt least c.value
      require (not wider) attenuation_violation)
    else ok tt

unfoldable pub check_narrowing : List Caveat → List Caveat → Result (Unit {0})
unfolding check_narrow values_of
check_narrowing parent [] = ok tt
check_narrowing parent (c ∷ cs) =
    let rest = check_narrowing parent cs in check_narrow (values_of c.restrict parent) c >> rest

-- The payload that a delegation link signs.
unfoldable pub link_payload : String → String → List Caveat → Dict
link_payload parent_cap_id action caveats =
    field "parent_cap_id" (str parent_cap_id) (
      field "action_at_step" (str action)
        (field "caveats_at_step" (arr (caveat_items caveats)) end))

module _ (p : Platform) where
  -- `datetime.fromisoformat(v)`: a TypeError is turned into a ValueError here.
  abbrev pub parses : Value → Bool
  parses (str s) = is_some (p.fromisoformat s)
  parses _ = false

  unfoldable pub check_caveat : Caveat → Result (Unit {0})
  check_caveat c =
      if c.restrict == "max_invocations"
      then require (is_positive_int c.value) value_error
      else if c.restrict == "expires"
      then require (parses c.value) value_error
      else ok tt

  unfoldable pub validate_caveats : List Caveat → Result (Unit {0})
  unfolding check_caveat
  validate_caveats [] = ok tt
  validate_caveats (c ∷ cs) = let rest = validate_caveats cs in check_caveat c >> rest

  -- token.signature = b64(sign(canonical_json(token.signable_dict())))
  unfoldable pub sign_token : Bytes → CapabilityToken → CapabilityToken
  sign_token key t = record t {
    signature = p.b64encode (p.sign (canonical_json (signable_dict t)) key);
  }

  abbrev pub root_token : String → String → String → String → List Caveat → CapabilityToken
  root_token cap_id issuer holder action caveats = record {
    cap_id = cap_id;
    issuer = issuer;
    holder = holder;
    action = action;
    caveats = caveats;
    parent = none;
    delegation_chain = [];
    revoked = false;
    visa = false;
    nonce = none;
    ephemeral_key_fingerprint = none;
    alg = alg_name;
    signature = "";
  }

  unfoldable pub issue_capability :
      Bytes → String → String → String → List Caveat → String → Result CapabilityToken
  unfolding validate_caveats
  issue_capability key issuer holder action caveats cap_id = do
    validate_caveats caveats
    ok (sign_token key (root_token cap_id issuer holder action caveats))

  unfoldable pub new_link : CapabilityToken → Bytes → String → List Caveat → DelegationLink
  new_link parent key delegator caveats = record {
    from_agent = delegator;
    sig =
        p.b64encode
          (p.sign (canonical_json (link_payload parent.cap_id parent.action caveats)) key);
    parent_cap_id = some parent.cap_id;
    action_at_step = some parent.action;
    caveats_at_step = some caveats;
  }

  abbrev pub child_token :
      CapabilityToken → Bytes → String → String → List Caveat → String → CapabilityToken
  child_token parent key delegator new_holder caveats cap_id = record {
    cap_id = cap_id;
    issuer = parent.issuer;
    holder = new_holder;
    action = parent.action;
    caveats = caveats;
    parent = some parent.cap_id;
    delegation_chain = parent.delegation_chain ++ (new_link parent key delegator caveats ∷ []);
    revoked = false;
    visa = false;
    nonce = none;
    ephemeral_key_fingerprint = none;
    alg = alg_name;
    signature = "";
  }

  unfoldable pub attenuate :
      CapabilityToken → Bytes → String → String → List Caveat → String → Result CapabilityToken
  unfolding validate_caveats check_narrowing is_terminal
  attenuate parent key delegator new_holder additional cap_id = do
    validate_caveats additional
    require (not (is_terminal parent.caveats)) attenuation_violation
    require (parent.holder == delegator) attenuation_violation
    check_narrowing parent.caveats additional
    ok (
        sign_token key
          (child_token parent key delegator new_holder (parent.caveats ++ additional) cap_id))
