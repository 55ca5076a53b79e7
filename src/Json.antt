-- ===== src/Json.antt =====
-- The values that json.loads returns and json.dumps takes, and the operations on `dict` that the
-- program uses. Floats are left out: nothing that the program builds itself holds one.
pub mod Dicts
pub mod Canonical
pub mod Quote
pub mod Order
pub mod Members
use pact_passport.Base.{
  pos, negsuc, true, false, not, nat_eq, ℤ, Bool, String, Option, none, some, ◌==◌, string_eq,
  if◌then◌else◌,
}

-- A dict keeps its fields in the order of their insertion.
mutual
  pub data Value : Type 0 where
    null : Value
    bool : Bool → Value
    int : ℤ → Value
    str : String → Value
    arr : Items → Value
    obj : Dict → Value

  pub data Items : Type 0 where
    nil : Items
    cons : Value → Items → Items

  pub data Dict : Type 0 where
    end : Dict
    field : String → Value → Dict → Dict

-- d.get(k), and `k in d`
unfoldable pub get : Dict → String → Option Value
get end k = none
get (field j v d) k = if j == k then some v else get d k

-- k in d
abbrev pub has : Dict → String → Bool
has d k = elim (get d k) [ none ↦ false | some v ↦ true ]

-- `not v`
abbrev pub is_falsy : Value → Bool
is_falsy null = true
is_falsy (bool b) = not b
is_falsy (int (pos n)) = n == 0
is_falsy (int (negsuc n)) = false
is_falsy (str s) = s == ""
is_falsy (arr nil) = true
is_falsy (obj end) = true
is_falsy _ = false

-- d[k] = v
unfoldable pub set : Dict → String → Value → Dict
set end k v = field k v end
set (field j w d) k v = if j == k then field j v d else field j w (set d k v)

-- {j: v for j, v in d.items() if j != k}, d.pop(k, None)
unfoldable pub without : Dict → String → Dict
without end k = end
without (field j v d) k = let rest = without d k in if j == k then rest else field j v rest

-- An optional entry of a dict that is being built: `if x is not None: d[k] = x`.
abbrev pub opt_field : String → Option Value → Dict → Dict
opt_field k none d = d
opt_field k (some v) d = field k v d
