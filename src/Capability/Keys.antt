-- ===== src/Capability/Keys.antt =====
-- The frozensets of the chain walk: _canonical_caveat_value of capability.py, and the pairs
-- (restrict, canonical value). Python's True equals 1, so a flag counts as an int here.
use mathlib.Core.Bool.{false≢true}
use mathlib.Core.Logic.{ite}
use pact_passport.Base.{
  ℤ, pos, ℤ-discrete, String-discrete, true, false, ◌≡◌, ◌↔◌, refl, String, List, [], ◌∷◌, Bool, Eq,
}
use pact_passport.Json.{Value, Items, Dict}
use pact_passport.Json.Canonical.{sort_value}
use pact_passport.Capability.{Caveat}

-- What the helper returns: scalars, and tuples in place of lists and dicts.
mutual
  pub data Canon : Type 0 where
    null : Canon
    int : ℤ → Canon
    str : String → Canon
    tuple : Canons → Canon

  pub data Canons : Type 0 where
    nil : Canons
    cons : Canon → Canons → Canons

Canon-discrete : Discrete Canon
Canon-discrete = hlevel (ℤ-discrete, String-discrete)

abbrev pub pair : String → Canon → Canon
pair k c = tuple (cons (str k) (cons c nil))

unfoldable mutual
  pub canon : Value → Canon
  canon Value.null = null
  canon (Value.bool true) = int (pos 1)
  canon (Value.bool false) = int (pos 0)
  canon (Value.int n) = int n
  canon (Value.str s) = str s
  canon (Value.arr xs) = tuple (canon_items xs)
  canon (Value.obj d) = tuple (canon_pairs d)

  pub canon_items : Items → Canons
  canon_items Items.nil = nil
  canon_items (Items.cons x xs) = cons (canon x) (canon_items xs)

  pub canon_pairs : Dict → Canons
  canon_pairs Dict.end = nil
  canon_pairs (Dict.field k v d) = cons (pair k (canon v)) (canon_pairs d)

-- The keys of a dict are distinct, so sorting its pairs is sorting them by key.
unfoldable pub canonical_caveat_value : Value → Canon
unfolding canon
canonical_caveat_value v = canon (sort_value v)

abbrev pub CaveatKey : Type 0
CaveatKey = String × Canon

CaveatKey-discrete : Discrete CaveatKey
CaveatKey-discrete = hlevel (String-discrete, Canon-discrete)

unfoldable pub key_beq : CaveatKey → CaveatKey → Bool
unfolding CaveatKey-discrete Canon-discrete
key_beq a b = ite (CaveatKey-discrete a b) true false

ite_iff {ℓ} : {P : Type ℓ} (d : Dec P) → (ite d true false ≡ true) ↔ P
ite_iff (yes h) = (λ _. h, λ _. refl)
ite_iff (no n) = (λ e. absurd (false≢true e), λ h. absurd (n h))

pub key_beq_iff : (a b : CaveatKey) → (key_beq a b ≡ true) ↔ (a ≡ b)
unfolding key_beq
key_beq_iff a b = ite_iff (CaveatKey-discrete a b)

abbrev pub key_eq : Eq CaveatKey
key_eq = record { beq = key_beq; beq_iff = key_beq_iff }

-- frozenset((c.restrict, _canonical_caveat_value(c.value)) for c in caveats)
unfoldable pub caveat_keys : List Caveat → List CaveatKey
unfolding canonical_caveat_value
caveat_keys [] = []
caveat_keys (c ∷ cs) = (c.restrict, canonical_caveat_value c.value) ∷ caveat_keys cs
