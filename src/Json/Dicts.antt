-- ===== src/Json/Dicts.antt =====
-- Laws of the operations on a dict.
use pact_passport.Base.{
  ◌≡◌, refl, arith, String, none, some, ◌==◌, string_eq, eq_iff, if◌then◌else◌,
}
use pact_passport.Json.{Value, Dict, end, field, get, set, without}

pub get-set :
    (d : Dict) (k j : String) (v : Value) → get (set d k v) j ≡ (if k == j then some v else get d j)
unfolding get set
get-set end k j v = refl
get-set (field i w d) k j v = ground (arith, get-set d k j v, eq_iff i k, eq_iff i j, eq_iff k j)

pub get-without :
    (d : Dict) (k j : String) → get (without d k) j ≡ (if k == j then none else get d j)
unfolding get without
get-without end k j = ground arith
get-without (field i w d) k j =
    ground (arith, get-without d k j, eq_iff i k, eq_iff i j, eq_iff k j)

-- Removing a field that is not there changes nothing.
pub without_absent : (d : Dict) (k : String) → get d k ≡ none → without d k ≡ d
unfolding get without
without_absent end k h = refl
without_absent (field i w d) k h = ground (arith, without_absent d k)

pub without-set : (d : Dict) (k : String) (v : Value) → without (set d k v) k ≡ without d k
unfolding set without
without-set end k v = ground (arith, eq_iff k k)
without-set (field i w d) k v = ground (arith, without-set d k v, eq_iff i k)

pub without_idem : (d : Dict) (k : String) → without (without d k) k ≡ without d k
unfolding without
without_idem end k = refl
without_idem (field i w d) k = ground (arith, without_idem d k)

pub without_comm : (d : Dict) (k j : String) → without (without d k) j ≡ without (without d j) k
unfolding without
without_comm end k j = refl
without_comm (field i w d) k j = ground (arith, without_comm d k j)
