-- ===== src/Capability/Issue/Narrower.antt =====
-- The bounds on invocations that attenuate has checked.
use pact_passport.Base.{
  ap, subst, sym, pos, inr, inl, ℤ, leb_ℤ, ◌≡◌, ◌⊎◌, refl, true, false, Bool, not, Option, none,
  some, List, [], ◌∷◌, arith, eq_iff, string_eq, if◌then◌else◌, leb_ℤ_refl, leb_ℤ_trans,
  leb_ℤ_total,
}
use pact_passport.Json.{Value, null, bool, int, str, arr, obj}
use pact_passport.Errors.{
  require-eq-ok, ok, ◌>>=◌, require, >>=-eq-ok, value_error, attenuation_violation,
}
use pact_passport.Platform.{Platform}
use pact_passport.Capability.{Caveat}
use pact_passport.Capability.Issue.{
  is_positive_int, check_caveat, number_lt, py_lt, py_min, as_int, check_narrow, check_narrowing,
  values_of, validate_caveats,
}

pub not-eq_true : (b : Bool) → not b ≡ true → b ≡ false
not-eq_true b h = ground arith

not-eq_false : (b : Bool) → not b ≡ false → b ≡ true
not-eq_false b h = ground arith

-- `n` is at most every one of the values, which are all ints.
abbrev pub AtMost : ℤ → List Value → Type 0
AtMost n [] = Unit {0}
AtMost n (v ∷ vs) = ((m : ℤ) × (as_int v ≡ some m) × (leb_ℤ n m ≡ true)) × AtMost n vs

AtMost-trans : (a b : ℤ) (vs : List Value) → leb_ℤ a b ≡ true → AtMost b vs → AtMost a vs
AtMost-trans a b [] h k = tt
AtMost-trans a b (v ∷ vs) h k =
    ((k.0.0, k.0.1, leb_ℤ_trans a b k.0.0 h k.0.2), AtMost-trans a b vs h k.1)

number_lt-eq-ok :
    (o q : Option ℤ) {b : Bool}
    → number_lt o q ≡ ok b
    → (a : ℤ) × (c : ℤ) × (o ≡ some a) × (q ≡ some c) × (b ≡ not (leb_ℤ c a))
number_lt-eq-ok none q h = cc
number_lt-eq-ok (some a) none h = cc
number_lt-eq-ok (some a) (some c) h = (a, c, refl, refl, ground arith)

-- Two values that can be compared are both texts or both ints.
py_lt-eq-ok :
    (v w : Value) {b : Bool}
    → py_lt v w ≡ ok b
    → ((as_int v ≡ none) × (as_int w ≡ none))
      ⊎ ((a : ℤ) × (c : ℤ) × (as_int v ≡ some a) × (as_int w ≡ some c) × (b ≡ not (leb_ℤ c a)))
unfolding py_lt
py_lt-eq-ok (str s) (str t) h = inl (refl, refl)
py_lt-eq-ok (str s) _ h = inr (number_lt-eq-ok _ _ h)
py_lt-eq-ok _ w h = inr (number_lt-eq-ok _ _ h)

chosen_least :
    (m v : Value) (less : Bool) (a : ℤ) (vs : List Value)
    → py_lt v m ≡ ok less
    → AtMost a ((if less then v else m) ∷ vs)
    → AtMost a (m ∷ v ∷ vs)
chosen_least m v true a vs h k = elim (py_lt-eq-ok v m h) [
  | inl (e, _) ↦ cc (e, k.0.1)
  | inr (x, y, vx, my, lt) ↦
      let ax : leb_ℤ a x ≡ true = ground (arith, vx, k.0.1, k.0.2) in
      let xy : leb_ℤ x y ≡ true = leb_ℤ_total y x (not-eq_true (leb_ℤ y x) (sym lt)) in
      ((y, my, leb_ℤ_trans a x y ax xy), ((x, vx, ax), k.1))
]
chosen_least m v false a vs h k = elim (py_lt-eq-ok v m h) [
  | inl (_, e) ↦ cc (e, k.0.1)
  | inr (x, y, vx, my, lt) ↦
      let ay : leb_ℤ a y ≡ true = ground (arith, my, k.0.1, k.0.2) in
      let yx : leb_ℤ y x ≡ true = not-eq_false (leb_ℤ y x) (sym lt) in
      ((y, my, ay), ((x, vx, leb_ℤ_trans a y x ay yx), k.1))
]

py_min-AtMost :
    (m : Value) (vs : List Value) (r : Value) (a : ℤ)
    → py_min m vs ≡ ok r
    → as_int r ≡ some a
    → AtMost a (m ∷ vs)
unfolding py_min
py_min-AtMost m [] r a h e = ((a, ground arith, leb_ℤ_refl a), tt)
py_min-AtMost m (v ∷ vs) r a h e =
    let (less, compared, rest) =
      >>=-eq-ok (py_lt v m) (λ less. py_min (if less then v else m) vs) h in
    chosen_least m v less a vs compared (py_min-AtMost (if less then v else m) vs r a rest e)

-- The loop over the additional caveats, for those that bound the invocations.
check_narrow-AtMost :
    (vs : List Value) (c : Caveat) (n : ℤ) {u : Unit {0}}
    → c.restrict ≡ "max_invocations"
    → c.value ≡ int n
    → check_narrow vs c ≡ ok u
    → AtMost n vs
unfolding check_narrow
check_narrow-AtMost [] c n e w h = tt
check_narrow-AtMost (v ∷ vs) c n {u} e w h =
    let test = λ (least : Value).
      py_lt least c.value >>= λ wider. require (not wider) attenuation_violation in
    let body : (py_min v vs >>= test) ≡ ok u =
      rw ((eq_iff c.restrict "max_invocations").1 e) at h in
    let (least, found, h1) = >>=-eq-ok (py_min v vs) test body in
    let (wider, compared, h2) =
      >>=-eq-ok (py_lt least c.value) (λ wider. require (not wider) attenuation_violation) h1 in
    elim (py_lt-eq-ok least c.value compared) [
      | inl (_, none_int) ↦ cc (ap as_int w, none_int)
      | inr (a, m, least_int, value_int, lt) ↦
          AtMost-trans n a (v ∷ vs)
            (ground (
              arith,
              ap as_int w,
              value_int,
              lt,
              require-eq-ok (not wider) attenuation_violation h2,
            ))
            (py_min-AtMost v vs least a found least_int)
    ]

-- Each caveat is an int n ≥ 1 at most the bounds in force, if it bounds the invocations.
abbrev pub Narrower : List Caveat → List Caveat → Type 0
Narrower parent [] = Unit {0}
Narrower parent (c ∷ cs) =
    (c.restrict ≡ "max_invocations"
      → (n : ℤ) × (c.value ≡ int n)
        × (leb_ℤ (pos 1) n ≡ true)
        × AtMost n (values_of "max_invocations" parent))
    × Narrower parent cs

is_positive_int-cases :
    (v : Value) → is_positive_int v ≡ true → (n : ℤ) × (v ≡ int n) × (leb_ℤ (pos 1) n ≡ true)
is_positive_int-cases null h = cc
is_positive_int-cases (bool b) h = cc
is_positive_int-cases (int n) h = (n, refl, h)
is_positive_int-cases (str s) h = cc
is_positive_int-cases (arr xs) h = cc
is_positive_int-cases (obj d) h = cc

module _ (p : Platform) where
  check_caveat-positive :
      (c : Caveat) {u : Unit {0}}
      → c.restrict ≡ "max_invocations"
      → check_caveat p c ≡ ok u
      → (n : ℤ) × (c.value ≡ int n) × (leb_ℤ (pos 1) n ≡ true)
  unfolding check_caveat
  check_caveat-positive c {u} e h =
      let body : require (is_positive_int c.value) value_error ≡ ok u =
        rw ((eq_iff c.restrict "max_invocations").1 e) at h in
      is_positive_int-cases c.value (require-eq-ok _ _ body)

  pub checked-Narrower :
      (parent cs : List Caveat) {u v : Unit {0}}
      → validate_caveats p cs ≡ ok u
      → check_narrowing parent cs ≡ ok v
      → Narrower parent cs
  unfolding validate_caveats check_narrowing
  checked-Narrower parent [] h k = tt
  checked-Narrower parent (c ∷ cs) h k =
      let (_, checked, hs) = >>=-eq-ok (check_caveat p c) (λ _. validate_caveats p cs) h in
      let (_, narrow, ks) =
        >>=-eq-ok (check_narrow (values_of c.restrict parent) c) (λ _. check_narrowing parent cs)
          k in
      (
        λ e.
            let (n, value, positive) = check_caveat-positive c e checked in
            (
              n,
              value,
              positive,
              subst (λ r. AtMost n (values_of r parent)) e
                  (check_narrow-AtMost (values_of c.restrict parent) c n e value narrow),
            ),
        checked-Narrower parent cs hs ks,
      )
