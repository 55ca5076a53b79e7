-- ===== src/Capability/Verify/Steps.antt =====
-- What a passing check says.
use pact_passport.Base.{
  sym, ◌∙◌, fun_ext, ap, Bool-cases, ℕ, ◌≤◌, ◌≡◌, refl, true, inl, inr, String, Option, none, some,
  List, [], ◌∷◌, ◌++◌, arith, eq_iff, ◌==◌, string_eq,
}
use pact_passport.Json.{Value, null, bool, int, str, arr, obj}
use pact_passport.Errors.{Result, ok}
use pact_passport.Platform.{Platform, Bytes, Datetime, aware, naive}
use pact_passport.Capability.{Caveat, DelegationLink}
use pact_passport.Capability.Verify.{
  Check, pass, reject, raised, ◌>>=◌, CapabilityResult, to_result, past, expiry, check_expiry, Keys,
  find_key, Walk, walk_chain, check_link, last_delegator, is_known,
}

pub >>=-eq-pass {ℓ κ} :
    {A : Type ℓ} {B : Type κ} (m : Check A) (f : A → Check B) {b : B}
    → (m >>= f) ≡ pass b
    → (a : A) × (m ≡ pass a) × (f a ≡ pass b)
>>=-eq-pass (pass a) f h = (a, refl, h)
>>=-eq-pass (reject r) f h = cc
>>=-eq-pass (raised e) f h = cc

abbrev pub accepted : Result CapabilityResult
accepted = ok (record { valid = true; reason = none })

pub to_result-accepted : (c : Check (Unit {0})) → to_result c ≡ accepted → c ≡ pass tt
unfolding to_result
to_result-accepted (pass u) h = refl
to_result-accepted (reject r) h = ground arith
to_result-accepted (raised e) h = ground arith

pub accepted-to_result : (c : Check (Unit {0})) → c ≡ pass tt → to_result c ≡ accepted
unfolding to_result
accepted-to_result c h = rw h

-- Every `expires` caveat holds an aware moment that is not past.
abbrev pub Unexpired : Platform → ℕ → List Caveat → Type 0
Unexpired p now [] = Unit {0}
Unexpired p now (c ∷ cs) =
    (c.restrict ≡ "expires"
      → (s : String) × (t : ℕ) × (c.value ≡ str s)
        × (p.fromisoformat s ≡ some (aware t))
        × (now ≤ t))
    × Unexpired p now cs

module _ (p : Platform) (now : ℕ) where
  abbrev Ahead : Value → Type 0
  Ahead v = (s : String) × (t : ℕ) × (v ≡ str s) × (p.fromisoformat s ≡ some (aware t)) × (now ≤ t)

  past-pass :
      (s : String) (o : Option Datetime)
      → p.fromisoformat s ≡ o
      → past p now (str s) o ≡ pass tt
      → Ahead (str s)
  past-pass s none e h = cc
  past-pass s (some (aware t)) e h = (s, t, refl, e, ground arith)
  past-pass s (some (naive t)) e h = cc

  expiry-pass : (v : Value) → expiry p now v ≡ pass tt → Ahead v
  expiry-pass (str s) h = past-pass s (p.fromisoformat s) refl h
  expiry-pass null h = cc
  expiry-pass (bool b) h = cc
  expiry-pass (int n) h = cc
  expiry-pass (arr xs) h = cc
  expiry-pass (obj d) h = cc

  Ahead-expiry : (v : Value) → Ahead v → expiry p now v ≡ pass tt
  Ahead-expiry v (s, t, e, parsed, ahead) = rw (e, parsed) (ground arith)

  pub check_expiry-Unexpired :
      (cs : List Caveat) → check_expiry p now cs ≡ pass tt → Unexpired p now cs
  unfolding check_expiry
  check_expiry-Unexpired [] h = tt
  check_expiry-Unexpired (c ∷ cs) h = elim (Bool-cases (c.restrict == "expires")) [
    | inl e ↦
        let parts = >>=-eq-pass (expiry p now c.value) (λ _. check_expiry p now cs) (rw e at h) in
        (λ _. expiry-pass c.value parts.1, check_expiry-Unexpired cs parts.2)
    | inr e ↦ (
      λ same. cc (e, (eq_iff c.restrict "expires").1 same),
      check_expiry-Unexpired cs (rw e at h),
    )
  ]

  pub Unexpired-check_expiry :
      (cs : List Caveat) → Unexpired p now cs → check_expiry p now cs ≡ pass tt
  unfolding check_expiry
  Unexpired-check_expiry [] h = refl
  Unexpired-check_expiry (c ∷ cs) h = elim (Bool-cases (c.restrict == "expires")) [
    | inl e ↦
        rw (e, Ahead-expiry c.value (h.0 ((eq_iff c.restrict "expires").0 e)))
          (Unexpired-check_expiry cs h.1)
    | inr e ↦ rw e (Unexpired-check_expiry cs h.1)
  ]

  pub Unexpired-append :
      (cs ds : List Caveat) → Unexpired p now cs → Unexpired p now ds → Unexpired p now (cs ++ ds)
  Unexpired-append [] ds h k = k
  Unexpired-append (c ∷ cs) ds h k = (h.0, Unexpired-append cs ds h.1 k)

pub last_delegator-append :
    (k : DelegationLink) (ls : List DelegationLink) (l : DelegationLink)
    → last_delegator k (ls ++ (l ∷ [])) ≡ l.from_agent
unfolding last_delegator
last_delegator-append k [] l = refl
last_delegator-append k (m ∷ ls) l = last_delegator-append m ls l

pub find_key-is_known :
    (ks : Keys) (a : String) {k : Bytes} → find_key ks a ≡ some k → is_known ks ≡ true
unfolding find_key
find_key-is_known [] a h = ground arith
find_key-is_known (k ∷ ks) a h = refl

>>=_assoc {ℓ κ μ} :
    {A : Type ℓ} {B : Type κ} {C : Type μ} (m : Check A) (f : A → Check B) (g : B → Check C)
    → (m >>= f >>= g) ≡ (m >>= λ a. f a >>= g)
>>=_assoc (pass a) f g = refl
>>=_assoc (reject r) f g = refl
>>=_assoc (raised e) f g = refl

>>=_pass {ℓ} : {A : Type ℓ} (m : Check A) → (m >>= λ a. pass a) ≡ m
>>=_pass (pass a) = refl
>>=_pass (reject r) = refl
>>=_pass (raised e) = refl

pub walk_chain-append :
    (p : Platform) (known : Keys) (parent : String) (ls : List DelegationLink) (l : DelegationLink)
    (w : Walk)
    → walk_chain p known parent (ls ++ (l ∷ [])) w
      ≡ (walk_chain p known parent ls w >>= check_link p known parent l)
unfolding walk_chain
walk_chain-append p known parent [] l w = >>=_pass (check_link p known parent l w)
walk_chain-append p known parent (k ∷ ls) l w =
    ap (λ f. check_link p known parent k w >>= f)
      (fun_ext (λ v. walk_chain-append p known parent ls l v))
    ∙ sym (>>=_assoc (check_link p known parent k w) _ _)
