-- ===== src/Capability/Verify/Raising.antt =====
-- Which errors of a malformed token escape verify_capability.
use pact_passport.Base.{
  not, if◌then◌else◌, ℕ, ltb, ◌≡◌, ◌≢◌, ◌⊎◌, inl, inr, refl, subst, Bool, true, false, ◌&&◌, String,
  Option, none, some, List, [], ◌∷◌, arith, string_eq, eq_iff, ◌==◌, Bool-cases,
}
use pact_passport.Json.{Value, str, null, bool, int, arr, obj}
use pact_passport.Errors.{
  index_error, overflow_error, Error, raise, type_error, binascii_error, value_error, key_error,
  attenuation_violation,
}
use pact_passport.Platform.{Platform, Bytes, naive, aware, Datetime}
use pact_passport.Capability.{CapabilityToken, DelegationLink, Caveat}
use pact_passport.Capability.Verify.{
  holder_mismatch, revoked, missing_link_key, find_key, walk_start, no_known_keys, is_known,
  is_chained, Check, pass, reject, raised, ◌>>=◌, ◌>>◌, Reason, unless, or_reject, or_raised, Keys,
  Walk, verify_capability, verify_inner, check_signature, check_chain, check_link, check_step,
  walk_chain, check_final, check_expiry, past, expiry, to_result,
}

-- The value of an expires caveat whose comparison raises TypeError: it is no text, or a naive moment.
abbrev pub Unclear : Platform → Value → Type 0
Unclear p v =
    ((s : String) → v ≢ str s)
    ⊎ ((s : String) × (t : ℕ) × (v ≡ str s) × (p.fromisoformat s ≡ some (naive t)))

abbrev pub HasUnclear : Platform → List Caveat → Type 0
HasUnclear p [] = ⊥
HasUnclear p (c ∷ cs) = ((c.restrict ≡ "expires") × Unclear p c.value) ⊎ HasUnclear p cs

module _ (P : Error → Type 0) where
  abbrev Raises {ℓ} : {A : Type ℓ} → Check A → Type ℓ
  Raises m = (e : Error) → m ≡ raised e → P e

  Raises->>= {ℓ κ} :
      {A : Type ℓ} {B : Type κ} (m : Check A) (f : A → Check B)
      → Raises m
      → ((a : A) → Raises (f a))
      → Raises (m >>= f)
  Raises->>= (pass a) f h k e same = k a e same
  Raises->>= (reject r) f h k e same = ground arith
  Raises->>= (raised d) f h k e same = h e (cc same)

  Raises-unless : (b : Bool) (r : Reason) → Raises (unless b r)
  Raises-unless true r e same = ground arith
  Raises-unless false r e same = ground arith

  Raises-or_reject {ℓ} : {A : Type ℓ} (o : Option A) (r : Reason) → Raises (or_reject o r)
  Raises-or_reject none r e same = ground arith
  Raises-or_reject (some a) r e same = ground arith

  Raises-pass {ℓ} : {A : Type ℓ} (a : A) → Raises (pass a)
  Raises-pass a e same = ground arith

  module _ (binascii : P binascii_error) where
    Raises-or_raised {ℓ} : {A : Type ℓ} (o : Option A) → Raises (or_raised o binascii_error)
    Raises-or_raised none e same = subst P (ground arith) binascii
    Raises-or_raised (some a) e same = ground arith

    module _ (p : Platform) where
      Raises-check_step :
          (parent agent : String) (sig key : Bytes) (o a : Option String)
          (cs : Option (List Caveat)) (w : Walk)
          → Raises (check_step p parent agent sig key o a cs w)
      unfolding check_step
      Raises-check_step parent agent sig key none a cs w e same = ground arith
      Raises-check_step parent agent sig key (some i) none cs w e same = ground arith
      Raises-check_step parent agent sig key (some i) (some a) none w e same = ground arith
      Raises-check_step parent agent sig key (some i) (some a) (some cs) w e same = ground arith

      Raises-walk_chain :
          (known : Keys) (parent : String) (ls : List DelegationLink) (w : Walk)
          → Raises (walk_chain p known parent ls w)
      unfolding walk_chain check_link
      Raises-walk_chain known parent [] w = Raises-pass w
      Raises-walk_chain known parent (l ∷ ls) w =
          Raises->>= (check_link p known parent l w) _
            (Raises->>= (or_reject (find_key known l.from_agent) (missing_link_key l.from_agent)) _
              (Raises-or_reject (find_key known l.from_agent) (missing_link_key l.from_agent))
              (λ key.
                Raises->>= (or_raised (p.b64decode l.sig) binascii_error) _
                  (Raises-or_raised (p.b64decode l.sig))
                  (λ sig.
                    Raises-check_step parent l.from_agent sig key l.parent_cap_id l.action_at_step
                      l.caveats_at_step w)))
            (λ u. Raises-walk_chain known parent ls u)

      Raises-check_final : (t : CapabilityToken) (w : Walk) → Raises (check_final p t w)
      unfolding check_final
      Raises-check_final t w e same = ground arith

      Raises-check_chain :
          (known : Keys) (t : CapabilityToken) (ls : List DelegationLink) (o : Option String)
          → Raises (check_chain p known t ls o)
      unfolding check_chain
      Raises-check_chain known t [] o = Raises-pass tt
      Raises-check_chain known t (l ∷ ls) none = Raises-pass tt
      Raises-check_chain known t (l ∷ ls) (some q) =
          elim (q == "")
            as (λ b. Raises (
              if b then pass tt else (do
                unless (is_known known) no_known_keys
                w ← walk_chain p known q (l ∷ ls) walk_start
                check_final p t w))) [
                  | true ↦ Raises-pass tt
                  | false ↦
                      Raises->>= (unless (is_known known) no_known_keys) _ (Raises-unless _ _) (λ _.
                        Raises->>= (walk_chain p known q (l ∷ ls) walk_start) _
                          (Raises-walk_chain known q (l ∷ ls) walk_start)
                          (λ u. Raises-check_final t u))
                ]

      Raises-check_signature :
          (known : Keys) (issuer_key : Bytes) (t : CapabilityToken) (ls : List DelegationLink)
          (sig : Bytes)
          → Raises (check_signature p known issuer_key t ls sig)
      unfolding check_signature
      Raises-check_signature known issuer_key t [] sig e same = ground arith
      Raises-check_signature known issuer_key t (l ∷ ls) sig e same = ground arith

      Raises-rest :
          (skip : Bool) (now : ℕ) (t : CapabilityToken) (issuer_key : Bytes) (known : Keys)
          → Raises (check_expiry p now t.caveats)
          → Raises (
              if skip then pass tt else (do
                sig ← or_raised (p.b64decode t.signature) binascii_error
                check_signature p known issuer_key t t.delegation_chain sig
                check_chain p known t t.delegation_chain t.parent
                check_expiry p now t.caveats))
      Raises-rest true now t issuer_key known h = Raises-pass tt
      Raises-rest false now t issuer_key known h =
          Raises->>= (or_raised (p.b64decode t.signature) binascii_error) _ (Raises-or_raised _)
            (λ sig.
              Raises->>= (check_signature p known issuer_key t t.delegation_chain sig) _
                (Raises-check_signature known issuer_key t t.delegation_chain sig)
                (λ _.
                  Raises->>= (check_chain p known t t.delegation_chain t.parent) _
                    (Raises-check_chain known t t.delegation_chain t.parent) (λ _. h)))

      Raises-verify_inner :
          (abl_chain : Bool) (now : ℕ) (t : CapabilityToken) (expected : String)
          (issuer_key : Bytes) (known : Keys)
          → Raises (check_expiry p now t.caveats)
          → Raises (verify_inner p abl_chain now t expected issuer_key known)
      unfolding verify_inner
      Raises-verify_inner abl_chain now t expected issuer_key known h =
          Raises->>= (unless (not t.revoked) revoked) _ (Raises-unless _ _) (λ _.
            Raises->>= (unless (t.holder == expected) (holder_mismatch expected t.holder)) _
              (Raises-unless _ _)
              (λ _.
                Raises-rest (abl_chain && is_chained t.delegation_chain) now t issuer_key known h))

module _ (p : Platform) (now : ℕ) where
  past-Unclear :
      (s : String) (o : Option Datetime) (e : Error)
      → p.fromisoformat s ≡ o
      → past p now (str s) o ≡ raised e
      → (e ≢ value_error)
      → (e ≡ type_error) × Unclear p (str s)
  past-Unclear s none e h same other = absurd (other (ground arith))
  past-Unclear s (some (naive t)) e h same other = (ground arith, inr (s, t, refl, h))
  past-Unclear s (some (aware t)) e h same other = elim (ltb t now) [
    | true ↦ ground arith
    | false ↦ ground arith
  ]

  expiry-Unclear :
      (v : Value) (e : Error)
      → expiry p now v ≡ raised e
      → e ≢ value_error
      → (e ≡ type_error) × Unclear p v
  expiry-Unclear (str s) e same other = past-Unclear s (p.fromisoformat s) e refl same other
  expiry-Unclear null e same other = (ground arith, inl (λ s h. cc))
  expiry-Unclear (bool b) e same other = (ground arith, inl (λ s h. cc))
  expiry-Unclear (int n) e same other = (ground arith, inl (λ s h. cc))
  expiry-Unclear (arr xs) e same other = (ground arith, inl (λ s h. cc))
  expiry-Unclear (obj d) e same other = (ground arith, inl (λ s h. cc))

  either :
      (m k : Check (Unit {0})) (e : Error) → (m >> k) ≡ raised e → (m ≡ raised e) ⊎ (k ≡ raised e)
  either (pass u) k e h = inr h
  either (reject r) k e h = cc
  either (raised d) k e h = inl h

  check_expiry-Unclear :
      (cs : List Caveat) (e : Error)
      → check_expiry p now cs ≡ raised e
      → e ≢ value_error
      → (e ≡ type_error) × HasUnclear p cs
  unfolding check_expiry
  check_expiry-Unclear [] e h other = cc
  check_expiry-Unclear (c ∷ cs) e h other = elim (Bool-cases (c.restrict == "expires")) [
    | inl q ↦ elim (either (expiry p now c.value) (check_expiry p now cs) e (rw q at h)) [
      | inl now_raised ↦
          let (same, unclear) = expiry-Unclear c.value e now_raised other in
          (same, inl ((eq_iff c.restrict "expires").0 q, unclear))
      | inr later ↦ let (same, rest) = check_expiry-Unclear cs e later other in (same, inr rest)
    ]
    | inr q ↦ let (same, rest) = check_expiry-Unclear cs e (rw q at h) other in (same, inr rest)
  ]

  to_result-raise :
      (m : Check (Unit {0})) (e : Error)
      → to_result m ≡ raise e
      → (m ≡ raised e) × (e ≢ binascii_error) × (e ≢ value_error)
  unfolding to_result
  to_result-raise (pass u) e h = cc
  to_result-raise (reject r) e h = cc
  to_result-raise (raised key_error) e h = ground arith
  to_result-raise (raised type_error) e h = ground arith
  to_result-raise (raised value_error) e h = cc
  to_result-raise (raised binascii_error) e h = cc
  to_result-raise (raised attenuation_violation) e h = ground arith
  to_result-raise (raised index_error) e h = ground arith
  to_result-raise (raised overflow_error) e h = ground arith

  -- On a token whose fields have the types that the dataclasses declare, where a caveat's value may be any
  -- JSON value, the only exception that verify_capability lets through is TypeError, and then an expires
  -- caveat holds a value that is no text or a naive moment.
  pub verify_capability-raise :
      (abl_chain : Bool) (t : CapabilityToken) (expected : String) (issuer_key : Bytes)
      (known : Keys) (e : Error)
      → verify_capability p abl_chain now t expected issuer_key known ≡ raise e
      → (e ≡ type_error) × HasUnclear p t.caveats
  unfolding verify_capability
  verify_capability-raise abl_chain t expected issuer_key known e h =
      let (same, not_binascii, not_value) = to_result-raise _ e h in
      Raises-verify_inner
        (λ d. (d ≢ binascii_error) → (d ≢ value_error) → (d ≡ type_error) × HasUnclear p t.caveats)
        (λ no _. absurd (no refl)) p abl_chain now t expected issuer_key known
        (λ d raises _ other. check_expiry-Unclear t.caveats d raises other) e same not_binascii
        not_value
