-- ===== src/Capability/Verify/Accepted.antt =====
-- What an accepted capability has passed, and the exact condition for a root capability.
use pact_passport.Errors.{Error}
use pact_passport.Json.Canonical.{canonical_json}
use pact_passport.Capability.Dicts.{signable_dict}
use pact_passport.Base.{
  sym, subst, ◌↔◌, [], not, ℕ, ◌≡◌, refl, true, false, Bool, String, Option, none, some, arith,
  eq_iff, string_eq,
}
use pact_passport.Platform.{Platform, Bytes}
use pact_passport.Capability.{CapabilityToken}
use pact_passport.Capability.Verify.{
  or_reject, bad_signature, Reason, pass, unless, or_raised, Keys, check_signature, check_chain,
  verify_inner, verify_capability,
}
use pact_passport.Capability.Verify.Steps.{
  >>=-eq-pass, accepted, to_result-accepted, accepted-to_result, Unexpired, check_expiry-Unexpired,
  Unexpired-check_expiry,
}

pub unless-pass : (b : Bool) (r : Reason) (u : Unit {0}) → unless b r ≡ pass u → b ≡ true
unless-pass true r u h = refl
unless-pass false r u h = cc

not-eq_true : (b : Bool) → not b ≡ true → b ≡ false
not-eq_true b h = ground arith

pub or_reject-pass {ℓ} :
    {A : Type ℓ} (o : Option A) (r : Reason) {a : A} → or_reject o r ≡ pass a → o ≡ some a
or_reject-pass none r h = cc
or_reject-pass (some b) r h = ground arith

pub or_raised-pass {ℓ} :
    {A : Type ℓ} (o : Option A) (e : Error) {a : A} → or_raised o e ≡ pass a → o ≡ some a
or_raised-pass none e h = cc
or_raised-pass (some b) e h = ground arith

module _ (p : Platform) (now : ℕ) (t : CapabilityToken) (expected : String) (issuer_key : Bytes)
    (known : Keys) where
  -- The checks that an accepted capability has passed.
  pub record Parts : Type 0 where
    pub live : t.revoked ≡ false
    pub held : t.holder ≡ expected
    pub sig : Bytes
    pub decoded : p.b64decode t.signature ≡ some sig
    pub signed : check_signature p known issuer_key t t.delegation_chain sig ≡ pass tt
    pub chained : check_chain p known t t.delegation_chain t.parent ≡ pass tt
    pub fresh : Unexpired p now t.caveats

  pub verify_capability-Parts :
      verify_capability p false now t expected issuer_key known ≡ accepted → Parts
  unfolding verify_capability verify_inner
  verify_capability-Parts h =
      let (_, live, h1) = >>=-eq-pass _ _ (to_result-accepted _ h) in
      let (_, held, h2) = >>=-eq-pass _ _ h1 in
      let (sig, decoded, h3) = >>=-eq-pass _ _ h2 in
      let (_, signed, h4) = >>=-eq-pass _ _ h3 in
      let (_, chained, h5) = >>=-eq-pass _ _ h4 in
      record {
        live = not-eq_true t.revoked (unless-pass _ _ _ live);
        held = (eq_iff t.holder expected).0 (unless-pass _ _ _ held);
        sig = sig;
        decoded = or_raised-pass _ _ decoded;
        signed = signed;
        chained = chained;
        fresh = check_expiry-Unexpired p now t.caveats h5;
      }

  pub Parts-verify_capability :
      Parts → verify_capability p false now t expected issuer_key known ≡ accepted
  unfolding verify_capability verify_inner
  Parts-verify_capability h = accepted-to_result _ (
      simp (h.live, (eq_iff t.holder expected).1 h.held, h.decoded, h.signed, h.chained)
        (Unexpired-check_expiry p now t.caveats h.fresh))

  -- The conditions on a root capability, in the terms of its fields.
  pub record RootAccepted : Type 0 where
    pub live : t.revoked ≡ false
    pub held : t.holder ≡ expected
    pub sig : Bytes
    pub decoded : p.b64decode t.signature ≡ some sig
    pub signed : p.verify (canonical_json (signable_dict t)) sig issuer_key ≡ true
    pub fresh : Unexpired p now t.caveats

  root_parts : t.delegation_chain ≡ [] → Parts ↔ RootAccepted
  unfolding check_signature check_chain
  root_parts root = (
    λ h. record {
      live = h.live;
      held = h.held;
      sig = h.sig;
      decoded = h.decoded;
      signed =
          unless-pass _ bad_signature tt
            (subst (λ ls. check_signature p known issuer_key t ls h.sig ≡ pass tt) root h.signed);
      fresh = h.fresh;
    },
    λ h. record {
      live = h.live;
      held = h.held;
      sig = h.sig;
      decoded = h.decoded;
      signed =
          subst (λ ls. check_signature p known issuer_key t ls h.sig ≡ pass tt) (sym root)
            (rw h.signed);
      chained = subst (λ ls. check_chain p known t ls t.parent ≡ pass tt) (sym root) refl;
      fresh = h.fresh;
    },
  )

  -- A root capability is accepted exactly if it is not revoked, its holder is the expected one, its
  -- signature decodes to a signature by the issuer over its signable dict, and every expires caveat
  -- holds an aware moment that is not past.
  pub verify_capability-root :
      t.delegation_chain ≡ []
      → (verify_capability p false now t expected issuer_key known ≡ accepted) ↔ RootAccepted
  verify_capability-root root = (
    λ h. (root_parts root).0 (verify_capability-Parts h),
    λ h. Parts-verify_capability ((root_parts root).1 h),
  )
