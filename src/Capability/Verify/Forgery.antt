-- ===== src/Capability/Verify/Forgery.antt =====
-- What verify_capability does not check, and where it raises.
use pact_passport.Base.{
  ℕ, ◌≡◌, refl, sym, subst, true, false, String, none, some, List, [], ◌∷◌, string_eq,
}
use pact_passport.Json.Canonical.{canonical_json}
use pact_passport.Platform.{Platform, Bytes, IsLawful}
use pact_passport.Capability.{CapabilityToken, DelegationLink}
use pact_passport.Capability.Dicts.{signable_dict}
use pact_passport.Capability.Issue.{sign_token}
use pact_passport.Capability.Issue.Laws.{signable_dict-sign_token}
use pact_passport.Capability.Verify.{
  last_delegator, pass, Keys, find_key, verify_capability, check_signature, check_chain,
}
use pact_passport.Capability.Verify.Steps.{accepted, Unexpired}
use pact_passport.Capability.Verify.Accepted.{Parts-verify_capability}

module _ (p : Platform) (law : IsLawful p) (now : ℕ) (known : Keys) (key : Bytes)
    (peer : String) where
  alone :
      (issuer_key : Bytes) (c : CapabilityToken) (ls : List DelegationLink) (l : DelegationLink)
      (sig : Bytes)
      → find_key known peer ≡ some (p.public_key key)
      → ls ≡ (l ∷ [])
      → l.from_agent ≡ peer
      → p.verify (canonical_json (signable_dict c)) sig (p.public_key key) ≡ true
      → (check_signature p known issuer_key c ls sig ≡ pass tt)
        × (check_chain p known c ls none ≡ pass tt)
  unfolding check_signature check_chain last_delegator
  alone issuer_key c ls l sig found one e h = rw one (simp (e, found, h), refl)

  -- Whoever has a key that the verifier knows can sign a token that names any issuer, any holder and
  -- any action, with one link of its own and no parent, and verify_capability accepts it, whatever the
  -- key of the issuer is: the first link is not tied to the issuer.
  pub verify_capability-unrooted :
      (t : CapabilityToken) (l : DelegationLink) (issuer_key : Bytes)
      → find_key known peer ≡ some (p.public_key key)
      → l.from_agent ≡ peer
      → t.delegation_chain ≡ (l ∷ [])
      → t.parent ≡ none
      → t.revoked ≡ false
      → Unexpired p now t.caveats
      → verify_capability p false now (sign_token p key t) t.holder issuer_key known ≡ accepted
  unfolding sign_token
  verify_capability-unrooted t l issuer_key found e one orphan live fresh =
      let good =
        alone issuer_key (sign_token p key t) t.delegation_chain l
          (p.sign (canonical_json (signable_dict t)) key) found one e
          (rw (signable_dict-sign_token p key t) (law.verify-sign _ key)) in
      Parts-verify_capability p now (sign_token p key t) t.holder issuer_key known (record {
        live = live;
        held = refl;
        sig = p.sign (canonical_json (signable_dict t)) key;
        decoded = law.b64decode-b64encode _;
        signed = good.0;
        chained =
            subst (λ o. check_chain p known (sign_token p key t) t.delegation_chain o ≡ pass tt)
              (sym orphan) good.1;
        fresh = fresh;
      })
