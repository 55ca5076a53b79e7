-- ===== src/Capability/Issue/Laws.antt =====
-- What issue_capability and attenuate return.
use pact_passport.Base.{
  ap, subst, sym, ◌≡◌, refl, false, String, some, List, [], ◌∷◌, ◌++◌, arith, eq_iff, string_eq,
}
use pact_passport.Json.{without}
use pact_passport.Errors.{require-eq-ok, ok, >>=-eq-ok}
use pact_passport.Platform.{Platform, Bytes}
use pact_passport.Json.Canonical.{canonical_json}
use pact_passport.Capability.{Caveat, CapabilityToken, DelegationLink}
use pact_passport.Capability.Dicts.{signable_dict, token_to_dict}
use pact_passport.Capability.Issue.{
  is_terminal, sign_token, child_token, attenuate, new_link, link_payload,
}
use pact_passport.Capability.Issue.Narrower.{not-eq_true, checked-Narrower, Narrower}

-- The signature is no part of what is signed.
pub signable_dict-sign_token :
    (p : Platform) (key : Bytes) (t : CapabilityToken)
    → signable_dict (sign_token p key t) ≡ signable_dict t
unfolding signable_dict sign_token token_to_dict without
signable_dict-sign_token p key t = refl

module _ (p : Platform) where
  module _ (parent : CapabilityToken) (key : Bytes) (delegator new_holder : String)
      (additional : List Caveat) (cap_id : String) where
    abbrev all_caveats : List Caveat
    all_caveats = parent.caveats ++ additional

    -- The link that the child's chain ends in: the delegator's signature over the parent's identifier and
    -- action and over all the caveats of the child.
    pub record LastLink (l : DelegationLink) : Type 0 where
      pub from_agent : l.from_agent ≡ delegator
      pub parent_cap_id : l.parent_cap_id ≡ some parent.cap_id
      pub action_at_step : l.action_at_step ≡ some parent.action
      pub caveats_at_step : l.caveats_at_step ≡ some all_caveats
      pub signed :
          l.sig
          ≡ p.b64encode
              (p.sign (canonical_json (link_payload parent.cap_id parent.action all_caveats)) key)

    -- What the child is.
    pub record Child (child : CapabilityToken) : Type 0 where
      pub names :
          (child.cap_id ≡ cap_id) × (child.issuer ≡ parent.issuer) × (child.holder ≡ new_holder)
      pub action : child.action ≡ parent.action
      pub caveats : child.caveats ≡ all_caveats
      pub parent_id : child.parent ≡ some parent.cap_id
      pub chain :
          (l : DelegationLink) × (child.delegation_chain ≡ parent.delegation_chain ++ (l ∷ []))
          × LastLink l
      pub plain : (child.revoked ≡ false) × (child.visa ≡ false)
      pub signed : child.signature ≡ p.b64encode (p.sign (canonical_json (signable_dict child)) key)

    -- What a successful attenuation has checked and returns.
    pub record Attenuated (child : CapabilityToken) : Type 0 where
      pub open_ended : is_terminal parent.caveats ≡ false
      pub held : parent.holder ≡ delegator
      pub narrower : Narrower parent.caveats additional
      pub made : Child child

    abbrev pub attenuated_token : CapabilityToken
    attenuated_token =
        sign_token p key (child_token p parent key delegator new_holder all_caveats cap_id)

    attenuated-Child : Child attenuated_token
    unfolding new_link sign_token
    attenuated-Child = record {
      names = (refl, refl, refl);
      action = refl;
      caveats = refl;
      parent_id = refl;
      chain = (
        new_link p parent key delegator all_caveats,
        refl,
        record {
          from_agent = refl;
          parent_cap_id = refl;
          action_at_step = refl;
          caveats_at_step = refl;
          signed = refl;
        },
      );
      plain = (refl, refl);
      signed =
          ap (λ d. p.b64encode (p.sign (canonical_json d) key))
            (sym (
              signable_dict-sign_token p key
                (child_token p parent key delegator new_holder all_caveats cap_id)));
    }

    pub attenuate-token :
        (child : CapabilityToken)
        → attenuate p parent key delegator new_holder additional cap_id ≡ ok child
        → (is_terminal parent.caveats ≡ false)
          × (parent.holder ≡ delegator)
          × Narrower parent.caveats additional
          × (attenuated_token ≡ child)
    unfolding attenuate
    attenuate-token child h =
        let (_, valid, h1) = >>=-eq-ok _ _ h in
        let (_, open_ended, h2) = >>=-eq-ok _ _ h1 in
        let (_, held, h3) = >>=-eq-ok _ _ h2 in
        let (_, narrow, h4) = >>=-eq-ok _ _ h3 in
        (
          not-eq_true _ (require-eq-ok _ _ open_ended),
          (eq_iff parent.holder delegator).0 (require-eq-ok _ _ held),
          checked-Narrower p parent.caveats additional valid narrow,
          ground (arith, h4),
        )

    -- A successful attenuate was asked by the holder of a parent that allows delegation, with invocation
    -- bounds that are ints from 1 up to every bound of the parent. The child it returns has the parent's
    -- issuer and action, the new holder, the parent's identifier as its parent, the parent's caveats
    -- followed by the additional ones, and the parent's chain followed by one link: the delegator's, signed
    -- over the parent's identifier and action and all those caveats. It is neither revoked nor a visa, and
    -- its signature is the delegator's.
    pub attenuate-Attenuated :
        (child : CapabilityToken)
        → attenuate p parent key delegator new_holder additional cap_id ≡ ok child
        → Attenuated child
    attenuate-Attenuated child h =
        let (open_ended, held, narrower, built) = attenuate-token child h in
        record {
          open_ended = open_ended;
          held = held;
          narrower = narrower;
          made = subst Child built attenuated-Child;
        }
