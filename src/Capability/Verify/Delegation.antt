-- ===== src/Capability/Verify/Delegation.antt =====
-- A capability that was issued, or attenuated from an accepted one, is accepted.
use pact_passport.Capability.Verify.Walked.{walk_chain-Walked, AllV13, IsV13}
use pact_passport.Json.Canonical.{canonical_json}
use pact_passport.Capability.Dicts.{signable_dict}
use pact_passport.Base.{
  is_subset-append_left, same_set_refl, is_subset_trans, ◌++◌, contains-nil, eq_refl, subset_of,
  fun_ext, ℕ, ◌≡◌, ◌≢◌, ◌⊎◌, inl, inr, refl, ap, subst, ◌∙◌, true, false, String, Option, none,
  some, List, [], ◌∷◌, arith, string_eq, ◌==◌, eq_iff, is_subset,
}
use pact_passport.Errors.{ok, >>=-eq-ok}
use pact_passport.Platform.{Platform, Bytes, IsLawful}
use pact_passport.Capability.{Caveat, CapabilityToken, DelegationLink}
use pact_passport.Capability.Keys.{CaveatKey, caveat_keys, key_eq}
use pact_passport.Capability.Issue.{
  child_token, new_link, attenuate, issue_capability, sign_token, root_token, validate_caveats,
}
use pact_passport.Capability.Issue.Laws.{attenuate-token, signable_dict-sign_token}
use pact_passport.Capability.Verify.{
  last_delegator, check_final, check_signature, find_key, Keys, Walk, walk_start, check_link,
  check_step, walk_chain, check_chain, verify_capability, pass, ◌>>=◌, keeps_action,
}
use pact_passport.Capability.Verify.Steps.{
  Unexpired-append, find_key-is_known, walk_chain-append, last_delegator-append, accepted,
  Unexpired,
}
use pact_passport.Capability.Verify.Accepted.{
  Parts-verify_capability, verify_capability-Parts, verify_capability-root,
}
use pact_passport.Capability.Verify.Monotone.{check_chain-walk, check_final-holds}

module _ (p : Platform) (law : IsLawful p) (now : ℕ) where
  pub signed_root :
      (key : Bytes) (r : CapabilityToken) (holder : String) (known : Keys)
      → r.revoked ≡ false
      → r.holder ≡ holder
      → r.delegation_chain ≡ []
      → Unexpired p now r.caveats
      → verify_capability p false now (sign_token p key r) holder (p.public_key key) known
        ≡ accepted
  unfolding sign_token
  signed_root key r holder known live held chain fresh =
      (verify_capability-root p now (sign_token p key r) holder (p.public_key key) known chain).1
        (record {
          live = live;
          held = held;
          sig = p.sign (canonical_json (signable_dict r)) key;
          decoded = law.b64decode-b64encode _;
          signed = rw (signable_dict-sign_token p key r) (law.verify-sign _ key);
          fresh = fresh;
        })

  -- A capability that issue_capability returns is accepted from its holder, under the issuer's public
  -- key, as long as each expires caveat holds an aware moment that is not past.
  pub issue-verify_capability :
      (key : Bytes) (issuer holder action cap_id : String) (caveats : List Caveat) (known : Keys)
      (t : CapabilityToken)
      → issue_capability p key issuer holder action caveats cap_id ≡ ok t
      → Unexpired p now caveats
      → verify_capability p false now t holder (p.public_key key) known ≡ accepted
  unfolding issue_capability
  issue-verify_capability key issuer holder action cap_id caveats known t h fresh =
      let root = root_token p cap_id issuer holder action caveats in
      let (_, _, e) = >>=-eq-ok (validate_caveats p caveats) (λ _. ok (sign_token p key root)) h in
      let same : sign_token p key root ≡ t = ground (arith, e) in
      subst (λ u. verify_capability p false now u holder (p.public_key key) known ≡ accepted) same
        (signed_root key root holder known refl refl refl fresh)

module _ (p : Platform) (known : Keys) where
  -- The walk's parent text is read by links older than v1.2 only.
  check_link-parent :
      (a b : String) (l : DelegationLink)
      → IsV13 l
      → (w : Walk) → check_link p known a l w ≡ check_link p known b l w
  unfolding check_link check_step
  check_link-parent a b l v w = simp (v.has_cap_id, v.has_action, v.has_caveats)

  walk_chain-parent :
      (a b : String) (ls : List DelegationLink)
      → AllV13 ls
      → (w : Walk) → walk_chain p known a ls w ≡ walk_chain p known b ls w
  unfolding walk_chain
  walk_chain-parent a b [] vs w = refl
  walk_chain-parent a b (l ∷ ls) vs w =
      ap (λ m. m >>= walk_chain p known a ls) (check_link-parent a b l vs.0.0 w)
      ∙ ap (λ f. check_link p known b l w >>= f) (fun_ext (λ u. walk_chain-parent a b ls vs.1 u))

  walk_chain-nil : (q : String) (w : Walk) → walk_chain p known q [] w ≡ pass w
  unfolding walk_chain
  walk_chain-nil q w = refl

  keeps_action-some : (o : Option String) (a : String) → o ≡ some a → keeps_action o a ≡ true
  keeps_action-some o a h = rw h (eq_refl a)

  -- The walk along a parent's chain ends in a state that the next link extends.
  check_chain-Extends :
      (t : CapabilityToken) (q : String) (ls : List DelegationLink) (parent : Option String)
      → AllV13 ls
      → (ls ≡ []) ⊎ ((parent ≢ none) × (parent ≢ some ""))
      → check_chain p known t ls parent ≡ pass tt
      → (u : Walk) × (walk_chain p known q ls walk_start ≡ pass u)
        × (keeps_action u.action t.action ≡ true)
        × (is_subset ⦃e = key_eq⦄ u.caveats (caveat_keys t.caveats) ≡ true)
        × (u.has_pre_v13 ≡ false)
  check_chain-Extends t q [] parent vs c h = (
    walk_start,
    walk_chain-nil q walk_start,
    refl,
    subset_of ⦃e = key_eq⦄ [] (caveat_keys t.caveats)
        (λ a m. absurd (contains-nil ⦃e = key_eq⦄ a m)),
    refl,
  )
  check_chain-Extends t q (l ∷ ls) parent vs (inl e) h = cc
  check_chain-Extends t q (l ∷ ls) parent vs (inr (has_parent, not_empty)) h =
      let (r, u, walked, final) = check_chain-walk p known t l ls parent has_parent not_empty h in
      let w = walk_chain-Walked p known r (l ∷ ls) vs walk_start u walked in
      let (a, named) = w.named refl in
      let (same, all) = check_final-holds p known t u a w.v13 w.pre_v13 named final in
      (
        u,
        walk_chain-parent q r (l ∷ ls) vs walk_start ∙ walked,
        keeps_action-some u.action t.action (named ∙ ap some same),
        all,
        w.pre_v13,
      )

-- The keys of a caveat list and of more caveats after it.
caveat_keys-append :
    (cs ds : List Caveat) → caveat_keys (cs ++ ds) ≡ caveat_keys cs ++ caveat_keys ds
unfolding caveat_keys
caveat_keys-append [] ds = refl
caveat_keys-append (c ∷ cs) ds = ground (arith, caveat_keys-append cs ds)

kept_keys :
    (keys : List CaveatKey) (cs ds : List Caveat)
    → is_subset ⦃e = key_eq⦄ keys (caveat_keys cs) ≡ true
    → is_subset ⦃e = key_eq⦄ keys (caveat_keys (cs ++ ds)) ≡ true
kept_keys keys cs ds h = rw (caveat_keys-append cs ds) (
    is_subset_trans ⦃e = key_eq⦄ keys (caveat_keys cs) (caveat_keys cs ++ caveat_keys ds) h
      (is_subset-append_left ⦃e = key_eq⦄ (caveat_keys cs) (caveat_keys ds)))

module _ (p : Platform) (law : IsLawful p) (known : Keys) (t : CapabilityToken) (key : Bytes)
    (delegator : String) (found : find_key known delegator ≡ some (p.public_key key)) where
  -- The new link extends the walk.
  check_link-new_link :
      (all : List Caveat) (u : Walk)
      → keeps_action u.action t.action ≡ true
      → is_subset ⦃e = key_eq⦄ u.caveats (caveat_keys all) ≡ true
      → check_link p known t.cap_id (new_link p t key delegator all) u
        ≡ pass (record u { action = some t.action; caveats = caveat_keys all; has_v13 = true })
  unfolding check_link check_step new_link
  check_link-new_link all u same more =
      simp (found, law.b64decode-b64encode, law.verify-sign, same, more)

  check_signature-append :
      (issuer_key : Bytes) (c : CapabilityToken) (ls : List DelegationLink) (l : DelegationLink)
      (sig : Bytes)
      → l.from_agent ≡ delegator
      → p.verify (canonical_json (signable_dict c)) sig (p.public_key key) ≡ true
      → check_signature p known issuer_key c (ls ++ (l ∷ [])) sig ≡ pass tt
  unfolding check_signature last_delegator
  check_signature-append issuer_key c [] l sig e h = simp (e, found, h)
  check_signature-append issuer_key c (k ∷ ls) l sig e h =
      simp (last_delegator-append k ls l, e, found, h)

  false_eq : (q : String) → q ≢ "" → (q == "") ≡ false
  false_eq q h = ground (arith, eq_iff q "")

  new_link-from_agent : (cs : List Caveat) → (new_link p t key delegator cs).from_agent ≡ delegator
  unfolding new_link
  new_link-from_agent cs = refl

  check_chain-append :
      (c : CapabilityToken) (ls : List DelegationLink) (l : DelegationLink) (q : String) (u : Walk)
      → q ≢ ""
      → walk_chain p known q (ls ++ (l ∷ [])) walk_start ≡ pass u
      → check_final p c u ≡ pass tt
      → check_chain p known c (ls ++ (l ∷ [])) (some q) ≡ pass tt
  unfolding check_chain
  check_chain-append c [] l q u not_empty walked final =
      simp (false_eq q not_empty, find_key-is_known known delegator found, walked, final)
  check_chain-append c (k ∷ ks) l q u not_empty walked final =
      simp (false_eq q not_empty, find_key-is_known known delegator found, walked, final)

  check_final-new :
      (c : CapabilityToken) (u : Walk)
      → check_final p c
          (record u { action = some c.action; caveats = caveat_keys c.caveats; has_v13 = true })
        ≡ pass tt
  unfolding check_final
  check_final-new c u =
      ground (arith, eq_refl c.action, same_set_refl ⦃e = key_eq⦄ (caveat_keys c.caveats))

  module _ (now : ℕ) (issuer_key : Bytes) where
    -- If a capability with a chain of v1.3 links is accepted from its holder, whose key the verifier
    -- knows, then what the holder attenuates from it with caveats that have not expired is accepted
    -- from the new holder. (The identifier of the parent must not be the empty text, and a parent
    -- with a chain must name its own parent.)
    pub attenuate-verify_capability :
        (new_holder cap_id : String) (additional : List Caveat) (child : CapabilityToken)
        → verify_capability p false now t delegator issuer_key known ≡ accepted
        → AllV13 t.delegation_chain
        → (t.delegation_chain ≡ []) ⊎ ((t.parent ≢ none) × (t.parent ≢ some ""))
        → t.cap_id ≢ ""
        → attenuate p t key delegator new_holder additional cap_id ≡ ok child
        → Unexpired p now additional
        → verify_capability p false now child new_holder issuer_key known ≡ accepted
    unfolding sign_token
    attenuate-verify_capability new_holder cap_id additional child valid vs rooted named made
          fresh =
        let all = t.caveats ++ additional in
        let (_, _, _, built) =
          attenuate-token p t key delegator new_holder additional cap_id child made in
        let c = child_token p t key delegator new_holder all cap_id in
        let parts = verify_capability-Parts p now t delegator issuer_key known valid in
        let (u, walked, same, more, _) =
          check_chain-Extends p known t t.cap_id t.delegation_chain t.parent vs rooted
            parts.chained in
        let link = check_link-new_link all u same (kept_keys u.caveats t.caveats additional more) in
        let end_of_walk =
          walk_chain-append p known t.cap_id t.delegation_chain (new_link p t key delegator all)
            walk_start
          ∙ ap (λ m. m >>= check_link p known t.cap_id (new_link p t key delegator all)) walked
          ∙ link in
        subst (λ x. verify_capability p false now x new_holder issuer_key known ≡ accepted) built
          (Parts-verify_capability p now (sign_token p key c) new_holder issuer_key known (record {
            live = refl;
            held = refl;
            sig = p.sign (canonical_json (signable_dict c)) key;
            decoded = law.b64decode-b64encode _;
            signed =
                check_signature-append issuer_key (sign_token p key c) t.delegation_chain _ _
                  (new_link-from_agent all)
                  (rw (signable_dict-sign_token p key c) (law.verify-sign _ key));
            chained =
                check_chain-append (sign_token p key c) t.delegation_chain _ t.cap_id _ named
                  end_of_walk (check_final-new (sign_token p key c) u);
            fresh = Unexpired-append p now t.caveats additional parts.fresh fresh;
          }))
