-- ===== src/Capability/Verify/Walked.antt =====
-- The chain walk of verify_capability: what one v1.3 link does to it, and what a chain of them does.
use pact_passport.Errors.{binascii_error}
use pact_passport.Base.{
  same_set, string_eq, is_subset_refl, ◌||◌, is_subset_trans, subst, ◌≡◌, ◌⊎◌, inl, inr, refl, true,
  String, Option, none, some, List, [], ◌∷◌, arith, eq_iff, is_subset,
}
use pact_passport.Json.Canonical.{canonical_json}
use pact_passport.Platform.{Platform, Bytes}
use pact_passport.Capability.{Caveat, DelegationLink}
use pact_passport.Capability.Keys.{CaveatKey, caveat_keys, key_eq}
use pact_passport.Capability.Issue.{link_payload}
use pact_passport.Capability.Verify.{
  is_chained, walk_chain, ◌>>=◌, or_raised, missing_link_key, or_reject, keeps_action, Keys,
  find_key, Walk, check_link, check_step, pass,
}
use pact_passport.Capability.Verify.Steps.{>>=-eq-pass}
use pact_passport.Capability.Verify.Accepted.{or_raised-pass, or_reject-pass, unless-pass}

-- A link of the v1.3 format.
pub record IsV13 (l : DelegationLink) : Type 0 where
  pub cap_id : String
  pub action : String
  pub caveats : List Caveat
  pub has_cap_id : l.parent_cap_id ≡ some cap_id
  pub has_action : l.action_at_step ≡ some action
  pub has_caveats : l.caveats_at_step ≡ some caveats

-- `P` of every v1.3 link of a chain whose links are all of that format.
abbrev pub EveryV13 : ((l : DelegationLink) → IsV13 l → Type 0) → List DelegationLink → Type 0
EveryV13 P [] = Unit {0}
EveryV13 P (l ∷ ls) = ((v : IsV13 l) × P l v) × EveryV13 P ls

abbrev pub AllV13 : List DelegationLink → Type 0
AllV13 = EveryV13 (λ l v. Unit {0})

module _ (p : Platform) (known : Keys) where
  -- The delegator signed the link's content under a key that the verifier has for it; the action is
  -- `action`, and the caveats are among `keys`.
  pub record Holds (action : String) (keys : List CaveatKey) (l : DelegationLink) (v : IsV13 l)
      : Type 0 where
    pub key : Bytes
    pub sig : Bytes
    pub found : find_key known l.from_agent ≡ some key
    pub decoded : p.b64decode l.sig ≡ some sig
    pub signed : p.verify (canonical_json (link_payload v.cap_id v.action v.caveats)) sig key ≡ true
    pub same_action : v.action ≡ action
    pub kept : is_subset ⦃e = key_eq⦄ (caveat_keys v.caveats) keys ≡ true

  -- From a link on that follows the caveats `before`: each link holds, no link drops a caveat of the one
  -- before it, and the caveats after the last link are the same set as `keys`.
  abbrev pub Narrows : String → List CaveatKey → List CaveatKey → List DelegationLink → Type 0
  Narrows action keys before [] = same_set ⦃e = key_eq⦄ keys before ≡ true
  Narrows action keys before (l ∷ ls) =
      (v : IsV13 l) × Holds action keys l v
      × (is_subset ⦃e = key_eq⦄ before (caveat_keys v.caveats) ≡ true)
      × Narrows action keys (caveat_keys v.caveats) ls

  -- What one link does to the walk.
  pub record Steps (w u : Walk) (l : DelegationLink) (v : IsV13 l) : Type 0 where
    pub key : Bytes
    pub sig : Bytes
    pub found : find_key known l.from_agent ≡ some key
    pub decoded : p.b64decode l.sig ≡ some sig
    pub signed : p.verify (canonical_json (link_payload v.cap_id v.action v.caveats)) sig key ≡ true
    pub action_kept : (w.action ≡ none) ⊎ (w.action ≡ some v.action)
    pub caveats_kept : is_subset ⦃e = key_eq⦄ w.caveats (caveat_keys v.caveats) ≡ true
    pub after :
        u ≡ record w { action = some v.action; caveats = caveat_keys v.caveats; has_v13 = true }

  keeps_action-cases :
      (o : Option String) (a : String) → keeps_action o a ≡ true → (o ≡ none) ⊎ (o ≡ some a)
  keeps_action-cases none a h = inl refl
  keeps_action-cases (some r) a h = inr (ground (arith, eq_iff a r))

  check_link-Steps :
      (parent : String) (l : DelegationLink) (v : IsV13 l) (w u : Walk)
      → check_link p known parent l w ≡ pass u
      → Steps w u l v
  unfolding check_link check_step
  check_link-Steps parent l v w u h =
      let agent = l.from_agent in
      let step = λ (sig key : Bytes).
        check_step p parent agent sig key l.parent_cap_id l.action_at_step l.caveats_at_step w in
      let (key, found, h1) =
        >>=-eq-pass (or_reject (find_key known agent) (missing_link_key agent))
          (λ key. or_raised (p.b64decode l.sig) binascii_error >>= λ sig. step sig key) h in
      let (sig, decoded, h2) =
        >>=-eq-pass (or_raised (p.b64decode l.sig) binascii_error) (λ sig. step sig key) h1 in
      let (_, signed, h4) =
        >>=-eq-pass _ _ (rw (v.has_cap_id, v.has_action, v.has_caveats, check_step) at h2) in
      let (_, kept, h5) = >>=-eq-pass _ _ h4 in
      let (_, more, h6) = >>=-eq-pass _ _ h5 in
      record {
        key = key;
        sig = sig;
        found = or_reject-pass _ _ found;
        decoded = or_raised-pass _ _ decoded;
        signed = unless-pass _ _ _ signed;
        action_kept = keeps_action-cases _ _ (unless-pass _ _ _ kept);
        caveats_kept = unless-pass _ _ _ more;
        after = ground (arith, h6);
      }

  same_set-back :
      (keys found : List CaveatKey)
      → same_set ⦃e = key_eq⦄ keys found ≡ true
      → is_subset ⦃e = key_eq⦄ found keys ≡ true
  unfolding same_set
  same_set-back keys found h = ground (arith, h)

  -- What the walk along a chain of v1.3 links keeps and establishes.
  pub record Walked (w u : Walk) (ls : List DelegationLink) : Type 0 where
    pub action : (a : String) → w.action ≡ some a → u.action ≡ some a
    pub caveats : is_subset ⦃e = key_eq⦄ w.caveats u.caveats ≡ true
    pub v13 : u.has_v13 ≡ (w.has_v13 || is_chained ls)
    pub named : is_chained ls ≡ true → (a : String) × (u.action ≡ some a)
    pub pre_v13 : u.has_pre_v13 ≡ w.has_pre_v13
    pub holds :
        (a : String) (keys : List CaveatKey)
        → u.action ≡ some a
        → is_subset ⦃e = key_eq⦄ u.caveats keys ≡ true
        → EveryV13 (Holds a keys) ls
    pub narrows :
        (a : String) (keys : List CaveatKey)
        → u.action ≡ some a
        → same_set ⦃e = key_eq⦄ keys u.caveats ≡ true
        → Narrows a keys w.caveats ls

  -- The walk after one link of format v1.3.
  abbrev stepped : Walk → (l : DelegationLink) → IsV13 l → Walk
  stepped w l v = record w {
    action = some v.action;
    caveats = caveat_keys v.caveats;
    has_v13 = true;
  }

  Walked-cons :
      {w w1 u : Walk} {l : DelegationLink} {v : IsV13 l} (ls : List DelegationLink)
      → Steps w w1 l v
      → Walked w1 u ls
      → Walked w u (l ∷ ls)
  Walked-cons {w} {w1} {u} {l} {v} ls s r = record {
    action = λ a h. action_of a h s.action_kept;
    caveats =
        is_subset_trans ⦃e = key_eq⦄ w.caveats (caveat_keys v.caveats) u.caveats s.caveats_kept
          kept;
    v13 = ground (arith, s.after, r.v13);
    named = λ _. (v.action, final);
    pre_v13 = ground (arith, s.after, r.pre_v13);
    holds = λ a keys h k. ((v, held a keys h k), r.holds a keys h k);
    narrows = λ a keys h k. (
      v,
      held a keys h (same_set-back keys u.caveats k),
      s.caveats_kept,
      subst (λ (x : Walk). Narrows a keys x.caveats ls) s.after (r.narrows a keys h k),
    );
  }
    where
      final : u.action ≡ some v.action
      final = r.action v.action (ground (arith, s.after))

      kept : is_subset ⦃e = key_eq⦄ (caveat_keys v.caveats) u.caveats ≡ true
      kept =
          subst (λ (x : Walk). is_subset ⦃e = key_eq⦄ x.caveats u.caveats ≡ true) s.after r.caveats

      held :
          (a : String) (keys : List CaveatKey)
          → u.action ≡ some a
          → is_subset ⦃e = key_eq⦄ u.caveats keys ≡ true
          → Holds a keys l v
      held a keys h k = record {
        key = s.key;
        sig = s.sig;
        found = s.found;
        decoded = s.decoded;
        signed = s.signed;
        same_action = ground (arith, final, h);
        kept = is_subset_trans ⦃e = key_eq⦄ (caveat_keys v.caveats) u.caveats keys kept k;
      }

      action_of :
          (a : String)
          → w.action ≡ some a
          → (w.action ≡ none) ⊎ (w.action ≡ some v.action)
          → u.action ≡ some a
      action_of a h (inl e) = cc
      action_of a h (inr e) = cc final

  pub walk_chain-Walked :
      (parent : String) (ls : List DelegationLink)
      → AllV13 ls
      → (w u : Walk) → walk_chain p known parent ls w ≡ pass u
      → Walked w u ls
  unfolding walk_chain
  walk_chain-Walked parent [] vs w u h =
      let same : w ≡ u = ground arith in
      subst (λ x. Walked w x []) same
        (record {
          action = λ a e. e;
          caveats = is_subset_refl ⦃e = key_eq⦄ w.caveats;
          v13 = ground arith;
          named = λ e. cc;
          pre_v13 = refl;
          holds = λ a keys e k. tt;
          narrows = λ a keys e k. k;
        })
  walk_chain-Walked parent (l ∷ ls) vs w u h =
      let (w1, first, rest) =
        >>=-eq-pass (check_link p known parent l w) (walk_chain p known parent ls) h in
      Walked-cons ls (check_link-Steps parent l vs.0.0 w w1 first)
        (walk_chain-Walked parent ls vs.1 w1 u rest)
