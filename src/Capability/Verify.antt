-- ===== src/Capability/Verify.antt =====
-- verify_capability of capability.py: the checks in the code's order, each early return a value.
pub mod Steps
pub mod Accepted
pub mod Walked
pub mod Monotone
pub mod Delegation
pub mod Forgery
pub mod Raising
use pact_passport.Base.{
  ℕ, ltb, Bool, true, false, not, ◌&&◌, String, Option, none, some, List, [], ◌∷◌, ◌==◌, string_eq,
  if◌then◌else◌, is_subset, same_set, encode,
}
use pact_passport.Json.{Value, str}
use pact_passport.Json.Canonical.{canonical_json}
use pact_passport.Errors.{Error, Result, ok, raise, type_error, value_error, binascii_error}
use pact_passport.Platform.{Platform, Bytes, Datetime, aware, naive}
use pact_passport.Capability.{Caveat, DelegationLink, CapabilityToken}
use pact_passport.Capability.Dicts.{signable_dict}
use pact_passport.Capability.Issue.{link_payload}
use pact_passport.Capability.Keys.{CaveatKey, caveat_keys, key_eq}

-- The `reason` of a CapabilityResult, one constructor for each text of the code.
pub data Reason : Type 0 where
  revoked : Reason
  holder_mismatch : String → String → Reason
  missing_delegator_key : String → Reason
  bad_delegator_signature bad_signature no_known_keys : Reason
  missing_link_key bad_link : String → Reason
  action_mutated : String → Reason
  caveats_stripped final_action final_caveats : Reason
  expired : Value → Reason
  malformed : Error → Reason

-- A step of the verifier passes, returns a negative result, or raises.
pub data Check {ℓ} (A : Type ℓ) : Type ℓ where
  pass : A → Check A
  reject : Reason → Check A
  raised : Error → Check A

infixl 5 ◌>>=◌ ◌>>◌
abbrev pub ◌>>=◌ {ℓ κ} : {A : Type ℓ} {B : Type κ} → Check A → (A → Check B) → Check B
pass a >>= f = f a
reject r >>= f = reject r
raised e >>= f = raised e

abbrev pub ◌>>◌ {ℓ κ} : {A : Type ℓ} {B : Type κ} → Check A → Check B → Check B
m >> k = m >>= λ _. k

abbrev pub unless : Bool → Reason → Check (Unit {0})
unless true r = pass tt
unless false r = reject r

abbrev pub or_reject {ℓ} : {A : Type ℓ} → Option A → Reason → Check A
or_reject none r = reject r
or_reject (some a) r = pass a

abbrev pub or_raised {ℓ} : {A : Type ℓ} → Option A → Error → Check A
or_raised none e = raised e
or_raised (some a) e = pass a

abbrev pub is_chained : List DelegationLink → Bool
is_chained [] = false
is_chained (l ∷ ls) = true

-- `known_keys`; None and the empty dict are told apart nowhere.
abbrev pub Keys : Type 0
Keys = List (String × Bytes)

-- `not known_keys` is refused.
abbrev pub is_known : Keys → Bool
is_known [] = false
is_known (k ∷ ks) = true

unfoldable pub find_key : Keys → String → Option Bytes
find_key [] a = none
find_key ((b, k) ∷ ks) a = if b == a then some k else find_key ks a

-- The loop's variables. The flag for links older than v1.2 only feeds a warning.
pub record Walk : Type 0 where
  pub action : Option String
  pub caveats : List CaveatKey
  pub has_v13 : Bool
  pub has_pre_v13 : Bool

abbrev pub walk_start : Walk
walk_start = record { action = none; caveats = []; has_v13 = false; has_pre_v13 = false }

pub record CapabilityResult : Type 0 where
  pub valid : Bool
  pub reason : Option Reason

-- `except (binascii.Error, ValueError)`
unfoldable pub to_result : Check (Unit {0}) → Result CapabilityResult
to_result (pass _) = ok (record { valid = true; reason = none })
to_result (reject r) = ok (record { valid = false; reason = some r })
to_result (raised binascii_error) =
    ok (record { valid = false; reason = some (malformed binascii_error) })
to_result (raised value_error) =
    ok (record { valid = false; reason = some (malformed value_error) })
to_result (raised e) = raise e

-- `running_action is None or link.action_at_step == running_action`
abbrev pub keeps_action : Option String → String → Bool
keeps_action none a = true
keeps_action (some r) a = a == r

unfoldable pub last_delegator : DelegationLink → List DelegationLink → String
last_delegator l [] = l.from_agent
last_delegator l (m ∷ ls) = last_delegator m ls

module _ (p : Platform) where
  -- The three kinds of link: v1.3, v1.2 and older.
  unfoldable pub check_step :
      String
      → String
      → Bytes
      → Bytes
      → Option String
      → Option String
      → Option (List Caveat)
      → Walk
      → Check Walk
  check_step parent agent sig key (some cap_id) (some action) (some caveats) w = do
    unless (p.verify (canonical_json (link_payload cap_id action caveats)) sig key) (bad_link agent)
    unless (keeps_action w.action action) (action_mutated action)
    unless (is_subset ⦃e = key_eq⦄ w.caveats (caveat_keys caveats)) caveats_stripped
    pass (record w { action = some action; caveats = caveat_keys caveats; has_v13 = true })
  check_step parent agent sig key (some cap_id) _ _ w = do
    unless (p.verify (encode cap_id) sig key) (bad_link agent)
    pass (record w { has_pre_v13 = true })
  check_step parent agent sig key none _ _ w = do
    unless (p.verify (encode parent) sig key) (bad_link agent)
    pass w

  unfoldable pub check_link : Keys → String → DelegationLink → Walk → Check Walk
  unfolding check_step find_key
  check_link known parent l w = do
    key ← or_reject (find_key known l.from_agent) (missing_link_key l.from_agent)
    sig ← or_raised (p.b64decode l.sig) binascii_error
    check_step parent l.from_agent sig key l.parent_cap_id l.action_at_step l.caveats_at_step w

  unfoldable pub walk_chain : Keys → String → List DelegationLink → Walk → Check Walk
  unfolding check_link
  walk_chain known parent [] w = pass w
  walk_chain known parent (l ∷ ls) w = check_link known parent l w >>= walk_chain known parent ls

  -- v1.3 final-token consistency.
  unfoldable pub check_final : CapabilityToken → Walk → Check (Unit {0})
  check_final t w =
      if w.has_v13 && not w.has_pre_v13
      then (do
        unless (keeps_action w.action t.action) final_action
        unless (same_set ⦃e = key_eq⦄ (caveat_keys t.caveats) w.caveats) final_caveats)
      else pass tt

  -- `if token.delegation_chain and token.parent`
  unfoldable pub check_chain :
      Keys → CapabilityToken → List DelegationLink → Option String → Check (Unit {0})
  unfolding walk_chain check_final
  check_chain known t [] parent = pass tt
  check_chain known t (l ∷ ls) none = pass tt
  check_chain known t (l ∷ ls) (some parent) = if parent == "" then pass tt else (do
    unless (is_known known) no_known_keys
    w ← walk_chain known parent (l ∷ ls) walk_start
    check_final t w)

  -- The signature of the token itself: the last delegator's, or the issuer's on a root token.
  unfoldable pub check_signature :
      Keys → Bytes → CapabilityToken → List DelegationLink → Bytes → Check (Unit {0})
  unfolding find_key last_delegator
  check_signature known issuer_key t [] sig =
      unless (p.verify (canonical_json (signable_dict t)) sig issuer_key) bad_signature
  check_signature known issuer_key t (l ∷ ls) sig = do
    key ←
        or_reject (find_key known (last_delegator l ls))
          (missing_delegator_key (last_delegator l ls))
    unless (p.verify (canonical_json (signable_dict t)) sig key) bad_delegator_signature

  -- `datetime.fromisoformat(caveat.value)` and `now > expires`: TypeError on a value that is no
  -- text, and on a naive moment.
  abbrev pub past : ℕ → Value → Option Datetime → Check (Unit {0})
  past now v none = raised value_error
  past now v (some (aware t)) = unless (not (ltb t now)) (expired v)
  past now v (some (naive t)) = raised type_error

  abbrev pub expiry : ℕ → Value → Check (Unit {0})
  expiry now (str s) = past now (str s) (p.fromisoformat s)
  expiry now v = raised type_error

  unfoldable pub check_expiry : ℕ → List Caveat → Check (Unit {0})
  check_expiry now [] = pass tt
  check_expiry now (c ∷ cs) =
      let rest = check_expiry now cs in
      if c.restrict == "expires" then expiry now c.value >> rest else rest

  -- `abl_chain` is the experimental flag ABL_CHAIN, off by default.
  unfoldable pub verify_inner :
      Bool → ℕ → CapabilityToken → String → Bytes → Keys → Check (Unit {0})
  unfolding check_signature check_chain check_expiry
  verify_inner abl_chain now t expected issuer_key known = do
    unless (not t.revoked) revoked
    unless (t.holder == expected) (holder_mismatch expected t.holder)
    if abl_chain && is_chained t.delegation_chain then pass tt else (do
      sig ← or_raised (p.b64decode t.signature) binascii_error
      check_signature known issuer_key t t.delegation_chain sig
      check_chain known t t.delegation_chain t.parent
      check_expiry now t.caveats)

  unfoldable pub verify_capability :
      Bool → ℕ → CapabilityToken → String → Bytes → Keys → Result CapabilityResult
  unfolding verify_inner to_result
  verify_capability abl_chain now t expected issuer_key known =
      to_result (verify_inner abl_chain now t expected issuer_key known)
