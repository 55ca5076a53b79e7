-- ===== src/Identity.antt =====
-- identity.py: an agent's keys and its log of key events. The fresh keys are arguments, and the store is
-- the log.
pub mod Log
pub mod Again
pub mod Reachable
pub mod Unsigned
use pact_passport.Base.{
  ℕ, suc, pos, Bool, true, false, String, Option, none, some, List, [], ◌∷◌, ◌++◌, ◌==◌, string_eq,
  if◌then◌else◌, length, encode,
}
use pact_passport.Json.{Value, Dict, str, int, arr, nil, cons, end, field, get, set, without}
use pact_passport.Json.Canonical.{canonical_json}
use pact_passport.Errors.{Result, ok, raise, value_error, index_error, require, ◌>>=◌, ◌>>◌}
use pact_passport.Platform.{Platform, Bytes}
use pact_passport.Capability.{alg_name}
use pact_passport.Message.Build.{equals_text}

pub record Identity : Type 0 where
  pub name : String
  pub agent_id : String
  pub private_key : Bytes
  pub public_key : Bytes
  pub next_private_key : Bytes
  pub next_public_key : Bytes

abbrev pub last_event : Dict → List Dict → Dict
last_event e [] = e
last_event e (f ∷ es) = last_event f es

-- `prior_event.get("next_keys_digest", "") != actual_digest`
abbrev pub commits_to : Option Value → String → Bool
commits_to none digest = "" == digest
commits_to (some v) digest = equals_text (some v) digest

module _ (p : Platform) where
  -- sha256_digest(f"{ALG}{pub_b64}".encode())
  unfoldable pub derive_agent_id : Bytes → String
  derive_agent_id key = p.sha256_digest (encode alg_name ++ encode (p.b64encode key))

  abbrev pub signed_event : Bytes → Dict → Dict
  signed_event key d = set d "signature" (str (p.b64encode (p.sign (canonical_json d) key)))

  unfoldable pub inception_event : Bytes → Bytes → Dict
  unfolding derive_agent_id
  inception_event key next_key = field "agent_id" (str (derive_agent_id (p.public_key key))) (
      field "event_type" (str "inception") (
        field "sequence" (int (pos 0)) (
          field "current_keys" (arr (cons (str (p.b64encode (p.public_key key))) nil)) (
            field "next_keys_digest" (str (p.sha256_digest (p.public_key next_key)))
              (field "alg" (str alg_name) end)))))

  -- The new identity, and the log of its name, to which append_event has added the inception.
  unfoldable pub create : String → Bytes → Bytes → List Dict → Identity × List Dict
  unfolding inception_event
  create name key next_key log = (
    record {
      name = name;
      agent_id = derive_agent_id (p.public_key key);
      private_key = key;
      public_key = p.public_key key;
      next_private_key = next_key;
      next_public_key = p.public_key next_key;
    },
    log ++ (signed_event key (inception_event key next_key) ∷ []),
  )

  -- The digest of an event without its signature.
  unfoldable pub event_digest : Dict → String
  event_digest e = p.sha256_digest (canonical_json (without e "signature"))

  unfoldable pub rotation_event : Identity → ℕ → String → Bytes → Dict
  rotation_event i sequence prior_digest fresh_key = field "agent_id" (str i.agent_id) (
      field "event_type" (str "rotation") (
        field "sequence" (int (pos sequence)) (
          field "prior_event_digest" (str prior_digest) (
            field "current_keys"
              (arr (cons (str (p.b64encode (p.public_key i.next_private_key))) nil))
              (field "next_keys_digest" (str (p.sha256_digest (p.public_key fresh_key)))
                (field "alg" (str alg_name) end))))))

  abbrev pub rotated : Identity → Bytes → Identity
  rotated i fresh_key = record i {
    private_key = i.next_private_key;
    public_key = p.public_key i.next_private_key;
    next_private_key = fresh_key;
    next_public_key = p.public_key fresh_key;
  }

  unfoldable pub rotate : Bytes → Identity → List Dict → Result (Identity × List Dict)
  unfolding event_digest rotation_event
  rotate fresh_key i [] = raise index_error
  rotate fresh_key i (e ∷ es) =
      let prior = last_event e es in
      do
        require
            (commits_to (get prior "next_keys_digest")
              (p.sha256_digest (p.public_key i.next_private_key)))
            value_error
        ok (
          rotated i fresh_key,
          (e ∷ es)
              ++ (signed_event i.next_private_key
                    (rotation_event i (length (e ∷ es)) (event_digest prior) fresh_key)
                  ∷ []),
        )
