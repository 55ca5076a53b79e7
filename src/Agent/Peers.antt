-- ===== src/Agent/Peers.antt =====
-- How agent.py comes by a sender's key: the cached identity documents, trust on first use, and the
-- refresh after a rotation. A dict that is empty counts as absent.
use pact_passport.Base.{
  ◌++◌, Bool, true, false, ◌&&◌, not, String, Option, none, some, List, [], ◌∷◌, ◌==◌, string_eq,
  if◌then◌else◌, encode, put,
}
use pact_passport.Json.{Value, Dict, str, end, field, get}
use pact_passport.Platform.{Platform, Bytes}
use pact_passport.Capability.{CapabilityToken, DelegationLink, alg_name}
use pact_passport.Capability.Verify.{Keys, find_key}
use pact_passport.Message.{PactMessage}
use pact_passport.Message.Build.{equals_text}
use pact_passport.Store.{Store, load_peer, save_peer}

-- `if d`
abbrev pub filled : Option Dict → Option Dict
filled none = none
filled (some end) = none
filled (some (field k v d)) = some (field k v d)

module _ (p : Platform) where
  -- base64.b64decode of what the document holds; TypeError on another type than text is caught.
  abbrev pub decode_value : Option Value → Option Bytes
  decode_value (some (str s)) = p.b64decode s
  decode_value v = none

  abbrev pub peer_key : Option Dict → Option Bytes
  peer_key none = none
  peer_key (some peer) = decode_value (get peer "public_key")

  unfoldable pub resolve_sender_key : String → Store → Option Bytes
  resolve_sender_key agent_id s = peer_key (filled (load_peer agent_id s))

  -- sha256_digest(f"{ALG}{pub_b64}".encode()) == claimed, and the document claims the same. Another
  -- value than a text has a digest too, but does not decode.
  abbrev pub binds_to : String → Dict → String → Bool
  binds_to claimed doc pub_b64 =
      not (pub_b64 == "")
      && (p.sha256_digest (encode alg_name ++ encode pub_b64) == claimed
          && equals_text (get doc "agent_id") claimed)

  abbrev pub registered : Bool → String → Dict → Option Bytes → Store → Option Bytes × Store
  registered true claimed doc (some key) s = (some key, save_peer claimed doc s)
  registered b claimed doc o s = (none, s)

  abbrev pub tofu : String → Dict → Option Value → Store → Option Bytes × Store
  tofu claimed doc (some (str pub_b64)) s =
      registered (binds_to claimed doc pub_b64) claimed doc (p.b64decode pub_b64) s
  tofu claimed doc v s = (none, s)

  unfoldable pub tofu_register : String → Dict → Store → Option Bytes × Store
  tofu_register claimed doc s = tofu claimed doc (get doc "public_key") s

  -- The cached key, or else trust on first use.
  abbrev pub first_use : String → Option Dict → Store → Option Bytes × Store
  first_use sender none s = (none, s)
  first_use sender (some doc) s = tofu_register sender doc s

  abbrev pub sender_key : PactMessage → Option Bytes → Store → Option Bytes × Store
  sender_key m (some key) s = (some key, s)
  sender_key m none s = first_use m.from_agent (filled m.identity_doc) s

  -- hash(new_doc.public_key) == old_doc.next_key_digest, the commitment being there
  abbrev pub continues : Option Dict → Bytes → Bool
  continues none new_key = false
  continues (some old_doc) new_key =
      let digest = p.sha256_digest new_key in
      not (digest == "") && equals_text (get old_doc "next_key_digest") digest

  abbrev pub refreshed : Bool → String → Dict → Bytes → Store → Option Bytes × Store
  refreshed true sender doc key s = (some key, save_peer sender doc s)
  refreshed false sender doc key s = (none, s)

  abbrev pub refresh_key : String → Dict → Option Bytes → Store → Option Bytes × Store
  refresh_key sender doc none s = (none, s)
  refresh_key sender doc (some key) s =
      refreshed
        (equals_text (get doc "agent_id") sender && continues (filled (load_peer sender s)) key)
        sender doc key s

  abbrev pub refresh : String → Option Dict → Store → Option Bytes × Store
  refresh sender none s = (none, s)
  refresh sender (some doc) s = refresh_key sender doc (decode_value (get doc "public_key")) s

  unfoldable pub maybe_refresh_peer_after_rotation : PactMessage → Store → Option Bytes × Store
  maybe_refresh_peer_after_rotation m s = refresh m.from_agent (filled m.identity_doc) s

  -- `if agent_id and agent_id not in known`, and then the cached key
  unfoldable pub learn : String → Store → Keys → Keys
  unfolding resolve_sender_key
  learn agent_id s known = if agent_id == "" then known else elim (find_key known agent_id) [
    | some key ↦ known
    | none ↦ elim (resolve_sender_key agent_id s) [
      | some key ↦ put known agent_id key
      | none ↦ known
    ]
  ]

  unfoldable pub learn_delegators : List DelegationLink → Store → Keys → Keys
  unfolding learn
  learn_delegators [] s known = known
  learn_delegators (l ∷ ls) s known = learn_delegators ls s (learn l.from_agent s known)

  -- The links and the holder are those of the dict, which has been read by then.
  unfoldable pub build_known_keys_for_chain : String → Bytes → CapabilityToken → Store → Keys
  unfolding learn learn_delegators
  build_known_keys_for_chain agent_id own_key t s =
      learn t.holder s (learn_delegators t.delegation_chain s ((agent_id, own_key) ∷ []))
