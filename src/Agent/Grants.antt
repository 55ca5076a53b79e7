-- ===== src/Agent/Grants.antt =====
-- grant, revoke and _find_capability_for of agent.py. A fresh identifier is an argument.
pub mod Revoked
use pact_passport.Base.{
  Bool, true, false, String, Option, none, some, List, [], ◌∷◌, ◌==◌, ◌&&◌, string_eq,
  if◌then◌else◌,
}
use pact_passport.Json.{Dict, bool, set}
use pact_passport.Errors.{Result, ok, raise, ◌>>=◌}
use pact_passport.Platform.{Platform}
use pact_passport.Capability.{Caveat, CapabilityToken}
use pact_passport.Capability.Dicts.{token_to_dict, token_from_dict}
use pact_passport.Capability.Issue.{issue_capability}
use pact_passport.Store.{Store, save_capability, load_capability, list_capabilities}
use pact_passport.Agent.State.{Agent}
use pact_passport.Agent.Peers.{filled}

-- The token of `issue_capability`, once it is saved.
abbrev pub saved_token : Result CapabilityToken → Store → Result (CapabilityToken × Store)
saved_token (raise err) s = raise err
saved_token (ok t) s = do u ← save_capability (token_to_dict t) s; ok (t, u)

unfoldable pub grant :
    Platform
    → Agent
    → String
    → String
    → List Caveat
    → String
    → Store
    → Result (CapabilityToken × Store)
grant p a holder_id action caveats cap_id s =
    saved_token (issue_capability p a.key a.agent_id holder_id action caveats cap_id) s

abbrev pub revoke_found : Option Dict → Store → Result (Bool × Store)
revoke_found none s = ok (false, s)
revoke_found (some cap_dict) s = do
  t ← save_capability (set cap_dict "revoked" (bool true)) s
  ok (true, t)

-- The answer, and the store after it.
unfoldable pub revoke : String → Store → Result (Bool × Store)
revoke cap_id s = revoke_found (filled (load_capability cap_id s)) s

unfoldable pub first_capability : String → String → List Dict → Result (Option CapabilityToken)
first_capability issuer_id action [] = ok none
first_capability issuer_id action (cap_dict ∷ rest) =
    let later = first_capability issuer_id action rest in
    token_from_dict cap_dict >>= λ cap.
    (if cap.issuer == issuer_id && cap.action == action then ok (some cap) else later)

unfoldable pub find_capability_for : String → String → Store → Result (Option CapabilityToken)
unfolding first_capability
find_capability_for issuer_id action s = first_capability issuer_id action (list_capabilities s)
