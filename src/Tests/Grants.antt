-- ===== src/Tests/Grants.antt =====
-- The theorem on revoked capabilities at a concrete one.
use pact_passport.Base.{find, write_file, ◌≡◌, ◌≢◌, refl, true, [], ◌∷◌}
use pact_passport.Json.{Dict, bool, get, set}
use pact_passport.Errors.{ok}
use pact_passport.Store.{Store, load_capability, save_capability}
use pact_passport.Agent.State.{next, started}
use pact_passport.Agent.Run.{validators}
use pact_passport.Agent.Grants.{revoke}
use pact_passport.Agent.Grants.Revoked.{validators-revoke}
use pact_passport.Tests.Agents.{
  light, bob, later, store, sum_cap, sum_of, passed, counted_once, request_of_alice,
}

-- Bob revokes the capability, and alice asks again.
abbrev revoked_cap : Dict
revoked_cap = set sum_cap "revoked" (bool true)

abbrev revoked_store : Store
revoked_store = record store { capabilities = ("c1.json", revoked_cap) ∷ [] }

revoking : revoke "c1" store ≡ ok (true, revoked_store)
unfolding revoke load_capability find save_capability get set write_file
revoking = refl

validators-revoke_example :
    (true ≡ true)
    × (validators light bob later request_of_alice (started revoked_store)
        ≢ (next (passed, sum_of), counted_once))
unfolding load_capability get find
validators-revoke_example =
    validators-revoke light bob refl "c1" sum_cap store revoked_store true later request_of_alice
      (started revoked_store) counted_once (passed, sum_of) refl refl revoking refl refl
