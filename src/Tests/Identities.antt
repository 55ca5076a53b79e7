-- ===== src/Tests/Identities.antt =====
-- The theorems on identities at one that has rotated once.
use pact_passport.Base.{◌+◌, ◌≡◌, ◌≢◌, List, [], ◌∷◌, ◌++◌, length}
use pact_passport.Json.{Dict, null}
use pact_passport.Errors.{ok}
use pact_passport.Platform.{Bytes}
use pact_passport.Identity.{
  Identity, create, rotate, rotated, event_digest, last_event, signed_event, inception_event,
}
use pact_passport.Identity.Log.{verify_event_log}
use pact_passport.Identity.Reachable.{created, turned, Reachable-verify_event_log}
use pact_passport.Identity.Again.{verify_event_log-create}
use pact_passport.Identity.Unsigned.{keyless_rotation, verify_event_log-keyless_rotation}
use pact_passport.Tests.Toy.{toy, toy-IsLawful}

abbrev birth_key : Bytes
birth_key = 1 ∷ []

abbrev second_key : Bytes
second_key = 2 ∷ []

abbrev third_key : Bytes
third_key = 3 ∷ []

abbrev alice : Identity
alice = (create toy "alice" birth_key second_key []).0

abbrev log : List Dict
log = (create toy "alice" birth_key second_key []).1

log_verifies :
    (verify_event_log toy log ≡ ok [])
    × ((fresh_key : Bytes)
        → (next : List Dict) × (rotate toy fresh_key alice log
            ≡ ok (rotated toy alice fresh_key, next)))
log_verifies =
    Reachable-verify_event_log toy toy-IsLawful alice log (created "alice" birth_key second_key)

abbrev second_log : List Dict
second_log = (log_verifies.1 third_key).0

Reachable-verify_event_log_example :
    (verify_event_log toy second_log ≡ ok [])
    × ((fresh_key : Bytes)
        → (next : List Dict) × (rotate toy fresh_key (rotated toy alice third_key) second_log
            ≡ ok (rotated toy (rotated toy alice third_key) fresh_key, next)))
Reachable-verify_event_log_example =
    Reachable-verify_event_log toy toy-IsLawful (rotated toy alice third_key) second_log
      (turned third_key (created "alice" birth_key second_key) (log_verifies.1 third_key).1)

abbrev inception : Dict
inception = signed_event toy birth_key (inception_event toy birth_key second_key)

inception_verifies : verify_event_log toy (inception ∷ []) ≡ ok []
unfolding create
inception_verifies = log_verifies.0

verify_event_log-keyless_rotation_example :
    verify_event_log toy (
      inception
      ∷ ([]
          ++ (keyless_rotation "mallory"
                (1 + length {A = Dict} [])
                (event_digest toy (last_event inception []))
                null
              ∷ [])))
    ≡ ok []
verify_event_log-keyless_rotation_example =
    verify_event_log-keyless_rotation toy inception [] "mallory" null inception_verifies

verify_event_log-create_example :
    verify_event_log toy (
      (create toy "alice" second_key third_key (inception ∷ [])).1
      ++ (keyless_rotation "alice" 2 (event_digest toy inception) null ∷ []))
    ≢ ok []
verify_event_log-create_example =
    verify_event_log-create toy "alice" second_key third_key inception []
      (keyless_rotation "alice" 2 (event_digest toy inception) null ∷ [])
