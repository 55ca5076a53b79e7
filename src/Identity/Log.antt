-- ===== src/Identity/Log.antt =====
-- verify_event_log of identity.py. Its error texts are constructors.
use pact_passport.Base.{
  ℕ, suc, pos, ℤ, Bool, true, false, String, Option, none, some, List, [], ◌∷◌, ◌++◌, ◌==◌,
  string_eq, nat_eq, if◌then◌else◌,
}
use pact_passport.Json.{Value, Dict, str, arr, obj, nil, cons, get, without, is_falsy}
use pact_passport.Json.Canonical.{canonical_json}
use pact_passport.Errors.{
  Result, ok, raise, key_error, type_error, index_error, binascii_error, or_raise, ◌>>=◌,
}
use pact_passport.Platform.{Platform, Bytes}
use pact_passport.Message.Build.{equals_text}
use pact_passport.Capability.Issue.{as_int}
use pact_passport.Identity.{event_digest, commits_to}

pub data LogError : Type 0 where
  no_events not_inception inception_sequence inception_signature : LogError
  not_rotation wrong_sequence broken_chain broken_commitment wrong_signature : ℕ → LogError

-- `if not test: errors.append(e)`
abbrev pub expect : Bool → LogError → List LogError
expect true e = []
expect false e = e ∷ []

-- `v == n`
abbrev pub is_number : Option ℤ → ℕ → Bool
is_number (some (pos m)) n = m == n
is_number o n = false

abbrev pub number_of : Option Value → Option ℤ
number_of none = none
number_of (some v) = as_int v

-- `if key`, for the first of the current keys
abbrev pub first_item : Value → Result (Option String)
first_item (str s) = ok (if s == "" then none else some s)
first_item v = if is_falsy v then ok none else raise type_error

abbrev pub first_char : String → Result (Option String)
first_char String.[] = raise index_error
first_char (String.◌∷◌ c s) = ok (some (String.◌∷◌ c String.[]))

-- event.get("current_keys", [""])[0]
abbrev pub first_key : Option Value → Result (Option String)
first_key none = ok none
first_key (some (arr (cons v vs))) = first_item v
first_key (some (arr nil)) = raise index_error
first_key (some (str s)) = first_char s
first_key (some (obj d)) = raise key_error
first_key (some v) = raise type_error

module _ (p : Platform) where
  abbrev pub decode : String → Result Bytes
  decode s = or_raise (p.b64decode s) binascii_error

  -- b64decode(event.get("signature", ""))
  abbrev pub signature_bytes : Option Value → Result Bytes
  signature_bytes none = decode ""
  signature_bytes (some (str s)) = decode s
  signature_bytes (some v) = raise type_error

  abbrev pub is_signed : Dict → Bytes → Bytes → Bool
  is_signed event sig key = p.verify (canonical_json (without event "signature")) sig key

  abbrev pub check_inception_key : Dict → Bytes → Option String → Result (List LogError)
  check_inception_key event sig none = ok []
  check_inception_key event sig (some text) = do
    key ← decode text
    ok (expect (is_signed event sig key) inception_signature)

  unfoldable pub check_inception : Dict → Result (List LogError)
  check_inception event = do
    sig ← signature_bytes (get event "signature")
    key ← first_key (get event "current_keys")
    errors ← check_inception_key event sig key
    ok (
        expect (equals_text (get event "event_type") "inception") not_inception
        ++ (expect (is_number (number_of (get event "sequence")) 0) inception_sequence ++ errors))

  abbrev pub check_rotation_key : ℕ → Dict → Dict → Option String → Result (List LogError)
  check_rotation_key i prev event none = ok []
  check_rotation_key i prev event (some text) = do
    key ← decode text
    sig ← signature_bytes (get event "signature")
    ok (
        expect (commits_to (get prev "next_keys_digest") (p.sha256_digest key))
          (broken_commitment i)
        ++ expect (is_signed event sig key) (wrong_signature i))

  unfoldable pub check_rotation : ℕ → Dict → Dict → Result (List LogError)
  unfolding event_digest
  check_rotation i prev event = do
    key ← first_key (get event "current_keys")
    errors ← check_rotation_key i prev event key
    ok (
        expect (equals_text (get event "event_type") "rotation") (not_rotation i)
        ++ (expect (is_number (number_of (get event "sequence")) i) (wrong_sequence i)
            ++ (expect (equals_text (get event "prior_event_digest") (event_digest p prev))
                  (broken_chain i)
                ++ errors)))

  unfoldable pub check_rotations : ℕ → Dict → List Dict → Result (List LogError)
  unfolding check_rotation
  check_rotations i prev [] = ok []
  check_rotations i prev (event ∷ rest) = do
    errors ← check_rotation i prev event
    later ← check_rotations (suc i) event rest
    ok (errors ++ later)

  unfoldable pub verify_event_log : List Dict → Result (List LogError)
  unfolding check_inception check_rotations
  verify_event_log [] = ok (no_events ∷ [])
  verify_event_log (inception ∷ rest) = do
    errors ← check_inception inception
    later ← check_rotations 1 inception rest
    ok (errors ++ later)
