-- ===== src/Tests/Capabilities.antt =====
-- The theorems on capabilities at concrete tokens: alice issues one to bob, and bob delegates to carol.
use pact_passport.Capability.Verify.Walked.{AllV13}
use pact_passport.Base.{
  ◌≡◌, ◌≢◌, ◌↔◌, refl, inl, false, none, some, [], ◌∷◌, pos, arith, eq_iff, string_eq, codes,
  negsuc, lex_le,
}
use pact_passport.Json.{without, int, str, arr, null, nil, cons, end, field, obj, Dict}
use pact_passport.Json.Canonical.{canonical_json}
use pact_passport.Json.Order.{swap, under, item, canonical_json-Reordered}
use pact_passport.Errors.{ok, raise, type_error}
use pact_passport.Platform.{Bytes}
use pact_passport.Capability.{Caveat, CapabilityToken, DelegationLink}
use pact_passport.Capability.Dicts.{
  signable_dict, caveat_items, caveat_to_dict, token_to_dict, token_from_dict,
}
use pact_passport.Capability.Dicts.RoundTrip.{token_round_trip}
use pact_passport.Capability.Issue.{
  sign_token, root_token, child_token, issue_capability, attenuate,
}
use pact_passport.Capability.Issue.Laws.{Attenuated, attenuate-Attenuated}
use pact_passport.Capability.Verify.{Keys, find_key, verify_capability}
use pact_passport.Capability.Verify.Steps.{accepted, Unexpired}
use pact_passport.Capability.Verify.Accepted.{RootAccepted, verify_capability-root}
use pact_passport.Capability.Verify.Monotone.{Monotone}
use pact_passport.Capability.Verify.Delegation.{
  issue-verify_capability, attenuate-verify_capability,
}
use pact_passport.Capability.Verify.Forgery.{verify_capability-unrooted}
use pact_passport.Capability.Verify.Raising.{HasUnclear, verify_capability-raise}
use pact_passport.Tests.Toy.{same_bytes, write, toy, toy-IsLawful, read, moment}

sorted_bytes :
    canonical_json
      (field "b" (int (negsuc 11)) (field "a" (arr (cons (str "x\"\n") (cons null nil))) end))
    ≡ codes "{\"a\":[\"x\\\"\\n\",null],\"b\":-12}"
unfolding canonical_json lex_le
sorted_bytes = refl

abbrev alice_key : Bytes
alice_key = 1 ∷ []

abbrev bob_key : Bytes
bob_key = 2 ∷ []

abbrev mallory_key : Bytes
mallory_key = 3 ∷ []

abbrev known : Keys
known = ("bob", bob_key) ∷ ("mallory", mallory_key) ∷ []

abbrev until : Caveat
until = record { restrict = "expires"; value = str "aaaaaaaaaz"; terminal = false }

abbrev at_most_five : Caveat
at_most_five = record { restrict = "max_invocations"; value = int (pos 5); terminal = false }

abbrev no_date : Caveat
no_date = record { restrict = "expires"; value = str "aan"; terminal = false }

abbrev root : CapabilityToken
root = sign_token toy alice_key (root_token toy "cap1" "alice" "bob" "read" (until ∷ []))

abbrev child : CapabilityToken
child =
    sign_token toy bob_key
      (child_token toy root bob_key "bob" "carol" (until ∷ at_most_five ∷ []) "cap2")

root_issued : issue_capability toy alice_key "alice" "bob" "read" (until ∷ []) "cap1" ≡ ok root
unfolding issue_capability moment
root_issued = refl

until-Unexpired : Unexpired toy 5 (until ∷ [])
unfolding moment
until-Unexpired = (λ _. ("aaaaaaaaaz", 9, refl, refl, ground arith), tt)

at_most_five-Unexpired : Unexpired toy 5 (at_most_five ∷ [])
at_most_five-Unexpired =
    (λ same. absurd (ground (arith, eq_iff "max_invocations" "expires", same)), tt)

issue-verify_capability_example :
    verify_capability toy false 5 root "bob" alice_key known ≡ accepted
issue-verify_capability_example =
    issue-verify_capability toy toy-IsLawful 5 alice_key "alice" "bob" "read" "cap1" (until ∷ [])
      known root root_issued until-Unexpired

child_made : attenuate toy root bob_key "bob" "carol" (at_most_five ∷ []) "cap2" ≡ ok child
unfolding attenuate sign_token
child_made = refl

bob_found : find_key known "bob" ≡ some bob_key
unfolding find_key
bob_found = refl

attenuate-Attenuated_example :
    Attenuated toy root bob_key "bob" "carol" (at_most_five ∷ []) "cap2" child
attenuate-Attenuated_example =
    attenuate-Attenuated toy root bob_key "bob" "carol" (at_most_five ∷ []) "cap2" child child_made

cap1-not_empty : root.cap_id ≢ ""
unfolding sign_token
cap1-not_empty h = ground (arith, eq_iff "cap1" "", h)

root-AllV13 : AllV13 root.delegation_chain
unfolding sign_token
root-AllV13 = tt

root-chain : root.delegation_chain ≡ []
unfolding sign_token
root-chain = refl

attenuate-verify_capability_example :
    verify_capability toy false 5 child "carol" alice_key known ≡ accepted
attenuate-verify_capability_example =
    attenuate-verify_capability toy toy-IsLawful known root bob_key "bob" bob_found 5 alice_key
      "carol" "cap2" (at_most_five ∷ []) child issue-verify_capability_example root-AllV13
      (inl root-chain) cap1-not_empty child_made at_most_five-Unexpired

verify_capability-root_example :
    (verify_capability toy false 5 root "bob" alice_key known ≡ accepted)
    ↔ RootAccepted toy 5 root "bob" alice_key known
verify_capability-root_example = verify_capability-root toy 5 root "bob" alice_key known root-chain

child-parent : child.parent ≡ some "cap1"
unfolding sign_token
child-parent = refl

abbrev own_link : DelegationLink
own_link = record {
  from_agent = "mallory";
  sig = "";
  parent_cap_id = none;
  action_at_step = none;
  caveats_at_step = none;
}

-- A token that alice never issued.
abbrev forged : CapabilityToken
forged = record (root_token toy "cap3" "alice" "mallory" "admin" []) {
  delegation_chain = own_link ∷ [];
}

mallory_found : find_key known "mallory" ≡ some mallory_key
unfolding find_key
mallory_found = refl

verify_capability-unrooted_example :
    verify_capability toy false 5 (sign_token toy mallory_key forged) "mallory" alice_key known
    ≡ accepted
verify_capability-unrooted_example =
    verify_capability-unrooted toy toy-IsLawful 5 known mallory_key "mallory" forged own_link
      alice_key mallory_found refl refl refl refl tt

abbrev dateless : CapabilityToken
dateless = sign_token toy alice_key (root_token toy "c" "a" "b" "r" (no_date ∷ []))

dateless_raises : verify_capability toy false 5 dateless "b" alice_key known ≡ raise type_error
unfolding verify_capability sign_token moment read write same_bytes canonical_json signable_dict
    without token_to_dict lex_le caveat_items caveat_to_dict
dateless_raises = refl

verify_capability-raise_example : (type_error ≡ type_error) × HasUnclear toy dateless.caveats
verify_capability-raise_example =
    verify_capability-raise toy 5 false dateless "b" alice_key known type_error dateless_raises

token_round_trip_example : token_from_dict (token_to_dict child) ≡ ok child
token_round_trip_example =
    token_round_trip child (λ h. ground (arith, h, child-parent, eq_iff "cap1" ""))

abbrev type_first : Dict
type_first = field "caveats" (arr (cons (obj (field "type" null (field "value" null end))) nil)) end

abbrev value_first : Dict
value_first =
    field "caveats" (arr (cons (obj (field "value" null (field "type" null end))) nil)) end

canonical_json-Reordered_example : canonical_json type_first ≡ canonical_json value_first
canonical_json-Reordered_example = canonical_json-Reordered type_first value_first (
    under "caveats" end (
      item nil (swap "type" "value" null null end (λ h. ground (arith, h, eq_iff "type" "value")))))
