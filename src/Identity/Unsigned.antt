-- ===== src/Identity/Unsigned.antt =====
-- What verify_event_log does not check.
use pact_passport.Base.{
  ℕ, ◌+◌, ◌≡◌, refl, ap, ◌∙◌, true, String, List, [], ◌∷◌, ◌++◌, arith, length, string_eq, eq_refl,
  nat_beq, nat_beq_iff, pos,
}
use pact_passport.Json.{Dict, Value, str, int, arr, nil, cons, field, end, get}
use pact_passport.Errors.{ok, >>=-eq-ok, ◌>>=◌}
use pact_passport.Platform.{Platform}
use pact_passport.Identity.{event_digest, last_event}
use pact_passport.Identity.Log.{check_inception, check_rotation, check_rotations, verify_event_log}
use pact_passport.Identity.Reachable.{append_nil, check_rotations-append}

-- A rotation with an empty key, and no signature at all.
unfoldable pub keyless_rotation : String → ℕ → String → Value → Dict
keyless_rotation agent_id sequence prior_digest next_digest = field "agent_id" (str agent_id) (
    field "event_type" (str "rotation") (
      field "sequence" (int (pos sequence)) (
        field "prior_event_digest" (str prior_digest) (
          field "current_keys" (arr (cons (str "") nil))
            (field "next_keys_digest" next_digest end)))))

module _ (p : Platform) where
  keyless_checked :
      (agent_id : String) (n : ℕ) (prior : Dict) (next_digest : Value)
      → check_rotation p n prior (keyless_rotation agent_id n (event_digest p prior) next_digest)
        ≡ ok []
  unfolding check_rotation keyless_rotation get
  keyless_checked agent_id n prior next_digest =
      let numbered : nat_beq n n ≡ true = (nat_beq_iff n n).1 refl in
      simp (numbered, eq_refl (event_digest p prior))

  -- A log that verifies still verifies after anyone has appended to it a rotation whose current key is
  -- the empty text: it needs no signature, need not meet the commitment of the event before, and
  -- commits to a next key of its author's choice, under any agent_id.
  pub verify_event_log-keyless_rotation :
      (e : Dict) (es : List Dict) (agent_id : String) (next_digest : Value)
      → verify_event_log p (e ∷ es) ≡ ok []
      → verify_event_log p (
          e
          ∷ (es
              ++ (keyless_rotation agent_id
                    (1 + length es)
                    (event_digest p (last_event e es))
                    next_digest
                  ∷ [])))
        ≡ ok []
  unfolding verify_event_log
  verify_event_log-keyless_rotation e es agent_id next_digest h =
      let (errors, first, h1) =
        >>=-eq-ok (check_inception p e)
          (λ errors. check_rotations p 1 e es >>= λ later. ok (errors ++ later)) h in
      let (later, second, h2) =
        >>=-eq-ok (check_rotations p 1 e es) (λ later. ok (errors ++ later)) h1 in
      let (no_errors, no_later) = append_nil errors later (ground (arith, h2)) in
      let more =
        check_rotations-append p 1 e es _ (second ∙ ap ok no_later)
          (keyless_checked agent_id (1 + length es) (last_event e es) next_digest) in
      simp (first ∙ ap ok no_errors, more)
