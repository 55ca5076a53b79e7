-- ===== src/Identity/Again.antt =====
-- Identity.create under a name that has a log already: append_event puts the inception after the events that
-- are there.
use pact_passport.Base.{
  ℕ, suc, ◌+◌, ◌≡◌, ◌≢◌, ap, subst, ◌∙◌, String, List, [], ◌∷◌, ◌++◌, arith, length,
}
use pact_passport.Json.{Dict, get, set}
use pact_passport.Errors.{◌>>=◌, Result, ok, >>=-eq-ok}
use pact_passport.Platform.{Platform, Bytes}
use pact_passport.Identity.{create, signed_event, inception_event, last_event}
use pact_passport.Identity.Log.{
  LogError, check_inception, check_rotation, check_rotation_key, check_rotations, verify_event_log,
  first_key,
}
use pact_passport.Identity.Reachable.{append_nil}

still_wrong {ℓ} :
    {A : Type ℓ} (key : Result A) (check : A → Result (List LogError)) (e : LogError)
    (others : List LogError → List LogError)
    → (key >>= λ k. check k >>= λ errors. ok (e ∷ others errors)) ≢ ok []
still_wrong key check e others h =
    let (k, _, h1) = >>=-eq-ok key (λ k. check k >>= λ errors. ok (e ∷ others errors)) h in
    let (errors, _, h2) = >>=-eq-ok (check k) (λ errors. ok (e ∷ others errors)) h1 in cc h2

module _ (p : Platform) where
  -- Every event of a log that checks out checks out after the one before it.
  check_rotation-within :
      (n : ℕ) (prev : Dict) (es : List Dict) (f : Dict) (more : List Dict)
      → check_rotations p n prev ((es ++ (f ∷ [])) ++ more) ≡ ok []
      → check_rotation p (n + length es) (last_event prev es) f ≡ ok []
  unfolding check_rotations length
  check_rotation-within n prev [] f more h =
      let (errors, first, h1) =
        >>=-eq-ok (check_rotation p n prev f)
          (λ errors. check_rotations p (suc n) f more >>= λ later. ok (errors ++ later)) h in
      let (later, second, h2) =
        >>=-eq-ok (check_rotations p (suc n) f more) (λ later. ok (errors ++ later)) h1 in
      let (no_errors, no_later) = append_nil errors later (ground (arith, h2)) in
      let same : n ≡ n + 0 = ground arith in
      subst (λ m. check_rotation p m prev f ≡ ok []) same (first ∙ ap ok no_errors)
  check_rotation-within n prev (e ∷ es) f more h =
      let rest = (es ++ (f ∷ [])) ++ more in
      let (errors, first, h1) =
        >>=-eq-ok (check_rotation p n prev e)
          (λ errors. check_rotations p (suc n) e rest >>= λ later. ok (errors ++ later)) h in
      let (later, second, h2) =
        >>=-eq-ok (check_rotations p (suc n) e rest) (λ later. ok (errors ++ later)) h1 in
      let (no_errors, no_later) = append_nil errors later (ground (arith, h2)) in
      let shifted : suc n + length es ≡ n + suc (length es) = ground arith in
      subst (λ m. check_rotation p m (last_event e es) f ≡ ok []) shifted
        (check_rotation-within (suc n) e es f more (second ∙ ap ok no_later))

  inception_misplaced :
      (n : ℕ) (prev : Dict) (key next_key : Bytes)
      → check_rotation p n prev (signed_event p key (inception_event p key next_key)) ≢ ok []
  unfolding check_rotation inception_event get set
  inception_misplaced n prev key next_key =
      still_wrong
        (first_key (get (signed_event p key (inception_event p key next_key)) "current_keys"))
        (check_rotation_key p n prev (signed_event p key (inception_event p key next_key))) _ _

  -- When create runs under a name that has a log already, the log that it leaves does not verify, and it
  -- never does again, whatever rotations or other events are appended to it.
  pub verify_event_log-create :
      (name : String) (key next_key : Bytes) (e : Dict) (es more : List Dict)
      → verify_event_log p ((create p name key next_key (e ∷ es)).1 ++ more) ≢ ok []
  unfolding verify_event_log create
  verify_event_log-create name key next_key e es more h =
      let f = signed_event p key (inception_event p key next_key) in
      let rest = (es ++ (f ∷ [])) ++ more in
      let (errors, first, h1) =
        >>=-eq-ok (check_inception p e)
          (λ errors. check_rotations p 1 e rest >>= λ later. ok (errors ++ later)) h in
      let (later, second, h2) =
        >>=-eq-ok (check_rotations p 1 e rest) (λ later. ok (errors ++ later)) h1 in
      let (no_errors, no_later) = append_nil errors later (ground (arith, h2)) in
      inception_misplaced (1 + length es) (last_event e es) key next_key
        (check_rotation-within 1 e es f more (second ∙ ap ok no_later))
