-- ===== src/Identity/Reachable.antt =====
-- Every log that create and rotate lead to verifies, and rotating never fails.
use pact_passport.Base.{
  ℕ, suc, ◌+◌, ◌≡◌, refl, sym, ap, subst, ◌∙◌, true, String, Option, none, some, List, [], ◌∷◌,
  ◌++◌, arith, length, string_eq, eq_refl, ◌==◌, Bool-cases, inl, inr, nat_beq, nat_beq_iff,
}
use pact_passport.Json.{Dict, get, set, without}
use pact_passport.Json.Canonical.{canonical_json}
use pact_passport.Errors.{◌>>=◌, Result, ok, raise, >>=-eq-ok}
use pact_passport.Platform.{Platform, Bytes, IsLawful}
use pact_passport.Identity.{
  Identity, create, rotate, rotated, signed_event, rotation_event, inception_event, event_digest,
  last_event, commits_to,
}
use pact_passport.Identity.Log.{
  LogError, check_inception, check_rotation, check_rotations, verify_event_log,
}

-- The identities and the logs that the program can come to from a name that has no log.
pub data Reachable (p : Platform) : Identity → List Dict → Type 0 where
  created :
      (name : String) (key next_key : Bytes)
      → Reachable p (create p name key next_key []).0 (create p name key next_key []).1
  turned :
      {i j : Identity} {log next : List Dict} (fresh_key : Bytes)
      → Reachable p i log
      → rotate p fresh_key i log ≡ ok (j, next)
      → Reachable p j next

pub append_nil : (xs ys : List LogError) → xs ++ ys ≡ [] → (xs ≡ []) × (ys ≡ [])
append_nil [] ys h = (refl, h)
append_nil (x ∷ xs) ys h = cc

abbrev returned : Result (Identity × List Dict) → Option (Identity × List Dict)
returned (raise e) = none
returned (ok x) = some x

returned-eq :
    {i j : Identity} {log next : List Dict}
    → ◌≡◌ {A = Option (Identity × List Dict)} (some (i, log)) (some (j, next))
    → (i ≡ j) × (log ≡ next)
returned-eq h = (cc h, cc h)

module _ (p : Platform) where
  -- One more event that checks out after the last one.
  pub check_rotations-append :
      (n : ℕ) (prev : Dict) (es : List Dict) (f : Dict)
      → check_rotations p n prev es ≡ ok []
      → check_rotation p (n + length es) (last_event prev es) f ≡ ok []
      → check_rotations p n prev (es ++ (f ∷ [])) ≡ ok []
  unfolding check_rotations length
  check_rotations-append n prev [] f h k =
      let same : n + 0 ≡ n = ground arith in
      simp (subst (λ m. check_rotation p m prev f ≡ ok []) same k)
  check_rotations-append n prev (e ∷ es) f h k =
      let rest : List LogError → Result (List LogError) =
        λ errors. check_rotations p (suc n) e es >>= λ later. ok (errors ++ later) in
      let shifted : n + suc (length es) ≡ suc n + length es = ground arith in
      let (errors, first, h1) = >>=-eq-ok (check_rotation p n prev e) rest h in
      let (later, second, h2) =
        >>=-eq-ok (check_rotations p (suc n) e es) (λ later. ok (errors ++ later)) h1 in
      let (no_errors, no_later) = append_nil errors later (ground (arith, h2)) in
      let more =
        check_rotations-append (suc n) e es f (second ∙ ap ok no_later)
          (subst (λ m. check_rotation p m (last_event e es) f ≡ ok []) shifted k) in
      simp (first ∙ ap ok no_errors, more)

  -- The last event commits to the identity's next key, and the log verifies.
  pub record Sound (i : Identity) (e : Dict) (es : List Dict) : Type 0 where
    pub verified : verify_event_log p (e ∷ es) ≡ ok []
    pub committed :
        commits_to
          (get (last_event e es) "next_keys_digest")
          (p.sha256_digest (p.public_key i.next_private_key))
        ≡ true

  module _ (law : IsLawful p) where
    created_event :
        (key next_key : Bytes)
        → check_inception p (signed_event p key (inception_event p key next_key)) ≡ ok []
    unfolding check_inception inception_event get set without
    created_event key next_key =
        let text = p.b64encode (p.public_key key) in
        elim (Bool-cases (text == "")) [
          | inl e ↦ simp (law.b64decode-b64encode, e)
          | inr e ↦ simp (
            law.b64decode-b64encode,
            e,
            law.verify-sign (canonical_json (inception_event p key next_key)) key,
          )
        ]

    rotated_event :
        (i : Identity) (n : ℕ) (prior : Dict) (fresh_key : Bytes)
        → commits_to
            (get prior "next_keys_digest")
            (p.sha256_digest (p.public_key i.next_private_key))
          ≡ true
        → check_rotation p n prior (
            signed_event p i.next_private_key
              (rotation_event p i n (event_digest p prior) fresh_key))
          ≡ ok []
    unfolding check_rotation rotation_event get set without
    rotated_event i n prior fresh_key committed =
        let text = p.b64encode (p.public_key i.next_private_key) in
        let event = rotation_event p i n (event_digest p prior) fresh_key in
        let numbered : nat_beq n n ≡ true = (nat_beq_iff n n).1 refl in
        elim (Bool-cases (text == "")) [
          | inl e ↦ simp (e, numbered, eq_refl (event_digest p prior))
          | inr e ↦ simp (
            law.b64decode-b64encode,
            e,
            numbered,
            eq_refl (event_digest p prior),
            committed,
            law.verify-sign (canonical_json event) i.next_private_key,
          )
        ]

    created-Sound :
        (name : String) (key next_key : Bytes)
        → Sound
            (create p name key next_key []).0
            (signed_event p key (inception_event p key next_key))
            []
    unfolding create inception_event verify_event_log get set
    created-Sound name key next_key = record {
      verified = simp (created_event key next_key);
      committed = eq_refl (p.sha256_digest (p.public_key next_key));
    }

    last_event-append : (e f : Dict) (es : List Dict) → last_event e (es ++ (f ∷ [])) ≡ f
    last_event-append e f [] = refl
    last_event-append e f (d ∷ es) = last_event-append d f es

    abbrev next_event : Identity → Dict → List Dict → Bytes → Dict
    next_event i e es fresh_key =
        signed_event p i.next_private_key
          (rotation_event p i (length (e ∷ es)) (event_digest p (last_event e es)) fresh_key)

    rotate-Sound :
        (i : Identity) (e : Dict) (es : List Dict) (fresh_key : Bytes)
        → Sound i e es
        → rotate p fresh_key i (e ∷ es)
          ≡ ok (rotated p i fresh_key, e ∷ (es ++ (next_event i e es fresh_key ∷ [])))
    unfolding rotate
    rotate-Sound i e es fresh_key sound = simp sound.committed

    commits_next :
        (i : Identity) (e : Dict) (es : List Dict) (fresh_key : Bytes)
        → commits_to
            (get (next_event i e es fresh_key) "next_keys_digest")
            (p.sha256_digest (p.public_key fresh_key))
          ≡ true
    unfolding rotation_event get set
    commits_next i e es fresh_key = eq_refl (p.sha256_digest (p.public_key fresh_key))

    turned-Sound :
        (i : Identity) (e : Dict) (es : List Dict) (fresh_key : Bytes)
        → Sound i e es
        → Sound (rotated p i fresh_key) e (es ++ (next_event i e es fresh_key ∷ []))
    unfolding verify_event_log length
    turned-Sound i e es fresh_key sound =
        let f = next_event i e es fresh_key in
        let (errors, first, h1) =
          >>=-eq-ok (check_inception p e)
            (λ errors. check_rotations p 1 e es >>= λ later. ok (errors ++ later)) sound.verified in
        let (later, second, h2) =
          >>=-eq-ok (check_rotations p 1 e es) (λ later. ok (errors ++ later)) h1 in
        let (no_errors, no_later) = append_nil errors later (ground (arith, h2)) in
        let shifted : suc (length es) ≡ 1 + length es = ground arith in
        let checked : check_rotation p (1 + length es) (last_event e es) f ≡ ok [] =
          subst (λ m. check_rotation p m (last_event e es) f ≡ ok []) shifted
            (rotated_event i (length (e ∷ es)) (last_event e es) fresh_key sound.committed) in
        let more = check_rotations-append 1 e es f (second ∙ ap ok no_later) checked in
        record {
          verified = simp (first ∙ ap ok no_errors, more);
          committed =
              ap
                (λ d.
                  commits_to (get d "next_keys_digest") (p.sha256_digest (p.public_key fresh_key)))
                (last_event-append e f es)
              ∙ commits_next i e es fresh_key;
        }

    Reachable-Sound :
        {i : Identity} {log : List Dict}
        → Reachable p i log
        → (e : Dict) × (es : List Dict) × (log ≡ e ∷ es) × Sound i e es
    unfolding create
    Reachable-Sound (created name key next_key) = (
      signed_event p key (inception_event p key next_key),
      [],
      refl,
      created-Sound name key next_key,
    )
    Reachable-Sound (turned {i} {j} {log} {next} fresh_key r h) =
        let (e, es, same, sound) = Reachable-Sound r in
        let more = es ++ (next_event i e es fresh_key ∷ []) in
        let made : returned (rotate p fresh_key i log) ≡ some (rotated p i fresh_key, e ∷ more) =
          ap returned (ap (rotate p fresh_key i) same ∙ rotate-Sound i e es fresh_key sound) in
        let (who, what) = returned-eq (sym made ∙ ap returned h) in
        (e, more, sym what, subst (λ k. Sound k e more) who (turned-Sound i e es fresh_key sound))

    -- The log of every identity that create makes under a name that has no log yet, and that any number
    -- of rotations lead to, verifies without an error, and the next rotation goes through, whatever the fresh key is.
    pub Reachable-verify_event_log :
        (i : Identity) (log : List Dict)
        → Reachable p i log
        → (verify_event_log p log ≡ ok [])
          × ((fresh_key : Bytes)
              → (next : List Dict) × (rotate p fresh_key i log ≡ ok (rotated p i fresh_key, next)))
    Reachable-verify_event_log i log r =
        let (e, es, same, sound) = Reachable-Sound r in
        (
          ap (verify_event_log p) same ∙ sound.verified,
          λ fresh_key. (
            e ∷ (es ++ (next_event i e es fresh_key ∷ [])),
            ap (rotate p fresh_key i) same ∙ rotate-Sound i e es fresh_key sound,
          ),
        )
