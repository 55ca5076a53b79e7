-- ===== src/Capability/Verify/Monotone.antt =====
-- The chain of an accepted capability: along v1.3 links nothing is dropped and nothing is changed.
use pact_passport.Capability.Verify.Walked.{Narrows}
use pact_passport.Base.{
  ◌==◌, string_eq, ap, Bool-cases, same_set, false, ◌≢◌, ◌≡◌, inl, inr, refl, true, String, Option,
  none, some, List, [], ◌∷◌, arith, eq_iff, is_subset,
}
use pact_passport.Platform.{Platform}
use pact_passport.Capability.{CapabilityToken, DelegationLink}
use pact_passport.Capability.Keys.{caveat_keys, key_eq}
use pact_passport.Capability.Verify.{
  no_known_keys, is_known, unless, walk_start, check_final, check_chain, walk_chain, ◌>>=◌, Keys,
  Walk, pass,
}
use pact_passport.Capability.Verify.Steps.{>>=-eq-pass}

module _ (p : Platform) (known : Keys) where
  pub check_final-holds :
      (t : CapabilityToken) (u : Walk) (a : String)
      → u.has_v13 ≡ true
      → u.has_pre_v13 ≡ false
      → u.action ≡ some a
      → check_final p t u ≡ pass tt
      → (a ≡ t.action) × (is_subset ⦃e = key_eq⦄ u.caveats (caveat_keys t.caveats) ≡ true)
  unfolding check_final same_set
  check_final-holds t u a v13 pre named h = ground (arith, eq_iff t.action a)

  -- A chain that has been checked was walked, and the token agrees with the end of the walk.
  pub check_chain-walk :
      (t : CapabilityToken) (l : DelegationLink) (ls : List DelegationLink) (parent : Option String)
      → parent ≢ none
      → parent ≢ some ""
      → check_chain p known t (l ∷ ls) parent ≡ pass tt
      → (q : String) × (u : Walk) × (walk_chain p known q (l ∷ ls) walk_start ≡ pass u)
        × (check_final p t u ≡ pass tt)
  unfolding check_chain
  check_chain-walk t l ls none has_parent not_empty h = absurd (has_parent refl)
  check_chain-walk t l ls (some q) has_parent not_empty h = elim (Bool-cases (q == "")) [
    | inl e ↦ absurd (not_empty (ap some ((eq_iff q "").0 e)))
    | inr e ↦
        let rest = walk_chain p known q (l ∷ ls) walk_start >>= check_final p t in
        let h0 : (unless (is_known known) no_known_keys >>= λ _. rest) ≡ pass tt = rw e at h in
        let (_, _, h1) = >>=-eq-pass (unless (is_known known) no_known_keys) (λ _. rest) h0 in
        let (u, walked, final) =
          >>=-eq-pass (walk_chain p known q (l ∷ ls) walk_start) (check_final p t) h1 in
        (q, u, walked, final)
  ]

  -- The caveats along the links of a chain, and those of the token at its end.
  abbrev pub Monotone : CapabilityToken → List DelegationLink → Type 0
  Monotone t [] = Unit {0}
  Monotone t (l ∷ ls) = Narrows p known t.action (caveat_keys t.caveats) [] (l ∷ ls)
